-- ===== src/Udp.antt =====
-- src/network/udp.rs: messages in packets. A UDP socket is the record `Socket`, what its calls
-- return; the waiting time is a part of it. Each call of a method binds a socket of its own.

pub mod Sends
pub mod Checks
use history_chain.Base.{
  ℕ, zero, suc, ◌+◌, ◌*◌, ◌≤◌, arith, length-replicate, Bytes, List, [], ◌∷◌, not, Bool, true,
  false, Option, none, some, Result, ok, err, panicked, HError, ◌>>=◌, ◌>>◌, err_if, length, take,
  replicate, ltb, ◌==◌, if◌then◌else◌, bytes_eq,
}
use history_chain.Identity.{Ed25519, SignHandle}
use history_chain.Node.Info.{SocketAddr}
use history_chain.Protocol.{Bincode, HeaderCodec, header_size, and_next}
use history_chain.Protocol.Message.{
  Message, Payload, chain_request, vote_block, block_recitify, search_friend, empty, introduce,
  introduce_resp, max_udp_msg_size, message_new, message_encode, message_decode_from_slice,
}

-- What `timeout(.., recv_from(..))` returns: the bytes received, and who has sent them.
pub data Received : Type 0 where
  timed_out failed : Received
  received : Bytes → SocketAddr → Received

pub record Socket : Type 0 where
  pub bind : Result (Unit {0})
  pub send_to : Bytes → SocketAddr → Result ℕ
  pub recv_from : Received

-- `MAX_MSG_SIZE`
abbrev max_msg_size : ℕ
max_msg_size = 1024 * 1024

-- `vec![0u8; MAX_MSG_SIZE]`
pub full_buffer : Bytes
full_buffer = replicate max_msg_size 0

replicate-long : (n : ℕ) → 1024 ≤ n → 1024 ≤ length (replicate {A = ℕ} n 0)
replicate-long n h = omega (arith, length-replicate {A = ℕ} n 0)

pub full_buffer-long : 1024 ≤ length full_buffer
unfolding full_buffer
full_buffer-long = replicate-long max_msg_size (omega arith)

unfoldable pub recv_or : HError → HError → Received → Result (Bytes × SocketAddr)
recv_or late broken timed_out = err late
recv_or late broken failed = err broken
recv_or late broken (received bytes src_addr) = ok (bytes, src_addr)

-- `payload == Payload::Empty`
is_empty_payload : Payload → Bool
is_empty_payload (chain_request info) = false
is_empty_payload (vote_block chain) = false
is_empty_payload (block_recitify block) = false
is_empty_payload (search_friend name) = false
is_empty_payload empty = true
is_empty_payload introduce = false
is_empty_payload (introduce_resp info) = false

-- `socket_wrapper::udp_send_to`
unfoldable pub socket_udp_send_to : Socket → SocketAddr → Bytes → Result ℕ
socket_udp_send_to socket dst_addr msg_bytes = do
  err_if (ltb max_udp_msg_size (length msg_bytes))
      (HError.network "send_to: msg_bytes is too large")
  socket.bind
  socket.send_to msg_bytes dst_addr

-- The results of the tasks in the order of the addresses, through `filter_map`.
keep : Result SocketAddr → Result (List SocketAddr) → Result (List SocketAddr)
keep (ok addr) rest = rest >>= λ addrs. ok (addr ∷ addrs)
keep (err f) rest = rest
keep panicked rest = panicked

module _ {Key Secret : Type 0} (e : Ed25519 Key Secret) (c : HeaderCodec)
    (m : Bincode Message) where
  unfoldable pub udp_recv_from : Socket → Bytes → Result (Message × SocketAddr)
  unfolding recv_or
  udp_recv_from socket my_name = do
    socket.bind
    (bytes, src_addr) ←
        recv_or (HError.network "udp_recv_from: timeout") (HError.network "udp_recv_from: failed")
          socket.recv_from
    msg ← message_decode_from_slice e c m my_name bytes
    ok (msg, src_addr)

  -- `&buffer[..total_size]` is behind the binding.
  pub udp_send_to : Socket → SocketAddr → Message → SignHandle Key Secret → Result ℕ
  udp_send_to socket dst_addr msg sign_handle =
      let (result, buffer) = message_encode e c m msg sign_handle (replicate max_udp_msg_size 0) in
      do
        size ← result
        socket.bind
        sent ←
            (if ltb max_udp_msg_size (size + header_size)
              then panicked
              else socket.send_to (take (size + header_size) buffer) dst_addr)
        ok (size + header_size)

  check_addr_available : Socket → Bytes → SocketAddr → Bytes → Result SocketAddr
  unfolding recv_or is_empty_payload
  check_addr_available socket my_name addr msg_byte = do
    socket.bind
    sent ← socket.send_to msg_byte addr
    (bytes, dst_addr) ←
        recv_or (HError.network "check_addr_available: timeout: {}") HError.io socket.recv_from
    err_if (not (bytes_eq (dst_addr.ip) (addr.ip))) (HError.network "check_addr_available: failed")
    msg ← message_decode_from_slice e c m my_name bytes
    err_if (not (is_empty_payload msg.payload)) (HError.network "check_addr_available: failed")
    ok addr

  -- The i-th task has the i-th socket.
  pub available : (ℕ → Socket) → ℕ → Bytes → Bytes → List SocketAddr → Result (List SocketAddr)
  unfolding check_addr_available keep
  available sockets i my_name msg_byte [] = ok []
  available sockets i my_name msg_byte (addr ∷ addrs) =
      keep (check_addr_available (sockets i) my_name addr msg_byte)
        (available sockets (suc i) my_name msg_byte addrs)

  -- The checks, with what the test message is encoded to.
  pub check_encoded :
      (ℕ → Socket) → List SocketAddr → Bytes → Result ℕ × Bytes → Result (List SocketAddr)
  unfolding available
  check_encoded sockets addr_list my_name (result, buffer) = do
    err_if (length addr_list == 0) (HError.network "upd_connection error: have no addr_list")
    total_len ← result
    available sockets 0 my_name (take total_len buffer) addr_list

  pub check_addresses_available :
      (ℕ → Socket) → ℕ → List SocketAddr → Bytes → SignHandle Key Secret → Result (List SocketAddr)
  unfolding check_encoded
  check_addresses_available sockets now addr_list receiver sign_handle =
      let my_name = sign_handle.public_key_bytes in
      let test_msg = message_new now my_name receiver empty in
      check_encoded sockets addr_list my_name
        (message_encode e c m test_msg sign_handle full_buffer)
