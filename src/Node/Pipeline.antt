-- ===== src/Node/Pipeline.antt =====
-- The four tasks of a node in src/nodes/node.rs, between which messages go through queues: one
-- receives from the socket, one has each message handled by a task of its own, one encodes and
-- signs, one sends. The tasks run in any order, and so do those that handle.

pub mod Answers
pub mod Exchange
pub mod Accepted
use history_chain.Base.{
  ℕ, zero, suc, ◌+◌, Bytes, List, [], ◌∷◌, ◌++◌, Bool, true, false, Option, none, some, Result, ok,
  err, panicked, HError, ◌>>=◌, ◌>>◌, get_elem?, take, drop, replicate, length, if◌then◌else◌,
}
use history_chain.Identity.{Ed25519, SignHandle}
use history_chain.Node.Info.{SocketAddr}
use history_chain.Protocol.{Bincode, HeaderCodec}
use history_chain.Protocol.Message.{Message, message_encode, max_udp_msg_size}
use history_chain.Register.{Register, answer}
use history_chain.Udp.{Socket, udp_recv_from, socket_udp_send_to}

pub record Pipeline : Type 0 where
  pub listening : Bool
  pub to_handle : List (Message × SocketAddr)
  pub to_sign : List (Message × SocketAddr)
  pub to_send : List (Bytes × SocketAddr)
  pub sent : List (Bytes × SocketAddr)

abbrev pub pipeline_new : Pipeline
pipeline_new = record { listening = true; to_handle = []; to_sign = []; to_send = []; sent = [] }

-- `spawn_recv_net_task`: the loop ends on the first error, a timeout included.
received_one : Result (Message × SocketAddr) → Pipeline → Pipeline
received_one (ok msg_addr) p = record p { to_handle = p.to_handle ++ (msg_addr ∷ []) }
received_one (err e) p = record p { listening = false }
received_one panicked p = record p { listening = false }

-- `spawn_handler_task` at one of the messages that wait; an error is only logged.
answered_one : Result Message → SocketAddr → Pipeline → Pipeline
answered_one (ok msg) addr p = record p { to_sign = p.to_sign ++ ((msg, addr) ∷ []) }
answered_one (err e) addr p = p
answered_one panicked addr p = p

abbrev without : {A : Type 0} → ℕ → List A → List A
without i xs = take i xs ++ drop (suc i) xs

-- `spawn_encode_and_sign_task`: an error is only logged.
signed_one : Result ℕ × Bytes → SocketAddr → Pipeline → Pipeline
signed_one (ok size, vec_bytes) addr p = record p {
  to_send = p.to_send ++ ((take size vec_bytes, addr) ∷ []);
}
signed_one (err e, vec_bytes) addr p = p
signed_one (panicked, vec_bytes) addr p = p

-- `spawn_udp_send_to_task`: the same.
sent_one : Result ℕ → Bytes × SocketAddr → Pipeline → Pipeline
sent_one (ok size) bytes_addr p = record p { sent = p.sent ++ (bytes_addr ∷ []) }
sent_one (err e) bytes_addr p = p
sent_one panicked bytes_addr p = p

handle_at : Register → ℕ → Option (Message × SocketAddr) → Pipeline → Pipeline
unfolding answered_one
handle_at register now none p = p
handle_at register now (some (msg, addr)) p = answered_one (answer register now msg) addr p

pub handle_one : Register → ℕ → ℕ → Pipeline → Pipeline
unfolding handle_at
handle_one register i now p =
    handle_at register now (get_elem? p.to_handle i)
      (record p { to_handle = without i p.to_handle })

send_next : Socket → List (Bytes × SocketAddr) → Pipeline → Pipeline
unfolding sent_one
send_next socket [] p = p
send_next socket ((bytes, addr) ∷ rest) p =
    sent_one (socket_udp_send_to socket addr bytes) (bytes, addr) (record p { to_send = rest })

pub send_one : Socket → Pipeline → Pipeline
unfolding send_next
send_one socket p = send_next socket p.to_send p

module _ {Key Secret : Type 0} (e : Ed25519 Key Secret) (c : HeaderCodec)
    (m : Bincode Message) where
  pub recv_one : Bytes → Socket → Pipeline → Pipeline
  unfolding received_one
  recv_one my_name socket p =
      if p.listening then received_one (udp_recv_from e c m socket my_name) p else p

  sign_next : SignHandle Key Secret → List (Message × SocketAddr) → Pipeline → Pipeline
  unfolding signed_one
  sign_next sign_handle [] p = p
  sign_next sign_handle ((msg, addr) ∷ rest) p =
      signed_one (message_encode e c m msg sign_handle (replicate max_udp_msg_size 0)) addr
        (record p { to_sign = rest })

  pub sign_one : SignHandle Key Secret → Pipeline → Pipeline
  unfolding sign_next
  sign_one sign_handle p = sign_next sign_handle p.to_sign p

  -- Any order of steps, with the sockets that the first task has received from.
  pub data Runs (my_name : Bytes) (register : Register) (sign_handle : SignHandle Key Secret)
      : List Socket → Pipeline → Type 0 where
    starts : Runs my_name register sign_handle [] pipeline_new
    receives :
        {ss : List Socket} {p : Pipeline} (socket : Socket)
        → Runs my_name register sign_handle ss p
        → Runs my_name register sign_handle (socket ∷ ss) (recv_one my_name socket p)
    handles :
        {ss : List Socket} {p : Pipeline} (i now : ℕ)
        → Runs my_name register sign_handle ss p
        → Runs my_name register sign_handle ss (handle_one register i now p)
    signs :
        {ss : List Socket} {p : Pipeline}
        → Runs my_name register sign_handle ss p
        → Runs my_name register sign_handle ss (sign_one sign_handle p)
    sends :
        {ss : List Socket} {p : Pipeline} (socket : Socket)
        → Runs my_name register sign_handle ss p
        → Runs my_name register sign_handle ss (send_one socket p)
