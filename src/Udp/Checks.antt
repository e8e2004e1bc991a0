-- ===== src/Udp/Checks.antt =====
-- Which addresses pass `check_addresses_available`.
use history_chain.Base.{
  All-map, ℕ, suc, ◌+◌, ◌<◌, Bytes, List, [], ◌∷◌, false, not, ◌≡◌, ◌∙◌, refl, sym, ap, subst, some,
  Result, ok, err, panicked, HError, >>=-eq-ok, ok-inj, arith, length, get_elem?, take, ◌==◌, All,
  bytes_eq_refl,
}
use history_chain.Identity.{Ed25519, SignHandle}
use history_chain.Node.Info.{SocketAddr}
use history_chain.Protocol.{Bincode, HeaderCodec}
use history_chain.Protocol.Accepts.{IsFor, decode_iff, err_if-eq-ok, same-bytes}
use history_chain.Protocol.Message.{
  Payload, chain_request, vote_block, block_recitify, search_friend, empty, introduce,
  introduce_resp, message_decode_from_slice, Message, message_new, message_encode,
}
use history_chain.Udp.{
  Received, Socket, full_buffer, check_encoded, timed_out, failed, received, recv_or,
  is_empty_payload, keep, check_addr_available, available, udp_recv_from, check_addresses_available,
}

recv_or-eq-ok :
    (late broken : HError) (r : Received) (bytes : Bytes) (src : SocketAddr)
    → recv_or late broken r ≡ ok (bytes, src)
    → r ≡ received bytes src
unfolding recv_or
recv_or-eq-ok late broken timed_out bytes src h = cc
recv_or-eq-ok late broken failed bytes src h = cc
recv_or-eq-ok late broken (received bytes' src') bytes src h = cc

only_empty : (p : Payload) → not (is_empty_payload p) ≡ false → p ≡ empty
unfolding is_empty_payload
only_empty (chain_request info) h = cc
only_empty (vote_block chain) h = cc
only_empty (block_recitify block) h = cc
only_empty (search_friend name) h = cc
only_empty empty h = refl
only_empty introduce h = cc
only_empty (introduce_resp info) h = cc

keep-All :
    (P : SocketAddr → Type 0) (r : Result SocketAddr) (rest : Result (List SocketAddr))
    (xs : List SocketAddr)
    → keep r rest ≡ ok xs
    → ((a : SocketAddr) → r ≡ ok a → P a)
    → ((ys : List SocketAddr) → rest ≡ ok ys → All P ys)
    → All P xs
unfolding keep
keep-All P (ok a) rest xs h first others =
    let (ys, got, same) = >>=-eq-ok _ _ h in
    let it : a ∷ ys ≡ xs = ok-inj same in subst (All P) it (first a refl, others ys got)
keep-All P (err f) rest xs h first others = others xs h
keep-All P panicked rest xs h first others = cc

some_addresses : (n : ℕ) → (n == 0) ≡ false → 0 < n
some_addresses n h = ground arith

module _ {Key Secret : Type 0} (e : Ed25519 Key Secret) (c : HeaderCodec)
    (m : Bincode Message) where
  -- What `udp_recv_from` returns is a signed message to the node.
  pub udp_recv_from-IsFor :
      (socket : Socket) (my_name : Bytes) (msg : Message) (src : SocketAddr)
      → udp_recv_from e c m socket my_name ≡ ok (msg, src)
      → (bytes : Bytes) × (socket.recv_from ≡ received bytes src) × IsFor e c m my_name bytes msg
  unfolding udp_recv_from
  udp_recv_from-IsFor socket my_name msg src done =
      let (u, _, done') = >>=-eq-ok socket.bind _ done in
      let ((bytes, src'), got, rest) = >>=-eq-ok _ _ done' in
      let (msg', decoded, last) = >>=-eq-ok _ _ rest in
      let same = ok-inj last in
      (
        bytes,
        recv_or-eq-ok _ _ socket.recv_from bytes src' got ∙ ap (λ r. received bytes (r.1)) same,
        subst (λ r. IsFor e c m my_name bytes (r.0)) same
            ((decode_iff e c m my_name bytes msg').0 decoded),
      )

  -- The socket has received bytes from the address's host that are a signed message to the node with
  -- the empty payload.
  abbrev Answered : Socket → Bytes → SocketAddr → Type 0
  Answered socket my_name addr =
      (bytes : Bytes) × (src : SocketAddr) × (msg : Message) × (socket.recv_from
        ≡ received bytes src)
      × (src.ip ≡ addr.ip)
      × IsFor e c m my_name bytes msg
      × (msg.payload ≡ empty)

  check_addr_available-Answered :
      (socket : Socket) (my_name : Bytes) (addr addr' : SocketAddr) (msg_byte : Bytes)
      → check_addr_available e c m socket my_name addr msg_byte ≡ ok addr'
      → (addr' ≡ addr) × Answered socket my_name addr
  unfolding check_addr_available
  check_addr_available-Answered socket my_name addr addr' msg_byte done =
      let (u, _, done') = >>=-eq-ok socket.bind _ done in
      let (n, _, done'') = >>=-eq-ok (socket.send_to msg_byte addr) _ done' in
      let ((bytes, src), got, rest) = >>=-eq-ok _ _ done'' in
      let (u', host, rest') = >>=-eq-ok _ _ rest in
      let (msg, decoded, rest'') = >>=-eq-ok _ _ rest' in
      let (u'', plain, last) = >>=-eq-ok _ _ rest'' in
      let it : addr' ≡ addr = sym (ok-inj last) in
      (
        it,
        (
          bytes,
          src,
          msg,
          recv_or-eq-ok _ _ socket.recv_from bytes src got,
          same-bytes _ _ (err_if-eq-ok _ _ u' host),
          (decode_iff e c m my_name bytes msg).0 decoded,
          only_empty msg.payload (err_if-eq-ok _ _ u'' plain),
        ),
      )

  -- An address that answers passes.
  check_addr_available-ok :
      (socket : Socket) (my_name : Bytes) (addr src : SocketAddr) (msg_byte bytes : Bytes) (n : ℕ)
      (msg : Message)
      → socket.bind ≡ ok tt
      → socket.send_to msg_byte addr ≡ ok n
      → socket.recv_from ≡ received bytes src
      → src.ip ≡ addr.ip
      → message_decode_from_slice e c m my_name bytes ≡ ok msg
      → msg.payload ≡ empty
      → check_addr_available e c m socket my_name addr msg_byte ≡ ok addr
  unfolding check_addr_available recv_or is_empty_payload
  check_addr_available-ok socket my_name addr src msg_byte bytes n msg bound sent got host decoded
        plain =
      rw (bound, sent, got, recv_or, host, bytes_eq_refl addr.ip, decoded, plain, is_empty_payload)
        refl

  pub check_addresses_available-one :
      (sockets : ℕ → Socket) (now : ℕ) (addr : SocketAddr) (receiver : Bytes)
      (handle : SignHandle Key Secret) (n k : ℕ) (buffer bytes : Bytes) (src : SocketAddr)
      (msg : Message)
      → message_encode e c m
          (message_new now handle.public_key_bytes receiver empty)
          handle
          full_buffer
        ≡ (ok n, buffer)
      → (sockets 0).bind ≡ ok tt
      → (sockets 0).send_to (take n buffer) addr ≡ ok k
      → (sockets 0).recv_from ≡ received bytes src
      → src.ip ≡ addr.ip
      → message_decode_from_slice e c m handle.public_key_bytes bytes ≡ ok msg
      → msg.payload ≡ empty
      → check_addresses_available e c m sockets now (addr ∷ []) receiver handle ≡ ok (addr ∷ [])
  unfolding check_addresses_available check_encoded available keep
  check_addresses_available-one sockets now addr receiver handle n k buffer bytes src msg encoded
        bound sent got host decoded plain =
      rw
        (
          encoded,
          check_addr_available-ok (sockets 0) handle.public_key_bytes addr src (take n buffer) bytes
              k msg bound sent got host decoded plain,
          keep,
        )
        refl

  -- An address at a place in the list from the i-th task on, which was answered there.
  abbrev pub AnsweredAt : (ℕ → Socket) → ℕ → Bytes → List SocketAddr → SocketAddr → Type 0
  AnsweredAt sockets i my_name addrs addr =
      (j : ℕ) × (get_elem? addrs j ≡ some addr) × Answered (sockets (i + j)) my_name addr

  available-Answered :
      (sockets : ℕ → Socket) (i : ℕ) (my_name msg_byte : Bytes) (addrs found : List SocketAddr)
      → available e c m sockets i my_name msg_byte addrs ≡ ok found
      → All (AnsweredAt sockets i my_name addrs) found
  unfolding available
  available-Answered sockets i my_name msg_byte [] [] h = tt
  available-Answered sockets i my_name msg_byte [] (x ∷ found) h = cc
  available-Answered sockets i my_name msg_byte (addr ∷ addrs) found h =
      keep-All (AnsweredAt sockets i my_name (addr ∷ addrs))
        (check_addr_available e c m (sockets i) my_name addr msg_byte) _ found h
        (λ a got.
          let (same, answered) =
            check_addr_available-Answered (sockets i) my_name addr a msg_byte got in
          let here : i ≡ i + 0 = omega arith in
          (
            0,
            ap some (sym same),
            subst (λ k. Answered (sockets k) my_name a) here
                (subst (Answered (sockets i) my_name) (sym same) answered),
          ))
        (λ ys got.
          All-map
            (λ x (j, place, answered).
              let here : suc i + j ≡ i + suc j = omega arith in
              (suc j, place, subst (λ k. Answered (sockets k) my_name x) here answered))
            ys (available-Answered sockets (suc i) my_name msg_byte addrs ys got))

  -- Every address that `check_addresses_available` returns is in the list, at a place whose socket
  -- has received, from the address's host, bytes that `decode_from_slice` accepts as a signed
  -- message to the node with the empty payload; an empty list is refused.
  pub check_addresses_available-Answered :
      (sockets : ℕ → Socket) (now : ℕ) (addr_list found : List SocketAddr) (receiver : Bytes)
      (handle : SignHandle Key Secret)
      → check_addresses_available e c m sockets now addr_list receiver handle ≡ ok found
      → (0 < length addr_list) × All (AnsweredAt sockets 0 handle.public_key_bytes addr_list) found
  unfolding check_addresses_available check_encoded
  check_addresses_available-Answered sockets now addr_list found receiver handle h =
      let (u, some_addr, h') = >>=-eq-ok _ _ h in
      let test_msg = message_new now handle.public_key_bytes receiver empty in
      let encoded = message_encode e c m test_msg handle full_buffer in
      let (n, _, h'') = >>=-eq-ok (encoded.0) _ h' in
      let nonempty : (length addr_list == 0) ≡ false = err_if-eq-ok _ _ u some_addr in
      (
        some_addresses (length addr_list) nonempty,
        available-Answered sockets 0 _ _ addr_list found h'',
      )
