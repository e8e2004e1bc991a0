-- ===== src/Node/Pipeline/Exchange.antt =====
-- Two nodes: one checks the other's address, through the other's four tasks.
use history_chain.Base.{
  ℕ, ◌+◌, ◌≤◌, Bytes, [], ◌∷◌, ◌++◌, true, ◌≡◌, ◌∙◌, refl, sym, ap, Result, ok, arith, length, take,
  drop, replicate, length-replicate, take-append_left, append-nil, ok-inj, le→ltb,
}
use history_chain.Identity.{
  Ed25519, IsSignature, SignHandle, identity_new, spawn_new, public_key_to_bytes,
}
use history_chain.Node.Info.{SocketAddr}
use history_chain.Node.Pipeline.{
  Pipeline, recv_one, received_one, handle_one, handle_at, answered_one, sign_one, sign_next,
  signed_one, send_one, send_next, sent_one,
}
use history_chain.Protocol.{Bincode, Encodes, HeaderCodec}
use history_chain.Protocol.HeaderRoundTrip.{Encodings, IsHeaderCodec}
use history_chain.Protocol.Message.{
  Message, empty, message_new, message_encode, message_decode_from_slice,
}
use history_chain.Protocol.RoundTrip.{packet, decode-message_encode}
use history_chain.Register.{Register, handle, answer}
use history_chain.Udp.{
  Socket, received, recv_or, full_buffer, full_buffer-long, udp_recv_from, socket_udp_send_to,
  check_addresses_available,
}
use history_chain.Udp.Checks.{check_addresses_available-one}

module _ {Key Secret : Type 0} (e : Ed25519 Key Secret) (c : HeaderCodec)
    (m : Bincode Message) where
  -- A round of each task, in the order in which a message goes through them.
  pub four_rounds : SignHandle Key Secret → Register → Socket → Socket → ℕ → Pipeline → Pipeline
  four_rounds sign_handle register listen out now p = send_one out (
      sign_one e c m sign_handle
        (handle_one register 0 now (recv_one e c m sign_handle.public_key_bytes listen p)))

-- The name of the node that has a secret key, and its handle.
module _ {Key Secret : Type 0} (e : Ed25519 Key Secret) where
  abbrev pub name_of : Secret → Bytes
  name_of s = e.to_bytes (e.verifying_key s)

  abbrev pub handle_of : Secret → SignHandle Key Secret
  handle_of s = spawn_new e (identity_new e s)

ok-fst : {n k : ℕ} {a b : Bytes} → ◌≡◌ {A = Result ℕ × Bytes} (ok n, a) (ok k, b) → n ≡ k
ok-fst h = ok-inj (ap (λ r. r.0) h)

module _ {Key Secret : Type 0} {e : Ed25519 Key Secret} (sigs : IsSignature e) {c : HeaderCodec}
    {encs : Encodings} (law : IsHeaderCodec c encs) (m : Bincode Message) where
  -- What `encode` returns is a packet, which the receiver reads.
  encoded-packet :
      (msg : Message) (body : Bytes) (coded : Encodes m msg body) (s : Secret) (buffer out : Bytes)
      (n : ℕ)
      → 1024 ≤ length buffer
      → length body ≤ 924
      → msg.sender ≡ name_of e s
      → message_encode e c m msg (handle_of e s) buffer ≡ (ok n, out)
      → (length (take n out) ≤ 1024)
        × (message_decode_from_slice e c m msg.receiver (take n out) ≡ ok msg)
  encoded-packet msg body coded s buffer out n long small mine h =
      let p = packet sigs law m msg body coded s in
      let (encoded, sized, decoded) =
        decode-message_encode sigs law m msg body coded s buffer [] long small mine in
      let same = sym encoded ∙ h in
      let count : length body + 100 ≡ n = ok-fst same in
      let cut : p ≡ take n out =
        sym (take-append_left n p (drop (length body + 100) buffer) (omega arith))
        ∙ ap (take n) (ap (λ r. r.1) same) in
      (
        omega (arith, ap length cut),
        ap (message_decode_from_slice e c m msg.receiver) (sym cut ∙ sym (append-nil p)) ∙ decoded,
      )

  -- The first two, of an idle task that handles.
  pub handle_one-recv_one :
      (my_name : Bytes) (register : Register) (listen : Socket) (now : ℕ) (p : Pipeline)
      (msg reply : Message) (src : SocketAddr)
      → p.listening ≡ true
      → p.to_handle ≡ []
      → udp_recv_from e c m listen my_name ≡ ok (msg, src)
      → answer register now msg ≡ ok reply
      → handle_one register 0 now (recv_one e c m my_name listen p)
        ≡ record p { to_handle = []; to_sign = p.to_sign ++ ((reply, src) ∷ []) }
  unfolding recv_one received_one handle_one handle_at answered_one
  handle_one-recv_one my_name register listen now p msg reply src on idle got answered =
      rw (on, got, idle, answered) refl

  -- The four rounds, each given by what it computes.
  four_rounds-sent :
      (handle_b : SignHandle Key Secret) (register : Register) (listen out : Socket) (now n k : ℕ)
      (p : Pipeline) (msg reply : Message) (src : SocketAddr) (buffer : Bytes)
      → p.listening ≡ true
      → p.to_handle ≡ []
      → p.to_sign ≡ []
      → p.to_send ≡ []
      → udp_recv_from e c m listen handle_b.public_key_bytes ≡ ok (msg, src)
      → answer register now msg ≡ ok reply
      → message_encode e c m reply handle_b (replicate 1024 0) ≡ (ok n, buffer)
      → socket_udp_send_to out src (take n buffer) ≡ ok k
      → four_rounds e c m handle_b register listen out now p
        ≡ record p { sent = p.sent ++ ((take n buffer, src) ∷ []) }
  unfolding four_rounds recv_one received_one handle_one handle_at answered_one sign_one sign_next
      signed_one send_one send_next sent_one
  four_rounds-sent handle_b register listen out now n k p msg reply src buffer on idle idle' idle''
        got answered encoded sent =
      rw (on, got, idle, answered, idle', encoded, idle'', sent) refl

  -- One node asks whether an address is available, with a test message that has an encoding of at
  -- most 924 bytes. Another node, whose tasks are idle and whose handler answers the empty payload
  -- with the empty payload, receives the bytes of the test message. Then one round of each of its
  -- tasks sends the bytes of its reply, and nothing else, to where the test message came from. If
  -- these bytes come back from the address's host, `check_addresses_available` returns the address.
  pub check_addresses_available-four_rounds :
      (a b : Secret) (now later : ℕ) (addr src src' : SocketAddr) (register : Register)
      (p : Pipeline) (sockets : ℕ → Socket) (listen out : Socket) (body_a body_b : Bytes)
      (coded_a : Encodes m (message_new now (name_of e a) (name_of e b) empty) body_a)
      (coded_b : Encodes m (message_new later (name_of e b) (name_of e a) empty) body_b)
      (n n' k k' : ℕ) (buffer buffer' : Bytes)
      → length body_a ≤ 924
      → length body_b ≤ 924
      → p.listening ≡ true
      → p.to_handle ≡ []
      → p.to_sign ≡ []
      → p.to_send ≡ []
      → handle register empty ≡ ok empty
      → message_encode e c m
          (message_new now (name_of e a) (name_of e b) empty)
          (handle_of e a)
          full_buffer
        ≡ (ok n, buffer)
      → (sockets 0).bind ≡ ok tt
      → (sockets 0).send_to (take n buffer) addr ≡ ok k
      → listen.bind ≡ ok tt
      → listen.recv_from ≡ received (take n buffer) src
      → out.bind ≡ ok tt
      → message_encode e c m
          (message_new later (name_of e b) (name_of e a) empty)
          (handle_of e b)
          (replicate 1024 0)
        ≡ (ok n', buffer')
      → out.send_to (take n' buffer') src ≡ ok k'
      → (sockets 0).recv_from ≡ received (take n' buffer') src'
      → src'.ip ≡ addr.ip
      → (four_rounds e c m (handle_of e b) register listen out later p
          ≡ record p { sent = p.sent ++ ((take n' buffer', src) ∷ []) })
        × (check_addresses_available e c m sockets now (addr ∷ []) (name_of e b) (handle_of e a)
            ≡ ok (addr ∷ []))
  unfolding udp_recv_from recv_or answer socket_udp_send_to message_new spawn_new identity_new
      public_key_to_bytes
  check_addresses_available-four_rounds a b now later addr src src' register p sockets listen out
        body_a body_b coded_a coded_b n n' k k' buffer buffer' small_a small_b on idle idle' idle''
        handled encoded_a bound_a sent_a bound_l got_l bound_o encoded_b sent_b got_a host =
      let test_msg = message_new now (name_of e a) (name_of e b) empty in
      let reply = message_new later (name_of e b) (name_of e a) empty in
      let (_, decoded_a) =
        encoded-packet test_msg body_a coded_a a full_buffer buffer n full_buffer-long small_a refl
          encoded_a in
      let (fits, decoded_b) =
        encoded-packet reply body_b coded_b b (replicate 1024 0) buffer' n'
          (omega (arith, length-replicate {A = ℕ} 1024 0)) small_b refl encoded_b in
      let arrives : udp_recv_from e c m listen (name_of e b) ≡ ok (test_msg, src) =
        rw (bound_l, got_l, recv_or, decoded_a) refl in
      let answered : answer register later test_msg ≡ ok reply = rw handled refl in
      let leaves : socket_udp_send_to out src (take n' buffer') ≡ ok k' =
        rw (le→ltb 1024 (length (take n' buffer')) fits, bound_o, sent_b) refl in
      (
        four_rounds-sent (handle_of e b) register listen out later n' k' p test_msg reply src
            buffer' on idle idle' idle'' arrives answered encoded_b leaves,
        check_addresses_available-one e c m sockets now addr (name_of e b) (handle_of e a) n k
            buffer (take n' buffer') src' reply encoded_a bound_a sent_a got_a host decoded_b refl,
      )
