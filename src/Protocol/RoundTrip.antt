-- ===== src/Protocol/RoundTrip.antt =====
-- What `encode` writes is what `decode_from_slice` reads.
use history_chain.Base.{
  drop-append_more, ℕ, ◌+◌, ◌≤◌, Bytes, [], ◌++◌, ◌≡◌, ◌∙◌, refl, sym, ap, Result, ok, arith,
  length, take, drop, slice, slice-append, split_at, length-append, take-append_left, append_assoc,
  append-nil,
}
use history_chain.Identity
use history_chain.Identity.{
  Ed25519, IsSignature, SignHandle, identity_new, spawn_new, sign-new, sign_msg,
  verify_signature_bytes-signed, public_key_to_bytes,
}
use history_chain.Protocol.{Bincode, Encodes, Header, HeaderCodec, and_next, verify_header}
use history_chain.Protocol.HeaderRoundTrip.{
  Encodings, IsHeaderCodec, IsHeader, header_bytes, length-header_bytes,
  header_decode_from_slice-bytes,
}
use history_chain.Protocol.Message.{
  Message, encode_behind, sign_and_head, message_encode, message_encode_into_slice,
  message_decode_from_slice, unwrap_ok,
}
use history_chain.Protocol.Accepts.{decode_iff}
use history_chain.Protocol.Halves.{header_of, sign_and_head-body, encode_behind-body}

module _ {Key Secret : Type 0} {e : Ed25519 Key Secret} (sigs : IsSignature e) {c : HeaderCodec}
    {encs : Encodings} (law : IsHeaderCodec c encs) (m : Bincode Message) (msg : Message)
    (body : Bytes) (coded : Encodes m msg body) (s : Secret) where
  abbrev pub the_header : Header
  the_header = header_of law body (e.sign_bytes s body) (e.to_bytes (e.verifying_key s))

  -- The bytes of the signed message.
  abbrev pub packet : Bytes
  packet = header_bytes c law the_header ++ body

  pub the_header-IsHeader : length body ≤ 924 → IsHeader the_header
  the_header-IsHeader small = record {
    msg_length = omega arith;
    signature = sigs.length-sign_bytes s body;
    public_key = sigs.length-to_bytes (e.verifying_key s);
  }

  pub length-packet : length body ≤ 924 → length packet ≡ length body + 100
  length-packet small = omega (
    arith,
    length-append (header_bytes c law the_header) body,
    length-header_bytes c law the_header (the_header-IsHeader small),
  )

  -- The receiver reads the message from the packet, whatever follows it.
  pub message_decode_from_slice-packet :
      (rest : Bytes)
      → length body ≤ 924
      → msg.sender ≡ e.to_bytes (e.verifying_key s)
      → message_decode_from_slice e c m msg.receiver (packet ++ rest) ≡ ok msg
  unfolding verify_header
  message_decode_from_slice-packet rest small mine =
      let head = header_bytes c law the_header in
      let good = the_header-IsHeader small in
      let sized = length-header_bytes c law the_header good in
      let split = append_assoc head body rest in
      let long = length-append packet rest in
      let long' = length-packet small in
      let front : take 100 (packet ++ rest) ≡ head =
        ap (take 100) split ∙ take-append_left 100 head (body ++ rest) (sym sized) in
      let behind : slice 100 (100 + length body) (packet ++ rest) ≡ body =
        ap (slice 100 (100 + length body)) split
        ∙ slice-append 100 (100 + length body) head body rest (sym sized) (omega arith) in
      let decoded = header_decode_from_slice-bytes c law the_header [] good in
      (decode_iff e c m msg.receiver (packet ++ rest) msg).1 (
        the_header,
        omega arith,
        rw (front, sym (append-nil head)) decoded,
        omega arith,
        rw behind (record {
          verified = verify_signature_bytes-signed e sigs s body;
          decoded = coded.reads;
          by_sender = mine;
          to_me = refl;
        }),
      )

  -- A signer with the secret key makes the packet.
  halves :
      (signer : Bytes → Result Bytes) (returned : ℕ → ℕ) (buffer : Bytes)
      → signer body ≡ ok (e.sign_bytes s body)
      → 1024 ≤ length buffer
      → length body ≤ 924
      → and_next
          (encode_behind m msg buffer)
          (λ size b. sign_and_head c signer (e.to_bytes (e.verifying_key s)) (returned size) size b)
        ≡ (ok (returned (length body)), packet ++ drop (length body + 100) buffer)
  halves signer returned buffer signed enough small =
      let next : ℕ → Bytes → Result ℕ × Bytes = (λ size b.
        sign_and_head c signer (e.to_bytes (e.verifying_key s)) (returned size) size b) in
      let (a, z, cut, la, all) = split_at 100 buffer (omega arith) in
      let behind : drop (length body + 100) buffer ≡ drop (length body) z =
        ap (drop (length body + 100)) cut
        ∙ drop-append_more (length body + 100) (length body) a z (omega arith) in
      ap (λ b. and_next (encode_behind m msg b) next) cut
      ∙ (ap (λ r. and_next r next) (encode_behind-body m msg body coded a z la (omega arith) small)
          ∙ (sign_and_head-body law signer (e.to_bytes (e.verifying_key s)) (e.sign_bytes s body)
                (returned (length body)) a body (drop (length body) z) signed la
                (the_header-IsHeader small)
              ∙ ap (λ l. (ok (returned (length body)), l))
                  (sym (append_assoc (header_bytes c law the_header) body (drop (length body) z))
                    ∙ ap (λ l. packet ++ l) (sym behind))))

  -- With the signer of a new identity, a buffer of 1024 bytes at least, a codec that encodes and
  -- decodes the message, and an encoding of at most 924 bytes, `Message::encode` writes a packet to
  -- the front of the buffer and returns its size, the encoding's and 100; `decode_from_slice` of
  -- the message's receiver reads the message from the packet, whatever follows it, if the message
  -- names the identity's key as its sender.
  pub decode-message_encode :
      (buffer rest : Bytes)
      → 1024 ≤ length buffer
      → length body ≤ 924
      → msg.sender ≡ e.to_bytes (e.verifying_key s)
      → (message_encode e c m msg (spawn_new e (identity_new e s)) buffer
          ≡ (ok (length body + 100), packet ++ drop (length body + 100) buffer))
        × (length packet ≡ length body + 100)
        × (message_decode_from_slice e c m msg.receiver (packet ++ rest) ≡ ok msg)
  unfolding message_encode spawn_new identity_new public_key_to_bytes
  decode-message_encode buffer rest enough small mine = (
    halves (Identity.sign e (spawn_new e (identity_new e s))) (λ size. size + 100) buffer
        (sign-new e sigs s body) enough small,
    length-packet small,
    message_decode_from_slice-packet rest small mine,
  )

  -- `encode_into_slice` writes the same and returns the size without the header.
  pub message_encode_into_slice-packet :
      (buffer : Bytes)
      → 1024 ≤ length buffer
      → length body ≤ 924
      → message_encode_into_slice e c m msg (identity_new e s) buffer
        ≡ (ok (length body), packet ++ drop (length body + 100) buffer)
  unfolding message_encode_into_slice identity_new public_key_to_bytes sign_msg
  message_encode_into_slice-packet buffer enough small =
      halves (λ bytes. unwrap_ok (sign_msg e (identity_new e s) bytes)) (λ size. size) buffer refl
        enough small
