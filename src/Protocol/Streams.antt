-- ===== src/Protocol/Streams.antt =====
-- A message written to a stream, and read from one.
use history_chain.Base.{
  take-append_more, take-append_short, ℕ, ◌+◌, ◌-◌, ◌≤◌, ◌<◌, Bytes, [], ◌++◌, ◌≡◌, ◌∙◌, refl, sym,
  ap, ok, err, HError, arith, length, take, drop, length-append, length-take, take-append_left,
  drop-append_left, append_assoc, append-nil, ltb, Bool-cases, inl, inr,
}
use history_chain.Identity.{Ed25519, IsSignature, identity_new, verify_signature_bytes-signed}
use history_chain.Protocol.{
  Bincode, Encodes, Header, HeaderCodec, Reader, header_from_stream, header_decode_from_slice,
  verify_header,
}
use history_chain.Protocol.HeaderRoundTrip.{
  Encodings, IsHeaderCodec, IsHeader, header_bytes, length-header_bytes,
  header_decode_from_slice-bytes,
}
use history_chain.Protocol.Message.{Message, message_into_stream, message_from_stream}
use history_chain.Protocol.Accepts.{IsSigned-message_decode_with_header}
use history_chain.Protocol.RoundTrip.{
  packet, the_header, the_header-IsHeader, length-packet, message_encode_into_slice-packet,
}

-- What is relied on of `read_exact`: it takes as many bytes as it is asked for off the front of what
-- the stream holds, and fails at the end of the stream.
pub record IsReader {S : Type 0} (reader : Reader S) (contents : S → Bytes) : Type 0 where
  pub ends : (n : ℕ) (s : S) → length (contents s) < n → reader n s ≡ err HError.io
  pub reads :
      (n : ℕ) (s : S)
      → n ≤ length (contents s)
      → (s' : S) × (reader n s ≡ ok (take n (contents s), s')) × (contents s' ≡ drop n (contents s))

module _ {S : Type 0} {reader : Reader S} {contents : S → Bytes} (law : IsReader reader contents)
    {c : HeaderCodec} {encs : Encodings} (codec : IsHeaderCodec c encs) where
  -- Behind a header, the stream holds the rest.
  header_from_stream-bytes :
      (h : Header) (rest : Bytes) (s : S)
      → IsHeader h
      → contents s ≡ header_bytes c codec h ++ rest
      → (s' : S) × (header_from_stream c reader s ≡ ok (h, s')) × (contents s' ≡ rest)
  unfolding header_from_stream
  header_from_stream-bytes h rest s good held =
      let sized = length-header_bytes c codec h good in
      let long : length (contents s) ≡ 100 + length rest =
        ap length held ∙ omega (arith, length-append (header_bytes c codec h) rest) in
      let (s', did, left) = law.reads 100 s (omega arith) in
      let front : take 100 (contents s) ≡ header_bytes c codec h =
        ap (take 100) held ∙ take-append_left 100 (header_bytes c codec h) rest (sym sized) in
      let decoded =
        ap (header_decode_from_slice c) (sym (append-nil (header_bytes c codec h)))
        ∙ header_decode_from_slice-bytes c codec h [] good in
      (
        s',
        rw (did, front, decoded) refl,
        left
            ∙ (ap (drop 100) held ∙ drop-append_left 100 (header_bytes c codec h) rest (sym sized)),
      )

  module _ {Key Secret : Type 0} {e : Ed25519 Key Secret} (sigs : IsSignature e)
      (m : Bincode Message) (msg : Message) (body : Bytes) (coded : Encodes m msg body) (s : Secret)
      (small : length body ≤ 924) where
    abbrev head : Bytes
    head = header_bytes c codec (the_header sigs codec m msg body coded s)

    message_from_stream-packet :
        (rest : Bytes) (stream : S)
        → contents stream ≡ head ++ (body ++ rest)
        → msg.sender ≡ e.to_bytes (e.verifying_key s)
        → message_from_stream e c m reader msg.receiver stream ≡ ok msg
    unfolding message_from_stream verify_header
    message_from_stream-packet rest stream held mine =
        let (s', did, left) =
          header_from_stream-bytes (the_header sigs codec m msg body coded s) (body ++ rest) stream
            (the_header-IsHeader sigs codec m msg body coded s small) held in
        let long : length (contents s') ≡ length body + length rest =
          ap length left ∙ length-append body rest in
        let (s'', did', left') = law.reads (length body) s' (omega arith) in
        let front : take (length body) (contents s') ≡ body =
          ap (take (length body)) left ∙ take-append_left (length body) body rest refl in
        rw (did, did', front)
          (IsSigned-message_decode_with_header e c m msg.receiver body
            (the_header sigs codec m msg body coded s) msg
            (record {
              verified = verify_signature_bytes-signed e sigs s body;
              decoded = coded.reads;
              by_sender = mine;
              to_me = refl;
            }))

    -- Of the packet only as many bytes as the encoding has: the reader misses the last hundred.
    message_from_stream-cut :
        (my_name : Bytes) (stream : S)
        → contents stream ≡ take (length body) (head ++ body)
        → message_from_stream e c m reader my_name stream ≡ err HError.io
    unfolding message_from_stream header_from_stream
    message_from_stream-cut my_name stream held =
        let sized =
          length-header_bytes c codec (the_header sigs codec m msg body coded s)
            (the_header-IsHeader sigs codec m msg body coded s small) in
        let long : length (contents stream) ≡ length body =
          ap length held
          ∙ omega (arith, length-take (length body) (head ++ body), length-append head body) in
        elim (Bool-cases (ltb (length body) 100)) [
          | inl few ↦
              let fewer : length body < 100 = ground arith in
              rw (law.ends 100 stream (omega arith), header_from_stream) refl
          | inr many ↦
              let more : 100 ≤ length body = ground arith in
              let apart : take (length body) (head ++ body)
                  ≡ head ++ take (length body - 100) body =
                take-append_more (length body) (length body - 100) head body (omega arith) in
              let (s', did, left) =
                header_from_stream-bytes (the_header sigs codec m msg body coded s)
                  (take (length body - 100) body) stream
                  (the_header-IsHeader sigs codec m msg body coded s small) (held ∙ apart) in
              let missing : length (contents s') < length body =
                omega (arith, ap length left ∙ length-take (length body - 100) body) in
              rw (did, law.ends (length body) s' missing) refl
        ]

    -- With a message as in the round trip, and a buffer of 1024 bytes at least, `into_stream`
    -- succeeds and writes as many bytes of the packet as the encoding has without its header, so
    -- that on a stream that ends behind them `from_stream` fails with the error of the stream, for
    -- every receiver; on a stream that starts with the whole packet, `from_stream` of the message's
    -- receiver returns the message.
    pub message_from_stream-message_into_stream :
        (buffer rest my_name : Bytes) (cut whole : S)
        → 1024 ≤ length buffer
        → msg.sender ≡ e.to_bytes (e.verifying_key s)
        → contents cut ≡ take (length body) (packet sigs codec m msg body coded s)
        → contents whole ≡ packet sigs codec m msg body coded s ++ rest
        → (message_into_stream e c m msg (identity_new e s) buffer
            ≡ ok (take (length body) (packet sigs codec m msg body coded s)))
          × (message_from_stream e c m reader my_name cut ≡ err HError.io)
          × (message_from_stream e c m reader msg.receiver whole ≡ ok msg)
    unfolding message_into_stream
    message_from_stream-message_into_stream buffer rest my_name cut whole enough mine held held' = (
      rw
          (
            message_encode_into_slice-packet sigs codec m msg body coded s buffer enough small,
            take-append_short (length body) (head ++ body) (drop (length body + 100) buffer)
                (omega (arith, length-packet sigs codec m msg body coded s small)),
          )
          refl,
      message_from_stream-cut my_name cut held,
      message_from_stream-packet rest whole (held' ∙ append_assoc head body rest) mine,
    )
