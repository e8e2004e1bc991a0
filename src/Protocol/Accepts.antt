-- ===== src/Protocol/Accepts.antt =====
-- Which bytes a node takes for a message.
use history_chain.Base.{
  ℕ, ◌+◌, ◌≤◌, Bytes, Bool, true, false, not, ◌≡◌, refl, sym, ◌∙◌, ap, Option, none, some, Result,
  ok, err, panicked, HError, err_if, >>=-eq-ok, arith, length, take, slice, ltb, le→ltb, Bool-cases,
  inl, inr, bytes_eq, bytes_eq→eq, bytes_eq_refl, ◌↔◌,
}
use history_chain.Identity.{Ed25519}
use history_chain.Protocol.{
  Bincode, Header, HeaderCodec, value_or, verify_header, header_decode_from_slice,
}
use history_chain.Protocol.Message.{
  Message, message_decode_from_slice, message_decode_with_header, after_verify,
}

pub err_if-eq-ok : (b : Bool) (e : HError) (u : Unit {0}) → err_if b e ≡ ok u → b ≡ false
err_if-eq-ok true e u h = cc
err_if-eq-ok false e u h = refl

value_or-eq-ok : {T : Type 0} (e : HError) (o : Option T) (v : T) → value_or e o ≡ ok v → o ≡ some v
value_or-eq-ok e none v h = cc
value_or-eq-ok e (some w) v h = cc

not_ltb : (a b : ℕ) → ltb a b ≡ false → b ≤ a
not_ltb a b h = ground arith

pub same-bytes : (xs ys : Bytes) → not (bytes_eq xs ys) ≡ false → xs ≡ ys
same-bytes xs ys h = elim (Bool-cases (bytes_eq xs ys)) [ inl e ↦ bytes_eq→eq xs ys e | inr e ↦ cc ]

after_verify-eq-ok :
    (r : Result (Unit {0})) (next : Result Message) (msg : Message)
    → after_verify r next ≡ ok msg
    → (r ≡ ok tt) × (next ≡ ok msg)
after_verify-eq-ok (ok u) next msg h = (refl, h)
after_verify-eq-ok (err f) next msg h = cc
after_verify-eq-ok panicked next msg h = cc

module _ {Key Secret : Type 0} (e : Ed25519 Key Secret) (c : HeaderCodec)
    (m : Bincode Message) where
  -- The bytes under a header are signed under its key, by the sender of the message that they
  -- encode, whose receiver is the node.
  pub record IsSigned (my_name bytes : Bytes) (h : Header) (msg : Message) : Type 0 where
    pub verified : verify_header c e h bytes ≡ ok tt
    pub decoded : m.decode_from_slice bytes ≡ some msg
    pub by_sender : msg.sender ≡ h.public_key
    pub to_me : msg.receiver ≡ my_name

  message_decode_with_header-IsSigned :
      (my_name bytes : Bytes) (h : Header) (msg : Message)
      → (message_decode_with_header e c m my_name bytes h ≡ ok msg)
      → IsSigned my_name bytes h msg
  unfolding message_decode_with_header
  message_decode_with_header-IsSigned my_name bytes h msg done =
      let (verified, checked) = after_verify-eq-ok _ _ msg done in
      let (msg', decoded, checked') = >>=-eq-ok _ _ checked in
      let (u, sent, checked'') = >>=-eq-ok _ _ checked' in
      let (u', received, same) = >>=-eq-ok _ _ checked'' in
      let it : msg' ≡ msg = cc in
      record {
        verified = verified;
        decoded = value_or-eq-ok _ _ msg' decoded ∙ ap some it;
        by_sender = sym (ap (λ x. x.sender) it) ∙ same-bytes _ _ (err_if-eq-ok _ _ u sent);
        to_me = sym (ap (λ x. x.receiver) it) ∙ same-bytes _ _ (err_if-eq-ok _ _ u' received);
      }

  pub IsSigned-message_decode_with_header :
      (my_name bytes : Bytes) (h : Header) (msg : Message)
      → IsSigned my_name bytes h msg
      → message_decode_with_header e c m my_name bytes h ≡ ok msg
  unfolding message_decode_with_header
  IsSigned-message_decode_with_header my_name bytes h msg good =
      rw (good.verified, good.decoded, message_decode_with_header)
        (rw (good.by_sender, good.to_me, bytes_eq_refl h.public_key, bytes_eq_refl my_name) refl)

  -- The bytes hold a header, and behind it as many bytes as it says, which are signed under its key
  -- by the sender, and encode a message to the node.
  abbrev pub IsFor : Bytes → Bytes → Message → Type 0
  IsFor my_name bytes msg =
      (h : Header) × (100 ≤ length bytes)
      × (header_decode_from_slice c (take 100 bytes) ≡ ok h)
      × (h.msg_length + 100 ≤ length bytes)
      × IsSigned my_name (slice 100 (100 + h.msg_length) bytes) h msg

  -- `Message::decode_from_slice` returns a message exactly when the bytes hold a header and behind it
  -- at least as many bytes as the header says, the header's signature of those verifies under its
  -- key, and they decode to that message, whose sender is the key and whose receiver is the name
  -- given.
  pub decode_iff :
      (my_name bytes : Bytes) (msg : Message)
      → (message_decode_from_slice e c m my_name bytes ≡ ok msg) ↔ IsFor my_name bytes msg
  unfolding message_decode_from_slice
  decode_iff my_name bytes msg = (
    (λ done.
        let (u, long, next) = >>=-eq-ok _ _ done in
        let (h, header, next') = >>=-eq-ok _ _ next in
        let (u', long', next'') = >>=-eq-ok _ _ next' in
        (
          h,
          not_ltb _ _ (err_if-eq-ok _ _ u long),
          header,
          not_ltb _ _ (err_if-eq-ok _ _ u' long'),
          message_decode_with_header-IsSigned my_name _ h msg next'',
        )),
    (λ (h, long, header, long', good).
        rw
          (
            le→ltb (length bytes) 100 long,
            header,
            le→ltb (length bytes) (h.msg_length + 100) long',
            message_decode_from_slice,
          )
          (IsSigned-message_decode_with_header my_name _ h msg good)),
  )
