-- ===== src/Protocol/Halves.antt =====
-- The two halves of `encode`, on a buffer that has room for the message.
use history_chain.Base.{
  drop-all, ℕ, ◌+◌, ◌-◌, ◌≤◌, Bytes, ◌++◌, ◌≡◌, ◌∙◌, refl, sym, ap, Result, ok, HError, arith,
  length, take, drop, slice, slice-append, le→ltb, length-append, take-length_le, take-append_left,
  drop-append_left, append-nil, as_u32-fits,
}
use history_chain.Protocol.{Bincode, Encodes, Header, HeaderCodec, put}
use history_chain.Protocol.HeaderRoundTrip.{
  Encodings, IsHeaderCodec, IsHeader, header_bytes, header_encode_into_slice-bytes,
}
use history_chain.Protocol.Message.{Message, encode_behind, sign_and_head}

module _ (m : Bincode Message) (msg : Message) (body : Bytes) (coded : Encodes m msg body) where
  put-behind :
      (e : HError) (a z : Bytes) (to : ℕ)
      → length a ≡ 100
      → to ≡ length (a ++ z)
      → length body ≤ length z
      → put m e msg 100 to (a ++ z) ≡ (ok (length body), a ++ (body ++ drop (length body) z))
  unfolding put
  put-behind e a z to la all room =
      let here : slice 100 to (a ++ z) ≡ z =
        ap (take (to - 100)) (drop-append_left 100 a z (sym la))
        ∙ take-length_le (to - 100) z (omega (arith, length-append a z)) in
      rw
        (
          here,
          coded.fits z room,
          take-append_left 100 a z (sym la),
          drop-all to (a ++ z) all,
          append-nil (body ++ drop (length body) z),
        )
        refl

  pub encode_behind-body :
      (a z : Bytes)
      → length a ≡ 100
      → 924 ≤ length z
      → length body ≤ 924
      → encode_behind m msg (a ++ z) ≡ (ok (length body), a ++ (body ++ drop (length body) z))
  unfolding encode_behind
  encode_behind-body a z la room small =
      rw
        (
          le→ltb (length (a ++ z)) 1024 (omega (arith, length-append a z)),
          put-behind (HError.protocol "encode error in message") a z (length (a ++ z)) la refl
              (omega arith),
          le→ltb 1024 (length body + 100) (omega arith),
        )
        refl

module _ {c : HeaderCodec} {encs : Encodings} (law : IsHeaderCodec c encs) where
  abbrev pub header_of : Bytes → Bytes → Bytes → Header
  header_of body signature public_key = record {
    msg_length = length body;
    signature = signature;
    public_key = public_key;
  }

  pub sign_and_head-body :
      (signer : Bytes → Result Bytes) (public_key signature : Bytes) (returned : ℕ)
      (a body t : Bytes)
      → signer body ≡ ok signature
      → length a ≡ 100
      → IsHeader (header_of body signature public_key)
      → sign_and_head c signer public_key returned (length body) (a ++ (body ++ t))
        ≡ (ok returned, header_bytes c law (header_of body signature public_key) ++ (body ++ t))
  unfolding sign_and_head
  sign_and_head-body signer public_key signature returned a body t signed la good =
      rw
        (
          slice-append 100 (length body + 100) a body t (sym la) (omega arith),
          signed,
          as_u32-fits (length body) good.msg_length,
          take-append_left 100 a (body ++ t) (sym la),
          drop-append_left 100 a (body ++ t) (sym la),
          header_encode_into_slice-bytes c law (header_of body signature public_key) a good
              (omega arith),
          drop-all 100 a (sym la),
          append-nil (header_bytes c law (header_of body signature public_key)),
        )
        refl
