-- ===== src/Protocol/Message.antt =====
-- The `Message` of src/network/protocol.rs: a header, signed by the sender, and the encoded message.
-- The codec of messages is a parameter, as are those of the header and the signatures.
use history_chain.Base.{
  ℕ, ◌+◌, Bytes, ◌++◌, not, Result, ok, err, panicked, HError, ◌>>=◌, ◌>>◌, err_if, length, take,
  drop, slice, ltb, if◌then◌else◌, bytes_eq, as_u32,
}
use history_chain.Block.{zero_hash}
use history_chain.Block.Vote.{VoteBlock}
use history_chain.Chain.{BlockChain}
use history_chain.Identity
use history_chain.Identity.{Ed25519, Identity, SignHandle}
use history_chain.Node.Info.{NodeInfo}
use history_chain.Protocol.{
  Bincode, Header, HeaderCodec, Reader, header_size, value_or, and_next, put,
  header_encode_into_slice, header_decode_from_slice, header_from_stream, verify_header,
}

pub record RequestInfo : Type 0 where
  pub src_addr : Bytes
  pub timestamp : ℕ

pub record BlockRec : Type 0 where
  pub old_block : Bytes
  pub new_block : Bytes

pub data Payload : Type 0 where
  chain_request : RequestInfo → Payload
  vote_block : BlockChain VoteBlock → Payload
  block_recitify : BlockRec → Payload
  search_friend : Bytes → Payload
  empty introduce : Payload
  introduce_resp : NodeInfo → Payload

pub record Message : Type 0 where
  pub sender : Bytes
  pub timestamp : ℕ
  pub payload : Payload
  pub receiver : Bytes

-- `Message::new`, at the clock's time.
unfoldable pub message_new : ℕ → Bytes → Bytes → Payload → Message
message_new now sender receiver payload = record {
  sender = sender;
  timestamp = now;
  payload = payload;
  receiver = receiver;
}

abbrev new_with_zero : Message
new_with_zero = record { sender = zero_hash; timestamp = 0; payload = empty; receiver = zero_hash }

abbrev pub max_udp_msg_size : ℕ
max_udp_msg_size = 1024

-- `Result::unwrap`
abbrev pub unwrap_ok : Result Bytes → Result Bytes
unwrap_ok (ok x) = ok x
unwrap_ok (err f) = panicked
unwrap_ok panicked = panicked

-- The `match` on the verification.
abbrev pub after_verify : Result (Unit {0}) → Result Message → Result Message
after_verify (ok u) msg = msg
after_verify (err f) msg = err (HError.protocol "verify error in message: {}")
after_verify panicked msg = panicked

module _ (m : Bincode Message) where
  -- The first half of `encode` and `encode_into_slice`: the encoded message behind the place of the
  -- header, and its size.
  unfoldable pub encode_behind : Message → Bytes → Result ℕ × Bytes
  unfolding put
  encode_behind msg buffer =
      if ltb (length buffer) max_udp_msg_size
      then (err (HError.protocol "buffer size is too small"), buffer)
      else and_next
          (put m (HError.protocol "encode error in message") msg 100 (length buffer) buffer)
          (λ size b. (
            err_if (ltb max_udp_msg_size (size + 100))
                  (HError.protocol "message too large, It's bigger than MAX_MSG_SIZE")
                >> ok size,
            b,
          ))

module _ (c : HeaderCodec) where
  -- The second half: the signature of what stands behind the header's place, and the header.
  unfoldable pub sign_and_head : (Bytes → Result Bytes) → Bytes → ℕ → ℕ → Bytes → Result ℕ × Bytes
  unfolding header_encode_into_slice
  sign_and_head signer public_key returned size buffer =
      and_next (signer (slice 100 (size + 100) buffer), buffer)
        (λ signature b.
          let header : Header = record {
            msg_length = as_u32 size;
            signature = signature;
            public_key = public_key;
          } in
          let (result, front) = header_encode_into_slice c header (take 100 b) in
          and_next (result, front ++ drop 100 b) (λ n b'. (ok returned, b')))

module _ {Key Secret : Type 0} (e : Ed25519 Key Secret) (c : HeaderCodec)
    (m : Bincode Message) where
  unfoldable pub message_decode_with_header : Bytes → Bytes → Header → Result Message
  message_decode_with_header my_name bytes header =
      after_verify (verify_header c e header bytes) (do
        msg ← value_or (HError.protocol "decode error in message") (m.decode_from_slice bytes)
        err_if (not (bytes_eq msg.sender header.public_key)) (
            HError.protocol
              "sender's name in message is not equal to the sender's name in header, this message is not valid")
        err_if (not (bytes_eq msg.receiver my_name)) (
            HError.protocol
              "receiver's name in message is not equal to the name of the node, it means the message is not for this node")
        ok msg)

  -- A header's `u32` and 100 do not overflow a `usize` of 64 bits.
  unfoldable pub message_decode_from_slice : Bytes → Bytes → Result Message
  unfolding message_decode_with_header header_decode_from_slice
  message_decode_from_slice my_name bytes = do
    err_if (ltb (length bytes) header_size)
        (HError.protocol "header size is too small, it can't be valid")
    header ← header_decode_from_slice c (take header_size bytes)
    err_if (ltb (length bytes) (header.msg_length + header_size))
        (HError.protocol "message size is too small, it can't be valid")
    message_decode_with_header my_name (slice header_size (header_size + header.msg_length) bytes)
        header

  unfoldable pub message_encode_into_slice :
      Message → Identity Key Secret → Bytes → Result ℕ × Bytes
  unfolding encode_behind sign_and_head
  message_encode_into_slice msg identity buffer = and_next (encode_behind m msg buffer) (λ size b.
      sign_and_head c (λ bytes. unwrap_ok (Identity.sign_msg e identity bytes))
        (Identity.public_key_to_bytes e identity) size size b)

  unfoldable pub message_encode : Message → SignHandle Key Secret → Bytes → Result ℕ × Bytes
  unfolding encode_behind sign_and_head
  message_encode msg sign_handle buffer = and_next (encode_behind m msg buffer) (λ size b.
      sign_and_head c (Identity.sign e sign_handle) (sign_handle.public_key_bytes) (size + 100) size
        b)

  -- What is written to the stream, of a buffer of whatever content.
  unfoldable pub message_into_stream : Message → Identity Key Secret → Bytes → Result Bytes
  unfolding message_encode_into_slice
  message_into_stream msg identity uninit_buf =
      let (result, b) = message_encode_into_slice msg identity uninit_buf in
      do size ← result; ok (take size b)

  unfoldable pub message_from_stream : {S : Type 0} → Reader S → Bytes → S → Result Message
  unfolding message_decode_with_header header_from_stream
  message_from_stream reader my_name stream = do
    (header, stream') ← header_from_stream c reader stream
    (bytes, stream'') ← reader header.msg_length stream'
    message_decode_with_header my_name bytes header
