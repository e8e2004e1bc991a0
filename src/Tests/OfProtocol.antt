-- ===== src/Tests/OfProtocol.antt =====
-- A greeting between two nodes, encoded, read back and sent.
use history_chain.Base.{
  ℕ, ◌+◌, ◌≤◌, ◌<◌, Bytes, [], ◌∷◌, ◌++◌, ◌≡◌, ◌≢◌, ◌⊎◌, ◌↔◌, refl, ok, err, panicked, HError,
  ◌>>=◌, ◌>>◌, arith, length, take, drop, replicate,
}
use history_chain.Identity.{
  sign, verify, spawn_new, identity_new, clone_identity, cancelled, verify-sign, SignHandle,
}
use history_chain.Protocol.Message.{
  message_encode, message_decode_from_slice, message_into_stream, message_from_stream,
}
use history_chain.Protocol.Accepts.{IsFor, decode_iff}
use history_chain.Protocol.RoundTrip.{packet, decode-message_encode}
use history_chain.Protocol.Streams.{message_from_stream-message_into_stream}
use history_chain.Udp.{Socket, udp_send_to, timed_out}
use history_chain.Udp.Sends.{udp_send_to_lem}
use history_chain.Node.Info.{SocketAddr}
use history_chain.Tests.Wire.{
  keys, keys-IsSignature, header_codec, header_codec-IsHeaderCodec, body_of, message_codec, hello,
  hello-Encodes, read_bytes, read_bytes-IsReader,
}

abbrev no_signer : SignHandle ℕ ℕ
no_signer = record { public_key_bytes = []; sender = cancelled }

verify-sign_example :
    ((sig : Bytes) × (sign keys (spawn_new keys (identity_new keys 7)) (1 ∷ []) ≡ ok sig)
      × (verify keys (spawn_new keys (identity_new keys 7)) (1 ∷ []) sig ≡ ok tt))
    × ((sig : Bytes)
        → sign keys (spawn_new keys (clone_identity keys (identity_new keys 7))) (1 ∷ []) ≢ ok sig)
    × ((sig : Bytes) → sign keys no_signer (1 ∷ []) ≢ ok sig)
verify-sign_example =
    verify-sign keys keys-IsSignature 7 (identity_new keys 7) no_signer (1 ∷ []) refl

decode_iff_example :
    (message_decode_from_slice keys header_codec message_codec (9 ∷ []) (1 ∷ 2 ∷ []) ≡ ok hello)
    ↔ IsFor keys header_codec message_codec (9 ∷ []) (1 ∷ 2 ∷ []) hello
decode_iff_example = decode_iff keys header_codec message_codec (9 ∷ []) (1 ∷ 2 ∷ []) hello

-- The packet that carries the greeting.
abbrev pub greeting : Bytes
greeting =
    packet keys-IsSignature header_codec-IsHeaderCodec message_codec hello (body_of hello)
      hello-Encodes 7

decode-message_encode_example :
    (message_encode keys header_codec message_codec hello
        (spawn_new keys (identity_new keys 7))
        (replicate 1024 0)
      ≡ (ok 165, greeting ++ drop 165 (replicate 1024 0)))
    × (length greeting ≡ 165)
    × (message_decode_from_slice keys header_codec message_codec hello.receiver
          (greeting ++ (0 ∷ []))
        ≡ ok hello)
decode-message_encode_example =
    decode-message_encode keys-IsSignature header_codec-IsHeaderCodec message_codec hello
      (body_of hello) hello-Encodes 7 (replicate 1024 0) (0 ∷ []) (omega arith) (omega arith) refl

message_from_stream-message_into_stream_example :
    (message_into_stream keys header_codec message_codec hello
        (identity_new keys 7)
        (replicate 1024 0)
      ≡ ok (take 65 greeting))
    × (message_from_stream keys header_codec message_codec read_bytes hello.receiver
          (take 65 greeting)
        ≡ err HError.io)
    × (message_from_stream keys header_codec message_codec read_bytes hello.receiver
          (greeting ++ [])
        ≡ ok hello)
message_from_stream-message_into_stream_example =
    message_from_stream-message_into_stream read_bytes-IsReader header_codec-IsHeaderCodec
      keys-IsSignature message_codec hello (body_of hello) hello-Encodes 7 (omega arith)
      (replicate 1024 0) [] hello.receiver (take 65 greeting) (greeting ++ []) (omega arith) refl
      refl refl

abbrev pub addr : SocketAddr
addr = record { ip = 127 ∷ 0 ∷ 0 ∷ 1 ∷ []; port = 8081 }

abbrev socket : Socket
socket = record { bind = ok tt; send_to = λ bytes to. ok (length bytes); recv_from = timed_out }

udp_send_to_lem_example :
    (length greeting ≡ 65 + 100)
    × (message_decode_from_slice keys header_codec message_codec hello.receiver
          (greeting ++ replicate 100 0)
        ≡ ok hello)
    × (((65 ≤ 824)
          × (udp_send_to keys header_codec message_codec socket addr hello
                (spawn_new keys (identity_new keys 7))
              ≡ socket.bind
                >> (socket.send_to (greeting ++ replicate 100 0) addr >>= λ n.
                    ok (65 + 100 + 100))))
        ⊎ ((824 < 65)
            × (udp_send_to keys header_codec message_codec socket addr hello
                  (spawn_new keys (identity_new keys 7))
                ≡ socket.bind >> panicked)))
udp_send_to_lem_example =
    udp_send_to_lem keys-IsSignature header_codec-IsHeaderCodec message_codec hello (body_of hello)
      hello-Encodes 7 socket addr (omega arith) refl
