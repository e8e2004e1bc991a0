-- ===== src/Tests/OfExchange.antt =====
-- The node with the key 9 checks the address of the node with the key 7, which answers.
use history_chain.Base.{ℕ, Bytes, [], ◌∷◌, ◌++◌, ◌≡◌, refl, ok, arith, drop, take, replicate}
use history_chain.Node.Pipeline.{pipeline_new}
use history_chain.Node.Pipeline.Exchange.{
  four_rounds, handle_of, check_addresses_available-four_rounds,
}
use history_chain.Protocol.{Encodes}
use history_chain.Protocol.Message.{Message, empty, message_new, message_encode}
use history_chain.Protocol.RoundTrip.{packet, decode-message_encode}
use history_chain.Register.{Register, register_new, reg, of_empty, handle, handle-reg, from_payload}
use history_chain.Udp.{Socket, received, full_buffer, full_buffer-long, check_addresses_available}
use history_chain.Tests.OfNode.{name, test_msg, test_msg-Encodes}
use history_chain.Tests.OfProtocol.{addr}
use history_chain.Tests.Wire.{
  keys, keys-IsSignature, header_codec, header_codec-IsHeaderCodec, body_of, message_codec,
  hello-Encodes,
}

abbrev pub answering : Register
answering = reg register_new of_empty (λ payload. ok empty)

handles-empty : handle answering empty ≡ ok empty
unfolding from_payload
handles-empty = (handle-reg register_new of_empty (λ payload. ok empty) empty).0 refl

abbrev other_name : Bytes
other_name = 7 ∷ replicate 31 0

abbrev reply : Message
reply = message_new 5 other_name name empty

reply-Encodes : Encodes message_codec reply (body_of reply)
unfolding message_new
reply-Encodes = hello-Encodes

abbrev packet_of : (msg : Message) → Encodes message_codec msg (body_of msg) → ℕ → Bytes
packet_of msg coded s =
    packet keys-IsSignature header_codec-IsHeaderCodec message_codec msg (body_of msg) coded s

abbrev asked : Bytes
asked = packet_of test_msg test_msg-Encodes 9 ++ drop 165 full_buffer

abbrev answered : Bytes
answered = packet_of reply reply-Encodes 7 ++ drop 165 (replicate 1024 0)

abbrev asker : Socket
asker = record {
  bind = ok tt;
  send_to = λ bytes to. ok 165;
  recv_from = received (take 165 answered) addr;
}

abbrev listener : Socket
listener = record {
  bind = ok tt;
  send_to = λ bytes to. ok 0;
  recv_from = received (take 165 asked) addr;
}

test_msg-encoded :
    message_encode keys header_codec message_codec test_msg (handle_of keys 9) full_buffer
    ≡ (ok 165, asked)
unfolding message_new
test_msg-encoded =
    (decode-message_encode keys-IsSignature header_codec-IsHeaderCodec message_codec test_msg
      (body_of test_msg) test_msg-Encodes 9 full_buffer [] full_buffer-long (omega arith) refl).0

reply-encoded :
    message_encode keys header_codec message_codec reply (handle_of keys 7) (replicate 1024 0)
    ≡ (ok 165, answered)
unfolding message_new
reply-encoded =
    (decode-message_encode keys-IsSignature header_codec-IsHeaderCodec message_codec reply
      (body_of reply) reply-Encodes 7 (replicate 1024 0) [] (omega arith) (omega arith) refl).0

check_addresses_available-four_rounds_example :
    (four_rounds keys header_codec message_codec
        (handle_of keys 7)
        answering
        listener
        asker
        5
        pipeline_new
      ≡ record pipeline_new { sent = [] ++ ((take 165 answered, addr) ∷ []) })
    × (check_addresses_available keys header_codec message_codec
          (λ i. asker)
          5
          (addr ∷ [])
          other_name
          (handle_of keys 9)
        ≡ ok (addr ∷ []))
unfolding message_new
check_addresses_available-four_rounds_example =
    check_addresses_available-four_rounds keys-IsSignature header_codec-IsHeaderCodec message_codec
      9 7 5 5 addr addr addr answering pipeline_new (λ i. asker) listener asker (body_of test_msg)
      (body_of reply) test_msg-Encodes reply-Encodes 165 165 165 165 asked answered (omega arith)
      (omega arith) refl refl refl refl handles-empty test_msg-encoded refl refl refl refl refl
      reply-encoded refl refl refl
