-- ===== src/Tests/OfDelivery.antt =====
-- The node with the key 9 has a message of the node with the key 7 handled, and queues the answer.
use history_chain.Base.{[], ◌∷◌, ◌≡◌, refl, ok, arith, ◌≢◌, panicked}
use history_chain.Node.Delivery.{delivery, with_packet, Packets, msg_delivery-answers}
use history_chain.Protocol.Message.{
  Payload, empty, introduce, message_decode_from_slice, message_new,
}
use history_chain.Protocol.RoundTrip.{packet}
use history_chain.Register.{payload_handle, from_payload, find, reg}
use history_chain.Worker.{Channel, create_channel}
use history_chain.Tests.OfExchange.{answering}
use history_chain.Tests.OfNode.{test_msg, test_msg-Encodes}
use history_chain.Tests.OfProtocol.{addr}
use history_chain.Tests.Wire.{
  keys, keys-IsSignature, header_codec, header_codec-IsHeaderCodec, body_of, message_codec, hello,
}

-- Another request waits before the message's.
abbrev busy : Channel Payload
busy = record create_channel { requests = record { sender = 1; content = introduce } ∷ [] }

abbrev unsent : Packets
unsent = create_channel

payload_handle-empty : payload_handle answering empty ≡ ok empty
unfolding from_payload find payload_handle reg
payload_handle-empty = refl

introduce-calm : payload_handle answering introduce ≢ panicked
unfolding from_payload find payload_handle reg
introduce-calm h = cc

msg_delivery-answers_example :
    let bytes =
      packet keys-IsSignature header_codec-IsHeaderCodec message_codec test_msg
        (body_of test_msg)
        test_msg-Encodes
        9 in
    let done =
      delivery keys-IsSignature header_codec-IsHeaderCodec message_codec 9 2 addr unsent answering 5
        hello busy in
    (done.0 ≡ ok tt)
    × (done.2
        ≡ with_packet keys-IsSignature header_codec-IsHeaderCodec message_codec 9 2 addr unsent
            bytes)
    × (message_decode_from_slice keys header_codec message_codec hello.sender bytes ≡ ok test_msg)
unfolding message_new
msg_delivery-answers_example =
    msg_delivery-answers keys-IsSignature header_codec-IsHeaderCodec message_codec 9 2 addr unsent
      answering 5 hello empty (body_of test_msg) busy test_msg-Encodes payload_handle-empty refl
      (introduce-calm, tt) (refl, tt) tt refl (omega arith) refl
