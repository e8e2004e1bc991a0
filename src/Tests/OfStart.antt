-- ===== src/Tests/OfStart.antt =====
-- The node with the key 9 has handled the greeting of the node with the key 7, and signs its answer.
use history_chain.Base.{ℕ, ap, [], ◌∷◌, ◌++◌, ◌≡◌, refl, some, ok, err, arith, replicate, HError}
use history_chain.Node.Friends.{Node}
use history_chain.Node.Info.{NodeInfo, node_info_new}
use history_chain.Node.Pipeline.{
  Pipeline, pipeline_new, recv_one, handle_one, sign_one, starts, receives, handles,
}
use history_chain.Node.Pipeline.Accepted.{addressed, sign_one-accepted}
use history_chain.Node.Pipeline.Exchange.{handle_of, handle_one-recv_one}
use history_chain.Node.Start.{
  recv_net_start, encode_and_sign_start, handler_start, udp_send_to_start,
}
use history_chain.Protocol.Message.{message_new, message_decode_from_slice}
use history_chain.Protocol.RoundTrip.{packet, decode-message_encode}
use history_chain.Register.{answer, handle, reg, from_payload, find}
use history_chain.Udp.{udp_recv_from, recv_or}
use history_chain.Worker.{create_channel}
use history_chain.Tests.OfExchange.{answering}
use history_chain.Tests.OfNode.{name, socket, test_msg, test_msg-Encodes}
use history_chain.Tests.OfProtocol.{addr}
use history_chain.Tests.Wire.{
  keys, keys-IsSignature, header_codec, header_codec-IsHeaderCodec, body_of, message_codec, hello,
  hello-Encodes,
}

-- What the implementation's `new` made.
abbrev made : Node ℕ ℕ
made = record {
  nodeinfo = err (HError.message "no information");
  sign_handle = err (HError.message "no handle");
  friends = ok [];
}

abbrev info : NodeInfo
info = record node_info_new { name = some name; address = some (addr ∷ []) }

abbrev handled : Pipeline
handled =
    handle_one answering 0 5 (recv_one keys header_codec message_codec name socket pipeline_new)

hello_arrives : udp_recv_from keys header_codec message_codec socket name ≡ ok (hello, addr)
unfolding udp_recv_from recv_or
hello_arrives =
    let (_, _, decoded) =
      decode-message_encode keys-IsSignature header_codec-IsHeaderCodec message_codec hello
        (body_of hello) hello-Encodes 7 (replicate 1024 0) [] (omega arith) (omega arith) refl in
    rw (decoded) refl

hello_answered : answer answering 5 hello ≡ ok test_msg
unfolding answer handle reg from_payload find
hello_answered = refl

one_to_sign : handled.to_sign ≡ (test_msg, addr) ∷ []
one_to_sign =
    ap (λ p. p.to_sign)
      (handle_one-recv_one keys-IsSignature header_codec-IsHeaderCodec message_codec name answering
        socket 5 pipeline_new hello test_msg addr refl refl hello_arrives hello_answered)

sign_one-accepted_example :
    (recv_net_start (addressed keys 9 made info) ≡ ok (name, addr))
    × (encode_and_sign_start (addressed keys 9 made info) ≡ ok (handle_of keys 9, create_channel))
    × (handler_start (ok answering) ≡ ok (answering, create_channel))
    × (udp_send_to_start ≡ ok create_channel)
    × (sign_one keys header_codec message_codec (handle_of keys 9) handled ≡ record handled {
      to_sign = [];
      to_send =
          handled.to_send
          ++ ((
            packet keys-IsSignature header_codec-IsHeaderCodec message_codec test_msg
                (body_of test_msg)
                test_msg-Encodes
                9,
            addr,
          )
              ∷ []);
    })
    × (message_decode_from_slice keys header_codec message_codec test_msg.receiver (
          packet keys-IsSignature header_codec-IsHeaderCodec message_codec test_msg
            (body_of test_msg)
            test_msg-Encodes
            9)
        ≡ ok test_msg)
unfolding message_new
sign_one-accepted_example =
    sign_one-accepted keys-IsSignature header_codec-IsHeaderCodec message_codec 9 made answering
      (socket ∷ []) handled info addr [] test_msg addr [] (body_of test_msg) test_msg-Encodes refl
      refl (handles 0 5 (receives socket starts)) one_to_sign (omega arith)
