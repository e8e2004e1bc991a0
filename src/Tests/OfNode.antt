-- ===== src/Tests/OfNode.antt =====
-- A node with the key 9 that answers the greeting of the node with the key 7.
use history_chain.Base.{
  ℕ, ◌<◌, Bytes, [], ◌∷◌, ◌++◌, ◌≡◌, refl, ok, Result, arith, length, replicate, All, le→ltb,
}
use history_chain.Identity.{SignHandle, spawn_new, identity_new}
use history_chain.Node.Pipeline.{
  pipeline_new, recv_one, handle_one, sign_one, send_one, starts, receives, handles, signs, sends,
}
use history_chain.Node.Pipeline.Answers.{Sound, Runs-Sound}
use history_chain.Protocol.Message.{Message, Payload, empty, introduce, message_new}
use history_chain.Protocol.{Encodes}
use history_chain.Protocol.RoundTrip.{decode-message_encode}
use history_chain.Register.{Register, register_new, reg, of_empty}
use history_chain.Udp.{Socket, received, full_buffer, full_buffer-long, check_addresses_available}
use history_chain.Udp.Checks.{
  AnsweredAt, check_addresses_available-one, check_addresses_available-Answered,
}
use history_chain.Tests.OfProtocol.{addr, greeting}
use history_chain.Tests.Wire.{
  keys, keys-IsSignature, header_codec, header_codec-IsHeaderCodec, body_of, message_codec, hello,
  hello-Encodes,
}

abbrev answerer : Payload → Result Payload
answerer payload = ok introduce

abbrev register : Register
register = register_new

abbrev pub name : Bytes
name = 9 ∷ replicate 31 0

abbrev pub signer : SignHandle ℕ ℕ
signer = spawn_new keys (identity_new keys 9)

abbrev pub socket : Socket
socket = record {
  bind = ok tt;
  send_to = λ bytes to. ok 0;
  recv_from = received (greeting ++ []) addr;
}

Runs-Sound_example :
    Sound keys header_codec message_codec name
      (reg register of_empty answerer)
      signer
      (socket ∷ [])
      (send_one socket (
        sign_one keys header_codec message_codec signer (
          handle_one
            (reg register of_empty answerer)
            0
            6
            (recv_one keys header_codec message_codec name socket pipeline_new))))
Runs-Sound_example =
    Runs-Sound keys header_codec message_codec name (reg register of_empty answerer) signer
      (socket ∷ []) _ (sends socket (signs (handles 0 6 (receives socket starts))))

-- The message that asks whether an address is available.
abbrev pub test_msg : Message
test_msg = message_new 5 name (7 ∷ replicate 31 0) empty

pub test_msg-Encodes : Encodes message_codec test_msg (body_of test_msg)
unfolding message_new
test_msg-Encodes = record {
  fits = λ part room. rw (le→ltb (length part) 65 room) refl;
  reads = refl;
}

pub addr_passes :
    check_addresses_available keys header_codec message_codec
      (λ i. socket)
      5
      (addr ∷ [])
      (7 ∷ replicate 31 0)
      signer
    ≡ ok (addr ∷ [])
unfolding message_new spawn_new identity_new
addr_passes =
    let (encoded, _, _) =
      decode-message_encode keys-IsSignature header_codec-IsHeaderCodec message_codec test_msg
        (body_of test_msg) test_msg-Encodes 9 full_buffer [] full_buffer-long (omega arith) refl in
    let (_, _, decoded) =
      decode-message_encode keys-IsSignature header_codec-IsHeaderCodec message_codec hello
        (body_of hello) hello-Encodes 7 (replicate 1024 0) [] (omega arith) (omega arith) refl in
    check_addresses_available-one keys header_codec message_codec (λ i. socket) 5 addr
      (7 ∷ replicate 31 0) signer 165 0 _ (greeting ++ []) addr hello encoded refl refl refl refl
      decoded refl

check_addresses_available-Answered_example :
    (0 < 1)
    × All
        (AnsweredAt keys header_codec message_codec
          (λ i. socket)
          0
          signer.public_key_bytes
          (addr ∷ []))
        (addr ∷ [])
check_addresses_available-Answered_example =
    check_addresses_available-Answered keys header_codec message_codec (λ i. socket) 5 (addr ∷ [])
      (addr ∷ []) (7 ∷ replicate 31 0) signer addr_passes
