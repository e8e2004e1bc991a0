-- ===== src/Tests/OfFriends.antt =====
-- The node with the key 9 asks its friend with the key 7 for a new node, and is given one.
use history_chain.Base.{
  ℕ, ◌<◌, Bytes, List, [], ◌∷◌, ◌++◌, ◌≡◌, refl, some, ok, inl, inr, arith, length, get_elem?,
  bytes_eq, replicate, le→ltb,
}
use history_chain.Identity.{identity_new, spawn_new}
use history_chain.Node.Friends.{Node, get_friend, make_new, contains, introduced, addr_eq}
use history_chain.Node.Friends.Introduced.{make_new-introduced}
use history_chain.Node.Info.{SocketAddr, NodeInfo, node_info_new, get_name, get_address}
use history_chain.Protocol.{Encodes}
use history_chain.Protocol.Accepts.{IsFor}
use history_chain.Protocol.Message.{Message, introduce, introduce_resp, message_new}
use history_chain.Protocol.RoundTrip.{packet, decode-message_encode}
use history_chain.Udp.{Socket, received, udp_send_to, udp_recv_from, recv_or}
use history_chain.Udp.Sends.{udp_send_to_lem}
use history_chain.Tests.OfNode.{name, signer, socket, addr_passes}
use history_chain.Tests.OfProtocol.{addr}
use history_chain.Tests.Wire.{
  keys, keys-IsSignature, header_codec, header_codec-IsHeaderCodec, body_of, message_codec,
}

abbrev friend_name : Bytes
friend_name = 7 ∷ replicate 31 0

abbrev friend_info : NodeInfo
friend_info = record node_info_new { name = some friend_name; address = some (addr ∷ []) }

abbrev asking : Node ℕ ℕ
asking = record {
  nodeinfo = ok (record node_info_new { name = some name });
  sign_handle = ok signer;
  friends = ok ((friend_name, friend_info) ∷ []);
}

abbrev question : Message
question = record { sender = name; timestamp = 8; payload = introduce; receiver = friend_name }

question-Encodes : Encodes message_codec question (body_of question)
question-Encodes = record {
  fits = λ part room. rw (le→ltb (length part) 65 room) refl;
  reads = refl;
}

abbrev answer : Message
answer = record {
  sender = friend_name;
  timestamp = 6;
  payload = introduce_resp node_info_new;
  receiver = name;
}

answer-Encodes : Encodes message_codec answer (body_of answer)
answer-Encodes = record { fits = λ part room. rw (le→ltb (length part) 65 room) refl; reads = refl }

abbrev response : Bytes
response =
    packet keys-IsSignature header_codec-IsHeaderCodec message_codec answer (body_of answer)
      answer-Encodes 7

abbrev answering : Socket
answering = record {
  bind = ok tt;
  send_to = λ bytes to. ok 0;
  recv_from = received (response ++ []) addr;
}

answer_arrives : udp_recv_from keys header_codec message_codec answering name ≡ ok (answer, addr)
unfolding udp_recv_from recv_or
answer_arrives =
    let (_, _, decoded) =
      decode-message_encode keys-IsSignature header_codec-IsHeaderCodec message_codec answer
        (body_of answer) answer-Encodes 7 (replicate 1024 0) [] (omega arith) (omega arith) refl in
    rw (decoded) refl

too_many : 824 < 65 → ⊥
too_many h = omega arith

question_sent : udp_send_to keys header_codec message_codec socket addr question signer ≡ ok 265
question_sent =
    let (_, _, cases) =
      udp_send_to_lem keys-IsSignature header_codec-IsHeaderCodec message_codec question
        (body_of question) question-Encodes 9 socket addr (omega arith) refl in
    elim cases [ inl (few, sent) ↦ sent | inr (many, lost) ↦ absurd (too_many many) ]

introduction :
    make_new keys header_codec message_codec
      (λ i. socket)
      socket
      answering
      5
      8
      asking
      friend_name
      signer
    ≡ ok node_info_new
unfolding make_new contains introduced addr_eq get_friend get_name get_address message_new bytes_eq
    spawn_new identity_new
introduction = rw (addr_passes, question_sent, answer_arrives) refl

make_new-introduced_example :
    (friend : NodeInfo) × (addrs : List SocketAddr) × (bytes : Bytes) × (src : SocketAddr)
    × (msg : Message) × (get_friend asking friend_name ≡ some friend)
    × (get_address friend ≡ ok addrs)
    × (get_elem? addrs 0 ≡ some src)
    × (answering.recv_from ≡ received bytes src)
    × IsFor keys header_codec message_codec signer.public_key_bytes bytes msg
    × (msg.payload ≡ introduce_resp node_info_new)
make_new-introduced_example =
    make_new-introduced keys header_codec message_codec (λ i. socket) socket answering 5 8 asking
      friend_name signer node_info_new introduction
