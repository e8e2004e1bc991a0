-- ===== src/Node/Pipeline/Accepted.antt =====
-- The tasks of a node that `init_new` made and that has an address: what the node signs is accepted by
-- those it is for, since the name that it receives under is the key that it signs with.
use history_chain.Base.{
  ◌+◌, ◌≤◌, Bytes, List, [], ◌∷◌, ◌++◌, ◌≡◌, ◌∙◌, refl, sym, ap, subst, some, ok, err, HError,
  arith, length, replicate, All, take-append_left, append-nil,
}
use history_chain.Identity.{Ed25519, IsSignature, identity_new}
use history_chain.Node.Friends.{Node, init_new}
use history_chain.Node.Info.{SocketAddr, NodeInfo, get_name, get_address}
use history_chain.Node.Pipeline.{Pipeline, Runs, sign_one, sign_next, signed_one}
use history_chain.Node.Pipeline.Answers.{IsAnswer, Runs-Sound}
use history_chain.Node.Pipeline.Exchange.{name_of, handle_of}
use history_chain.Node.Start.{
  recv_net_start, encode_and_sign_start, handler_start, udp_send_to_start,
}
use history_chain.Protocol.{Bincode, Encodes, HeaderCodec}
use history_chain.Protocol.HeaderRoundTrip.{Encodings, IsHeaderCodec}
use history_chain.Protocol.Message.{Message, message_new, message_decode_from_slice}
use history_chain.Protocol.RoundTrip.{packet, decode-message_encode}
use history_chain.Register.{Register}
use history_chain.Udp.{Socket}
use history_chain.Worker.{create_channel}

module _ {Key Secret : Type 0} (e : Ed25519 Key Secret) (s : Secret) (made : Node Key Secret) where
  -- What `init_new` makes, and the same after `set_nodeinfo` with addresses.
  abbrev fresh_node : Node Key Secret
  fresh_node = init_new e (identity_new e s) made

  abbrev pub addressed : NodeInfo → Node Key Secret
  addressed info = record fresh_node { nodeinfo = ok info }

  -- A node as `init_new` makes it has a name and no address: its receiving task is refused.
  recv_net_start-init_new :
      recv_net_start fresh_node ≡ err (HError.message "node address is not set")
  unfolding recv_net_start init_new get_name get_address
  recv_net_start-init_new = refl

  recv_net_start-addressed :
      (info : NodeInfo) (first : SocketAddr) (others : List SocketAddr)
      → info.name ≡ some (name_of e s)
      → info.address ≡ some (first ∷ others)
      → recv_net_start (addressed info) ≡ ok (name_of e s, first)
  unfolding recv_net_start get_name get_address
  recv_net_start-addressed info first others named placed = rw (named, placed) refl

  encode_and_sign_start-addressed :
      (info : NodeInfo)
      → encode_and_sign_start (addressed info) ≡ ok (handle_of e s, create_channel)
  unfolding encode_and_sign_start init_new
  encode_and_sign_start-addressed info = refl

module _ {Key Secret : Type 0} {e : Ed25519 Key Secret} (sigs : IsSignature e) {c : HeaderCodec}
    {encs : Encodings} (law : IsHeaderCodec c encs) (m : Bincode Message) (s : Secret)
    (made : Node Key Secret) (register : Register) (ss : List Socket) (p : Pipeline) where
  -- An answer of a node of that name is from that name.
  sender-IsAnswer :
      (msg : Message) (addr : SocketAddr)
      → IsAnswer e c m (name_of e s) register (handle_of e s) ss (msg, addr)
      → msg.sender ≡ name_of e s
  unfolding message_new
  sender-IsAnswer msg addr (asked, now, payload, came, handled, same) =
      let (j, socket, bytes, at, got, for_me) = came in
      let (header, long, decoded, long', signed) = for_me in
      ap (λ (x : Message). x.sender) same ∙ signed.to_me

  -- A node that `init_new` made of a new identity, with an information of that name and of an
  -- address: its tasks start, the receiving one with the identity's key as its name and the first
  -- address, the signing one with the identity's handle, the handling one with the handlers that the
  -- node gives; the signing, the handling and the sending one each have an empty channel. In any run
  -- of tasks of that name and handle, the next message to sign, if it has an encoding of at most 924
  -- bytes, is signed and queued for its address, and its receiver decodes the packet to the message.
  pub sign_one-accepted :
      (info : NodeInfo) (first : SocketAddr) (others : List SocketAddr) (msg : Message)
      (addr : SocketAddr) (rest : List (Message × SocketAddr)) (body : Bytes)
      (coded : Encodes m msg body)
      → info.name ≡ some (name_of e s)
      → info.address ≡ some (first ∷ others)
      → Runs e c m (name_of e s) register (handle_of e s) ss p
      → p.to_sign ≡ (msg, addr) ∷ rest
      → length body ≤ 924
      → let bytes = packet sigs law m msg body coded s in
        (recv_net_start (addressed e s made info) ≡ ok (name_of e s, first))
        × (encode_and_sign_start (addressed e s made info) ≡ ok (handle_of e s, create_channel))
        × (handler_start (ok register) ≡ ok (register, create_channel))
        × (udp_send_to_start ≡ ok create_channel)
        × (sign_one e c m (handle_of e s) p
            ≡ record p { to_sign = rest; to_send = p.to_send ++ ((bytes, addr) ∷ []) })
        × (message_decode_from_slice e c m msg.receiver bytes ≡ ok msg)
  unfolding sign_one sign_next signed_one handler_start udp_send_to_start
  sign_one-accepted info first others msg addr rest body coded named placed run next small =
      let sound = Runs-Sound e c m (name_of e s) register (handle_of e s) ss p run in
      let answers =
        subst (All (IsAnswer e c m (name_of e s) register (handle_of e s) ss)) next sound.to_sign in
      let mine = sender-IsAnswer msg addr answers.0 in
      let bytes = packet sigs law m msg body coded s in
      let (encoded, sized, decoded) =
        decode-message_encode sigs law m msg body coded s (replicate 1024 0) [] (omega arith) small
          mine in
      (
        recv_net_start-addressed e s made info first others named placed,
        encode_and_sign_start-addressed e s made info,
        refl,
        refl,
        ap (λ queue. sign_next e c m (handle_of e s) queue p) next
            ∙ ap (λ r. signed_one r addr (record p { to_sign = rest })) encoded
            ∙ ap (λ front. record p { to_sign = rest; to_send = p.to_send ++ ((front, addr) ∷ []) })
                (take-append_left (length body + 100) bytes _ (sym sized)),
        ap (message_decode_from_slice e c m msg.receiver) (sym (append-nil bytes)) ∙ decoded,
      )
