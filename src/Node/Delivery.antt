-- ===== src/Node/Delivery.antt =====
-- `msg_delivery` of src/nodes/node.rs, the helper that has a message handled, answered, encoded and
-- queued for sending in one call.
use history_chain.Base.{
  ℕ, suc, ◌+◌, ◌≤◌, Bytes, [], ◌∷◌, ◌++◌, ◌≡◌, ◌∙◌, refl, sym, ap, true, Result, ok, err, panicked,
  HError, length, take, take-append_left, append-nil,
}
use history_chain.Identity.{Ed25519, IsSignature, SignHandle, identity_new, spawn_new}
use history_chain.Node.Info.{SocketAddr}
use history_chain.Protocol.{Bincode, Encodes, HeaderCodec}
use history_chain.Protocol.HeaderRoundTrip.{Encodings, IsHeaderCodec}
use history_chain.Protocol.Message.{
  Message, Payload, message_new, message_encode, message_decode_from_slice,
}
use history_chain.Protocol.RoundTrip.{packet, decode-message_encode}
use history_chain.Register.{Register, payload_handle}
use history_chain.Udp.{full_buffer, full_buffer-long}
use history_chain.Worker.{Panics, Channel, send, response}
use history_chain.Worker.Responds.{
  rounds, IsCalm, IsFresh, reply_of, response-send, response-send_dropped,
}

abbrev pub Packets : Type 0
Packets = Channel (Bytes × SocketAddr)

-- What a call returns, with the channels of the handlers and of the sending task.
abbrev Delivered : Type 0
Delivered = Result (Unit {0}) × Channel Payload × Packets

-- From the `?` behind `encode` on; `sender` names the one-shot channel of the new request.
queue_packet : ℕ → SocketAddr → Packets → Result ℕ × Bytes → Result (Unit {0}) × Packets
queue_packet sender addr responses (ok msg_size, msg_encoded_byte) =
    send sender (take msg_size msg_encoded_byte, addr) responses
queue_packet sender addr responses (err f, msg_encoded_byte) = (err f, responses)
queue_packet sender addr responses (panicked, msg_encoded_byte) = (panicked, responses)

module _ {Key Secret : Type 0} (e : Ed25519 Key Secret) (c : HeaderCodec)
    (m : Bincode Message) where
  -- From the `?` behind `response` on, at the clock's time.
  deliver_reply :
      ℕ
      → ℕ
      → Message
      → SignHandle Key Secret
      → SocketAddr
      → Packets
      → Result Payload
      → Result (Unit {0}) × Packets
  unfolding queue_packet
  deliver_reply now sender msg sign_handle addr responses (ok new_payload) =
      queue_packet sender addr responses (
        message_encode e c m (message_new now msg.receiver msg.sender new_payload) sign_handle
          full_buffer)
  deliver_reply now sender msg sign_handle addr responses (err f) = (err f, responses)
  deliver_reply now sender msg sign_handle addr responses panicked = (panicked, responses)

  -- From the `?` behind the first `send` on. While the call waits for the response, `served` is what the
  -- other tasks make of the handlers' channel.
  await_reply :
      (Channel Payload → Channel Payload)
      → ℕ
      → ℕ
      → Message
      → SignHandle Key Secret
      → SocketAddr
      → Packets
      → Result (Unit {0}) × Channel Payload
      → Delivered
  unfolding deliver_reply
  await_reply served now sender msg sign_handle addr responses (ok u, requests) =
      let later = served requests in
      let (result, responses') =
        deliver_reply now sender msg sign_handle addr responses (response sender later.answers) in
      (result, later, responses')
  await_reply served now sender msg sign_handle addr responses (err f, requests) =
      (err f, requests, responses)
  await_reply served now sender msg sign_handle addr responses (panicked, requests) =
      (panicked, requests, responses)

  pub msg_delivery :
      (Channel Payload → Channel Payload)
      → ℕ
      → ℕ
      → Message
      → SignHandle Key Secret
      → SocketAddr
      → Channel Payload
      → Packets
      → Delivered
  unfolding await_reply
  msg_delivery served now sender msg sign_handle addr requests responses =
      await_reply served now sender msg sign_handle addr responses
        (send sender msg.payload requests)

module _ {Key Secret : Type 0} {e : Ed25519 Key Secret} (sigs : IsSignature e) {c : HeaderCodec}
    {encs : Encodings} (law : IsHeaderCodec c encs) (m : Bincode Message) (s : Secret) (sender : ℕ)
    (addr : SocketAddr) (responses : Packets) where
  abbrev handle_of : SignHandle Key Secret
  handle_of = spawn_new e (identity_new e s)

  -- The sending task's channel with one more packet.
  abbrev pub with_packet : Bytes → Packets
  with_packet bytes = record responses {
    requests = responses.requests ++ (record { sender = sender; content = (bytes, addr) } ∷ []);
  }

  queue_packet-front :
      (size : ℕ) (front rest : Bytes)
      → responses.is_open ≡ true
      → size ≡ length front
      → queue_packet sender addr responses (ok size, front ++ rest) ≡ (ok tt, with_packet front)
  unfolding queue_packet send
  queue_packet-front size front rest on sized = rw (on, take-append_left size front rest sized) refl

  deliver_reply-ok :
      (now : ℕ) (msg : Message) (new_payload : Payload) (body : Bytes)
      → let reply = message_new now msg.receiver msg.sender new_payload in
        (coded : Encodes m reply body)
        → responses.is_open ≡ true
        → length body ≤ 924
        → msg.receiver ≡ e.to_bytes (e.verifying_key s)
        → let bytes = packet sigs law m reply body coded s in
          (deliver_reply e c m now sender msg handle_of addr responses (ok new_payload)
            ≡ (ok tt, with_packet bytes))
          × (message_decode_from_slice e c m msg.sender bytes ≡ ok reply)
  unfolding deliver_reply message_new
  deliver_reply-ok now msg new_payload body coded on small mine =
      let reply = message_new now msg.receiver msg.sender new_payload in
      let bytes = packet sigs law m reply body coded s in
      let (encoded, sized, decoded) =
        decode-message_encode sigs law m reply body coded s full_buffer [] full_buffer-long small
          mine in
      (
        ap (queue_packet sender addr responses) encoded
            ∙ queue_packet-front (length body + 100) bytes _ on (sym sized),
        ap (message_decode_from_slice e c m msg.sender) (sym (append-nil bytes)) ∙ decoded,
      )

  -- A delivery waits for a worker that has the handlers of a `PayloadHandler` and serves what waits
  -- before the payload, and the payload.
  abbrev pub delivery :
      Register → ℕ → Message → Channel Payload → Result (Unit {0}) × Channel Payload × Packets
  delivery register now msg requests =
      msg_delivery e c m (rounds (payload_handle register) (suc (length requests.requests))) now
        sender msg handle_of addr requests responses

  -- What the response to the payload decides.
  delivery-replied :
      (register : Register) (now : ℕ) (msg : Message) (requests : Channel Payload)
      (r : Result Payload)
      → let sent = send sender msg.payload requests in
        ((sent.0 ≡ ok tt)
          × (response sender
                ((rounds (payload_handle register) (suc (length requests.requests)) sent.1).answers)
              ≡ r))
        → let reply = deliver_reply e c m now sender msg handle_of addr responses r in
          let done = delivery register now msg requests in (done.0 ≡ reply.0) × (done.2 ≡ reply.1)
  unfolding msg_delivery await_reply
  delivery-replied register now msg requests r (sent, replied) =
      let task = payload_handle register in
      let later = rounds task (suc (length requests.requests)) in
      let start : send sender msg.payload requests ≡ (ok tt, (send sender msg.payload requests).1) =
        λ i. (sent i, (send sender msg.payload requests).1) in
      let whole = ap (await_reply e c m later now sender msg handle_of addr responses) start in
      let reply =
        λ (r : Result Payload). deliver_reply e c m now sender msg handle_of addr responses r in
      (
        ap (λ (d : Delivered). d.0) whole ∙ ap (λ r. (reply r).0) replied,
        ap (λ (d : Delivered). d.2) whole ∙ ap (λ r. (reply r).1) replied,
      )

  -- A payload that its handler answers, sent while both channels are open, on a request of its own:
  -- the worker has the handlers, none of which panics on what waits before the payload, and serves
  -- that and the payload, the answer's encoding has at most 924 bytes, and the message is to the
  -- node. Then msg_delivery succeeds, the sending task's channel has one more packet, and the
  -- message's sender decodes that packet to the answer.
  pub msg_delivery-answers :
      (register : Register) (now : ℕ) (msg : Message) (new_payload : Payload) (body : Bytes)
      (requests : Channel Payload)
      → let reply = message_new now msg.receiver msg.sender new_payload in
        let done = delivery register now msg requests in
        (coded : Encodes m reply body)
        → payload_handle register msg.payload ≡ ok new_payload
        → requests.is_open ≡ true
        → IsCalm (payload_handle register) requests.requests
        → IsFresh sender requests.requests
        → IsFresh sender requests.answers
        → responses.is_open ≡ true
        → length body ≤ 924
        → msg.receiver ≡ e.to_bytes (e.verifying_key s)
        → let bytes = packet sigs law m reply body coded s in
          (done.0 ≡ ok tt)
          × (done.2 ≡ with_packet bytes)
          × (message_decode_from_slice e c m msg.sender bytes ≡ ok reply)
  msg_delivery-answers register now msg new_payload body requests coded handled on calm fresh fresh'
        on' small mine =
      let task = payload_handle register in
      let (sent, replied) = response-send task sender msg.payload requests on calm fresh fresh' in
      let (result, queue) =
        delivery-replied register now msg requests (ok new_payload)
          (sent, replied ∙ ap (λ (r : Result Payload). reply_of r) handled) in
      let (delivered, decoded) = deliver_reply-ok now msg new_payload body coded on' small mine in
      (result ∙ ap (λ d. d.0) delivered, queue ∙ ap (λ d. d.1) delivered, decoded)

  -- A payload whose handler fails, in the same circumstances: msg_delivery has the error of a dropped
  -- request and queues nothing.
  msg_delivery-failed :
      (register : Register) (now : ℕ) (msg : Message) (f : HError) (requests : Channel Payload)
      → let done = delivery register now msg requests in
        payload_handle register msg.payload ≡ err f
        → requests.is_open ≡ true
        → IsCalm (payload_handle register) requests.requests
        → IsFresh sender requests.requests
        → IsFresh sender requests.answers
        → (done.0 ≡ err (HError.message "Response error:{:?}")) × (done.2 ≡ responses)
  unfolding deliver_reply
  msg_delivery-failed register now msg f requests handled on calm fresh fresh' =
      let task = payload_handle register in
      let (sent, replied) = response-send task sender msg.payload requests on calm fresh fresh' in
      delivery-replied register now msg requests (err (HError.message "Response error:{:?}"))
        (sent, replied ∙ ap (λ (r : Result Payload). reply_of r) handled)

  -- A handler that panics on what waits before the payload: the worker has ended, with the same.
  msg_delivery-dropped :
      (register : Register) (now : ℕ) (msg : Message) (requests : Channel Payload)
      → let done = delivery register now msg requests in
        requests.is_open ≡ true
        → Panics (payload_handle register) requests.requests
        → IsFresh sender requests.requests
        → IsFresh sender requests.answers
        → (done.0 ≡ err (HError.message "Response error:{:?}")) × (done.2 ≡ responses)
  unfolding deliver_reply
  msg_delivery-dropped register now msg requests on bad fresh fresh' =
      delivery-replied register now msg requests (err (HError.message "Response error:{:?}")) (
        response-send_dropped (payload_handle register) sender msg.payload requests on bad fresh
          fresh')
