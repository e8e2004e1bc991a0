-- ===== src/Udp/Sends.antt =====
-- What `udp_send_to` hands to the socket.
use history_chain.Base.{
  Bool-cases, inl, inr, take-append_more, drop-replicate, take-replicate, length-replicate, ℕ, ◌+◌,
  ◌-◌, ◌≤◌, ◌<◌, ◌⊎◌, Bytes, [], ◌++◌, ◌≡◌, ◌∙◌, refl, ap, ok, panicked, ◌>>=◌, ◌>>◌, arith, length,
  take, drop, replicate, ltb, le→ltb, lt→ltb,
}
use history_chain.Identity.{Ed25519, IsSignature, identity_new, spawn_new}
use history_chain.Node.Info.{SocketAddr}
use history_chain.Protocol.{Bincode, Encodes, HeaderCodec}
use history_chain.Protocol.HeaderRoundTrip.{Encodings, IsHeaderCodec}
use history_chain.Protocol.Message.{Message, message_decode_from_slice}
use history_chain.Protocol.RoundTrip.{
  packet, message_decode_from_slice-packet, decode-message_encode,
}
use history_chain.Udp.{Socket, udp_send_to}

module _ {Key Secret : Type 0} {e : Ed25519 Key Secret} (sigs : IsSignature e) {c : HeaderCodec}
    {encs : Encodings} (law : IsHeaderCodec c encs) (m : Bincode Message) (msg : Message)
    (body : Bytes) (coded : Encodes m msg body) (s : Secret) (socket : Socket)
    (dst_addr : SocketAddr) where
  abbrev sent : Bytes
  sent = packet sigs law m msg body coded s

  -- For a message as in the round trip of `encode`: with an encoding of at most 824 bytes,
  -- `udp_send_to` sends the packet and a hundred zero bytes, which the receiver still reads as the
  -- message, and returns a hundred more than the packet's size; with a longer one, of at most 924
  -- bytes, for which `encode` succeeds, it panics once the socket is bound.
  pub udp_send_to_lem :
      length body ≤ 924
      → msg.sender ≡ e.to_bytes (e.verifying_key s)
      → (length sent ≡ length body + 100)
        × (message_decode_from_slice e c m msg.receiver (sent ++ replicate 100 0) ≡ ok msg)
        × (((length body ≤ 824)
              × (udp_send_to e c m socket dst_addr msg (spawn_new e (identity_new e s))
                  ≡ socket.bind
                    >> (socket.send_to (sent ++ replicate 100 0) dst_addr >>= λ n.
                        ok (length body + 100 + 100))))
            ⊎ ((824 < length body)
                × (udp_send_to e c m socket dst_addr msg (spawn_new e (identity_new e s))
                    ≡ socket.bind >> panicked)))
  unfolding udp_send_to
  udp_send_to_lem small mine =
      let (encoded, sized, _) =
        decode-message_encode sigs law m msg body coded s (replicate 1024 0) []
          (omega (arith, length-replicate {A = ℕ} 1024 0)) small mine in
      (
        sized,
        message_decode_from_slice-packet sigs law m msg body coded s (replicate 100 0) small mine,
        elim (Bool-cases (ltb 824 (length body))) [
          | inl above ↦
              let more : 824 < length body = ground arith in
              inr (more, rw (encoded, lt→ltb 1024 (length body + 100 + 100) (omega arith)) refl)
          | inr below ↦
              let few : length body ≤ 824 = ground arith in
              let padded : take (length body + 100 + 100)
                    (sent ++ drop (length body + 100) (replicate 1024 0))
                  ≡ sent ++ replicate 100 0 =
                take-append_more (length body + 100 + 100) 100 sent _ (omega arith)
                ∙ ap (λ l. sent ++ l)
                    (ap (take 100) (drop-replicate 1024 (length body + 100) 0)
                      ∙ take-replicate 100 (1024 - (length body + 100)) 0 (omega arith)) in
              inl (
                few,
                rw (encoded, le→ltb 1024 (length body + 100 + 100) (omega arith), padded) refl,
              )
        ],
      )
