-- ===== src/Node/Pipeline/Answers.antt =====
-- Whatever a node sends through its pipeline is an answer to a message that it has received.
use history_chain.Base.{
  >>=-eq-ok, ok-inj, ℕ, suc, Bytes, List, [], ◌∷◌, All, All-append, All-take, All-drop,
  All-get_elem?, All-map, ◌≡◌, refl, sym, subst, Option, none, some, Result, ok, err, panicked,
  get_elem?, take, drop, replicate, Bool-cases, inl, inr, Bool, if◌then◌else◌,
}
use history_chain.Identity.{Ed25519, SignHandle}
use history_chain.Node.Info.{SocketAddr}
use history_chain.Protocol.{Bincode, HeaderCodec}
use history_chain.Protocol.Accepts.{IsFor}
use history_chain.Protocol.Message.{Message, Payload, message_encode, message_new}
use history_chain.Register.{Register, answer, handle}
use history_chain.Udp.{Socket, received, udp_recv_from}
use history_chain.Udp.Checks.{udp_recv_from-IsFor}
use history_chain.Node.Pipeline.{
  Pipeline, Runs, starts, receives, handles, signs, sends, recv_one, received_one, handle_one,
  handle_at, answered_one, sign_one, sign_next, signed_one, send_one, send_next, sent_one,
}

module _ {Key Secret : Type 0} (e : Ed25519 Key Secret) (c : HeaderCodec) (m : Bincode Message)
    (my_name : Bytes) (register : Register) (sign_handle : SignHandle Key Secret) where
  -- A socket has received, from the address, bytes that are a signed message to the node.
  abbrev Came : List Socket → Message × SocketAddr → Type 0
  Came ss (msg, addr) =
      (j : ℕ) × (socket : Socket) × (bytes : Bytes) × (get_elem? ss j ≡ some socket)
      × (socket.recv_from ≡ received bytes addr)
      × IsFor e c m my_name bytes msg

  -- The registered handler's answer to such a message, from its receiver to its sender and back to
  -- its address.
  abbrev pub IsAnswer : List Socket → Message × SocketAddr → Type 0
  IsAnswer ss (msg', addr) =
      (msg : Message) × (now : ℕ) × (payload : Payload) × Came ss (msg, addr)
      × (handle register msg.payload ≡ ok payload)
      × (msg' ≡ message_new now msg.receiver msg.sender payload)

  -- The bytes of such an answer, encoded and signed.
  abbrev IsPacket : List Socket → Bytes × SocketAddr → Type 0
  IsPacket ss (bytes, addr) =
      (msg' : Message) × (n : ℕ) × (buffer : Bytes) × IsAnswer ss (msg', addr)
      × (message_encode e c m msg' sign_handle (replicate 1024 0) ≡ (ok n, buffer))
      × (bytes ≡ take n buffer)

  pub record Sound (ss : List Socket) (p : Pipeline) : Type 0 where
    pub to_handle : All (Came ss) p.to_handle
    pub to_sign : All (IsAnswer ss) p.to_sign
    pub to_send : All (IsPacket ss) p.to_send
    pub sent : All (IsPacket ss) p.sent

  -- One more socket.
  Came-more :
      (s : Socket) (ss : List Socket) (x : Message × SocketAddr) → Came ss x → Came (s ∷ ss) x
  Came-more s ss (msg, addr) (j, socket, bytes, at, got, good) =
      (suc j, socket, bytes, at, got, good)

  IsAnswer-more :
      (s : Socket) (ss : List Socket) (x : Message × SocketAddr)
      → IsAnswer ss x
      → IsAnswer (s ∷ ss) x
  IsAnswer-more s ss (msg', addr) (msg, now, payload, came, answered, same) =
      (msg, now, payload, Came-more s ss (msg, addr) came, answered, same)

  IsPacket-more :
      (s : Socket) (ss : List Socket) (x : Bytes × SocketAddr) → IsPacket ss x → IsPacket (s ∷ ss) x
  IsPacket-more s ss (bytes, addr) (msg', n, buffer, answered, encoded, same) =
      (msg', n, buffer, IsAnswer-more s ss (msg', addr) answered, encoded, same)

  more : (s : Socket) (ss : List Socket) (p : Pipeline) → Sound ss p → Sound (s ∷ ss) p
  more s ss p v = record {
    to_handle = All-map (Came-more s ss) p.to_handle v.to_handle;
    to_sign = All-map (IsAnswer-more s ss) p.to_sign v.to_sign;
    to_send = All-map (IsPacket-more s ss) p.to_send v.to_send;
    sent = All-map (IsPacket-more s ss) p.sent v.sent;
  }

  received_one-Sound :
      (ss : List Socket) (p : Pipeline) (r : Result (Message × SocketAddr))
      → Sound ss p
      → ((x : Message × SocketAddr) → r ≡ ok x → Came ss x)
      → Sound ss (received_one r p)
  unfolding received_one
  received_one-Sound ss p (ok x) v came = record {
    to_handle = All-append (Came ss) p.to_handle (x ∷ []) v.to_handle (came x refl, tt);
    to_sign = v.to_sign;
    to_send = v.to_send;
    sent = v.sent;
  }
  received_one-Sound ss p (err f) v came = record {
    to_handle = v.to_handle;
    to_sign = v.to_sign;
    to_send = v.to_send;
    sent = v.sent;
  }
  received_one-Sound ss p panicked v came = record {
    to_handle = v.to_handle;
    to_sign = v.to_sign;
    to_send = v.to_send;
    sent = v.sent;
  }

  abbrev Choice : Socket → List Socket → Pipeline → Bool → Type 0
  Choice socket ss p b =
      Sound ss (if b then received_one (udp_recv_from e c m socket my_name) p else p)

  recv_one-Sound :
      (socket : Socket) (ss : List Socket) (p : Pipeline)
      → Sound ss p
      → Sound (socket ∷ ss) (recv_one e c m my_name socket p)
  unfolding recv_one
  recv_one-Sound socket ss p v = elim (Bool-cases p.listening) [
    | inl on ↦ subst (Choice socket (socket ∷ ss) p) (sym on) (
        received_one-Sound (socket ∷ ss) p (udp_recv_from e c m socket my_name) (more socket ss p v)
          (λ (msg, addr) done.
            let (bytes, got, good) = udp_recv_from-IsFor e c m socket my_name msg addr done in
            (0, socket, bytes, refl, got, good)))
    | inr off ↦ subst (Choice socket (socket ∷ ss) p) (sym off) (more socket ss p v)
  ]

  answered_one-Sound :
      (ss : List Socket) (p : Pipeline) (r : Result Message) (addr : SocketAddr)
      → Sound ss p
      → ((msg' : Message) → r ≡ ok msg' → IsAnswer ss (msg', addr))
      → Sound ss (answered_one r addr p)
  unfolding answered_one
  answered_one-Sound ss p (ok msg') addr v good = record {
    to_handle = v.to_handle;
    to_sign = All-append (IsAnswer ss) p.to_sign ((msg', addr) ∷ []) v.to_sign (good msg' refl, tt);
    to_send = v.to_send;
    sent = v.sent;
  }
  answered_one-Sound ss p (err f) addr v good = v
  answered_one-Sound ss p panicked addr v good = v

  handle_at-Sound :
      (ss : List Socket) (now : ℕ) (o : Option (Message × SocketAddr)) (p : Pipeline)
      → Sound ss p
      → ((x : Message × SocketAddr) → o ≡ some x → Came ss x)
      → Sound ss (handle_at register now o p)
  unfolding handle_at answer
  handle_at-Sound ss now none p v came = v
  handle_at-Sound ss now (some (msg, addr)) p v came =
      answered_one-Sound ss p (answer register now msg) addr v (λ msg' done.
        let (payload, handled, last) = >>=-eq-ok (handle register msg.payload) _ done in
        (msg, now, payload, came (msg, addr) refl, handled, sym (ok-inj last)))

  handle_one-Sound :
      (i now : ℕ) (ss : List Socket) (p : Pipeline)
      → Sound ss p
      → Sound ss (handle_one register i now p)
  unfolding handle_one
  handle_one-Sound i now ss p v =
      handle_at-Sound ss now (get_elem? p.to_handle i) _
        (record {
          to_handle =
              All-append (Came ss) (take i p.to_handle) (drop (suc i) p.to_handle)
                (All-take (Came ss) i p.to_handle v.to_handle)
                (All-drop (Came ss) (suc i) p.to_handle v.to_handle);
          to_sign = v.to_sign;
          to_send = v.to_send;
          sent = v.sent;
        })
        (λ x at. All-get_elem? (Came ss) i p.to_handle x v.to_handle at)

  signed_one-Sound :
      (ss : List Socket) (p : Pipeline) (r : Result ℕ × Bytes) (msg' : Message) (addr : SocketAddr)
      → Sound ss p
      → IsAnswer ss (msg', addr)
      → message_encode e c m msg' sign_handle (replicate 1024 0) ≡ r
      → Sound ss (signed_one r addr p)
  unfolding signed_one
  signed_one-Sound ss p (ok n, buffer) msg' addr v good encoded = record {
    to_handle = v.to_handle;
    to_sign = v.to_sign;
    to_send =
        All-append (IsPacket ss) p.to_send ((take n buffer, addr) ∷ []) v.to_send
          ((msg', n, buffer, good, encoded, refl), tt);
    sent = v.sent;
  }
  signed_one-Sound ss p (err f, buffer) msg' addr v good encoded = v
  signed_one-Sound ss p (panicked, buffer) msg' addr v good encoded = v

  sign_next-Sound :
      (ss : List Socket) (queue : List (Message × SocketAddr)) (p : Pipeline)
      → Sound ss p
      → All (IsAnswer ss) queue
      → Sound ss (sign_next e c m sign_handle queue p)
  unfolding sign_next
  sign_next-Sound ss [] p v good = v
  sign_next-Sound ss ((msg', addr) ∷ rest) p v good =
      signed_one-Sound ss (record p { to_sign = rest }) _ msg' addr
        (record { to_handle = v.to_handle; to_sign = good.1; to_send = v.to_send; sent = v.sent })
        (good.0) refl

  sent_one-Sound :
      (ss : List Socket) (p : Pipeline) (r : Result ℕ) (x : Bytes × SocketAddr)
      → Sound ss p
      → IsPacket ss x
      → Sound ss (sent_one r x p)
  unfolding sent_one
  sent_one-Sound ss p (ok n) x v good = record {
    to_handle = v.to_handle;
    to_sign = v.to_sign;
    to_send = v.to_send;
    sent = All-append (IsPacket ss) p.sent (x ∷ []) v.sent (good, tt);
  }
  sent_one-Sound ss p (err f) x v good = v
  sent_one-Sound ss p panicked x v good = v

  send_next-Sound :
      (socket : Socket) (ss : List Socket) (queue : List (Bytes × SocketAddr)) (p : Pipeline)
      → Sound ss p
      → All (IsPacket ss) queue
      → Sound ss (send_next socket queue p)
  unfolding send_next
  send_next-Sound socket ss [] p v good = v
  send_next-Sound socket ss ((bytes, addr) ∷ rest) p v good =
      sent_one-Sound ss (record p { to_send = rest }) _ (bytes, addr)
        (record { to_handle = v.to_handle; to_sign = v.to_sign; to_send = good.1; sent = v.sent })
        (good.0)

  -- In whatever order the four tasks of a node run, and in whatever order its messages are handled,
  -- what waits in the queues and what has been sent stays sound: each message to handle was received
  -- by one of the sockets as a signed message to the node, each message to sign is the registered
  -- handler's answer to such a message, from its receiver to its sender, at its address, and each
  -- packet to send or sent is such an answer, encoded and signed with the node's handle.
  pub Runs-Sound :
      (ss : List Socket) (p : Pipeline) → Runs e c m my_name register sign_handle ss p → Sound ss p
  unfolding sign_one send_one
  Runs-Sound [] p starts = record { to_handle = tt; to_sign = tt; to_send = tt; sent = tt }
  Runs-Sound (s ∷ ss) p (receives socket r) = recv_one-Sound socket ss _ (Runs-Sound ss _ r)
  Runs-Sound ss p (handles i now r) = handle_one-Sound i now ss _ (Runs-Sound ss _ r)
  Runs-Sound ss p (signs r) = let v = Runs-Sound ss _ r in sign_next-Sound ss _ _ v v.to_sign
  Runs-Sound ss p (sends socket r) =
      let v = Runs-Sound ss _ r in send_next-Sound socket ss _ _ v v.to_send
