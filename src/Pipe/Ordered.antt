-- ===== src/Pipe/Ordered.antt =====
-- What passes through a pipe.
use history_chain.Base.{
  ℕ, List, [], ◌∷◌, ◌++◌, ◌≡◌, ◌∙◌, refl, sym, ap, true, false, Bool, Bool-cases, Option, none,
  some, ◌⊎◌, inl, inr, Result, ok, err, panicked, HError, append_assoc, append-nil, subst, ok-inj,
  >>=-eq-ok,
}
use history_chain.Fpsc.Ringbuf.{Poll, pending, ready}
use history_chain.Pipe.{
  TryRecvError, no_value, disconnected, TrySendError, no_room, closed, Mpsc, Pipe, other, sent_or,
  try_sent_or, received_or, try_received_or, pipe_new, send_await, send, recv, close, try_recv,
  try_send,
}

module _ {T : Type 0} where
  -- What a call that sends leaves in the queue, by its result.
  abbrev pub after_send : Poll Bool → T → List T → List T
  after_send (ready true) value queue = queue ++ (value ∷ [])
  after_send (ready false) value queue = queue
  after_send pending value queue = queue

  abbrev pub after_try_send : TrySendError ⊎ Unit {0} → T → List T → List T
  after_try_send (inl e) value queue = queue
  after_try_send (inr u) value queue = queue ++ (value ∷ [])

  -- What a call that receives took from the front of the queue, by its result.
  abbrev pub taken : Poll (Option T) → List T → List T
  taken pending queue = queue
  taken (ready none) queue = queue
  taken (ready (some value)) queue = value ∷ queue

  abbrev pub try_taken : TryRecvError ⊎ T → List T → List T
  try_taken (inl e) queue = queue
  try_taken (inr value) queue = value ∷ queue

module _ {T C : Type 0} where
  -- What the pipe relies on of a channel with the values `queued` in it: a new one is empty, a value
  -- that was sent comes last, a receiver takes the first, and nothing else changes the queue. A
  -- channel is empty where a receiver gets nothing.
  pub record IsQueue (tokio : Mpsc T C) (queued : C → List T) : Type 0 where
    pub fresh : (n : ℕ) (c : C) → tokio.channel n ≡ ok c → queued c ≡ []
    pub sends :
        (v : T) (c : C) → queued ((tokio.send v c).1) ≡ after_send ((tokio.send v c).0) v (queued c)
    pub try_sends :
        (v : T) (c : C)
        → queued ((tokio.try_send v c).1) ≡ after_try_send ((tokio.try_send v c).0) v (queued c)
    pub recvs : (c : C) → queued c ≡ taken ((tokio.recv c).0) (queued ((tokio.recv c).1))
    pub try_recvs :
        (c : C) → queued c ≡ try_taken ((tokio.try_recv c).0) (queued ((tokio.try_recv c).1))
    pub closes : (c : C) → queued (tokio.close c) ≡ queued c
    pub nothing : (c : C) (e : TryRecvError) → (tokio.try_recv c).0 ≡ inl e → queued c ≡ []

-- What one end of a pipe was told that it sent, and what it received, and the same of the other end.
pub record Log (T : Type 0) : Type 0 where
  pub sent : List T
  pub received : List T
  pub peer_sent : List T
  pub peer_received : List T

module _ {T : Type 0} where
  abbrev other_log : Log T → Log T
  other_log l = record {
    sent = l.peer_sent;
    received = l.peer_received;
    peer_sent = l.sent;
    peer_received = l.received;
  }

  abbrev empty_log : Log T
  empty_log = record { sent = []; received = []; peer_sent = []; peer_received = [] }

  abbrev note_sent : Result (Unit {0}) → T → Log T → Log T
  note_sent (ok u) value l = record l { sent = l.sent ++ (value ∷ []) }
  note_sent (err e) value l = l
  note_sent panicked value l = l

  abbrev note_received : Result T → Log T → Log T
  note_received (ok value) l = record l { received = l.received ++ (value ∷ []) }
  note_received (err e) l = l
  note_received panicked l = l

  -- What a poll that is ready notes.
  abbrev note_ready : {A : Type 0} → (Result A → Log T → Log T) → Poll (Result A) → Log T → Log T
  note_ready note pending l = l
  note_ready note (ready r) l = note r l

  -- The logs agree with what is queued out of this end and into it.
  abbrev pub Agrees : Log T → List T → List T → Type 0
  Agrees l out into = (l.sent ≡ l.peer_received ++ out) × (l.peer_sent ≡ l.received ++ into)

  sent-Agrees :
      (v : T) (l : Log T) (out into : List T)
      → Agrees l out into
      → Agrees (note_sent (ok tt) v l) (out ++ (v ∷ [])) into
  sent-Agrees v l out into h =
      (ap (λ q. q ++ (v ∷ [])) (h.0) ∙ append_assoc l.peer_received out (v ∷ []), h.1)

  send-Agrees :
      (r : Poll Bool) (v : T) (l : Log T) (out into : List T)
      → Agrees l out into
      → Agrees (note_ready (λ r. note_sent r v) (sent_or r) l) (after_send r v out) into
  unfolding sent_or
  send-Agrees pending v l out into h = h
  send-Agrees (ready true) v l out into h = sent-Agrees v l out into h
  send-Agrees (ready false) v l out into h = h

  try_send-Agrees :
      (r : TrySendError ⊎ Unit {0}) (v : T) (l : Log T) (out into : List T)
      → Agrees l out into
      → Agrees (note_sent (try_sent_or r) v l) (after_try_send r v out) into
  unfolding try_sent_or
  try_send-Agrees (inl no_room) v l out into h = h
  try_send-Agrees (inl closed) v l out into h = h
  try_send-Agrees (inr tt) v l out into h = sent-Agrees v l out into h

  received-Agrees :
      (v : T) (l : Log T) (out into : List T)
      → Agrees l out (v ∷ into)
      → Agrees (note_received (ok v) l) out into
  received-Agrees v l out into h = (h.0, h.1 ∙ sym (append_assoc l.received (v ∷ []) into))

  recv-Agrees :
      (r : Poll (Option T)) (l : Log T) (out into : List T)
      → Agrees l out (taken r into)
      → Agrees (note_ready note_received (received_or r) l) out into
  unfolding received_or
  recv-Agrees pending l out into h = h
  recv-Agrees (ready none) l out into h = h
  recv-Agrees (ready (some v)) l out into h = received-Agrees v l out into h

  try_recv-Agrees :
      (r : TryRecvError ⊎ T) (l : Log T) (out into : List T)
      → Agrees l out (try_taken r into)
      → Agrees (note_received (try_received_or r) l) out into
  unfolding try_received_or
  try_recv-Agrees (inl no_value) l out into h = h
  try_recv-Agrees (inl disconnected) l out into h = h
  try_recv-Agrees (inr v) l out into h = received-Agrees v l out into h

  try_received_or-err :
      (r : TryRecvError ⊎ T) (e : HError)
      → try_received_or r ≡ err e
      → (cause : TryRecvError) × (r ≡ inl cause)
  unfolding try_received_or
  try_received_or-err (inl cause) e h = (cause, refl)
  try_received_or-err (inr v) e h = cc

module _ {T C : Type 0} (tokio : Mpsc T C) where
  -- Calls at the two ends in any order, with their log, seen from one end; `turns` goes to the other.
  -- A `send` that waits is polled again by `awaits`.
  pub data Runs : Log T → Pipe C → Type 0 where
    starts :
        (capacity : ℕ) (ends : Pipe C × Pipe C)
        → pipe_new tokio capacity ≡ ok ends
        → Runs empty_log (ends.0)
    turns : {l : Log T} {p : Pipe C} → Runs l p → Runs (other_log l) (other p)
    sends :
        {l : Log T} {p : Pipe C} (v : T)
        → Runs l p
        → Runs (note_ready (λ r. note_sent r v) ((send tokio v p).0) l) ((send tokio v p).1)
    awaits :
        {l : Log T} {p : Pipe C} (v : T)
        → Runs l p
        → Runs
            (note_ready (λ r. note_sent r v) ((send_await tokio v p).0) l)
            ((send_await tokio v p).1)
    recvs :
        {l : Log T} {p : Pipe C}
        → Runs l p
        → Runs (note_ready note_received ((recv tokio p).0) l) ((recv tokio p).1)
    try_sends :
        {l : Log T} {p : Pipe C} (v : T)
        → Runs l p
        → Runs (note_sent ((try_send tokio v p).0) v l) ((try_send tokio v p).1)
    try_recvs :
        {l : Log T} {p : Pipe C}
        → Runs l p
        → Runs (note_received ((try_recv tokio p).0) l) ((try_recv tokio p).1)
    closes : {l : Log T} {p : Pipe C} → Runs l p → Runs l (close tokio p)

  module _ (queued : C → List T) (h : IsQueue tokio queued) where
    abbrev InOrder : Log T → Pipe C → Type 0
    InOrder l p = Agrees l (queued p.sender) (queued p.receiver)

    await-InOrder :
        (v : T) (l : Log T) (p : Pipe C)
        → InOrder l p
        → InOrder
            (note_ready (λ r. note_sent r v) ((send_await tokio v p).0) l)
            ((send_await tokio v p).1)
    unfolding send_await
    await-InOrder v l p o =
        rw (h.sends v p.sender)
          (send-Agrees ((tokio.send v p.sender).0) v l (queued p.sender) (queued p.receiver) o)

    pipe-InOrder : (l : Log T) (p : Pipe C) → Runs l p → InOrder l p
    unfolding pipe_new send recv try_send try_recv close
    pipe-InOrder l p (starts capacity ends made) =
        let (first, e, rest) = >>=-eq-ok (tokio.channel capacity) _ made in
        let (second, e', built) = >>=-eq-ok (tokio.channel capacity) _ rest in
        subst (λ (both : Pipe C × Pipe C). InOrder empty_log (both.0)) (ok-inj built)
          (sym (h.fresh capacity first e), sym (h.fresh capacity second e'))
    pipe-InOrder l p (turns run) = let o = pipe-InOrder _ _ run in (o.1, o.0)
    pipe-InOrder l p (sends {l = before} {p = old} v run) =
        let o = pipe-InOrder _ _ run in
        elim (Bool-cases (tokio.sender_is_closed old.sender)) [
          | inl is_closed ↦ rw is_closed o
          | inr is_open ↦ rw is_open (await-InOrder v before old o)
        ]
    pipe-InOrder l p (awaits {l = before} {p = old} v run) =
        await-InOrder v before old (pipe-InOrder _ _ run)
    pipe-InOrder l p (recvs {l = before} {p = old} run) =
        recv-Agrees ((tokio.recv old.receiver).0) before (queued old.sender) _
          (rw (sym (h.recvs old.receiver)) (pipe-InOrder _ _ run))
    pipe-InOrder l p (try_sends {l = before} {p = old} v run) =
        let o = pipe-InOrder _ _ run in
        elim (Bool-cases (tokio.sender_is_closed old.sender)) [
          | inl is_closed ↦ rw is_closed o
          | inr is_open ↦
              rw (is_open, h.try_sends v old.sender)
                (try_send-Agrees ((tokio.try_send v old.sender).0) v before (queued old.sender)
                  (queued old.receiver) o)
        ]
    pipe-InOrder l p (try_recvs {l = before} {p = old} run) =
        try_recv-Agrees ((tokio.try_recv old.receiver).0) before (queued old.sender) _
          (rw (sym (h.try_recvs old.receiver)) (pipe-InOrder _ _ run))
    pipe-InOrder l p (closes {p = old} run) = rw (h.closes old.receiver) (pipe-InOrder _ _ run)

    -- In any order of calls at the two ends of a new pipe, over channels that are queues: what `send`
    -- and `try_send` of either end were told was sent is what the other end received, in order and
    -- once, followed by what is queued; and `try_recv` fails only where everything that the other
    -- end sent has been received.
    pub Runs-Agrees :
        (l : Log T) (p : Pipe C)
        → Runs l p
        → Agrees l (queued p.sender) (queued p.receiver)
          × ((e : HError) → (try_recv tokio p).0 ≡ err e → l.peer_sent ≡ l.received)
    unfolding try_recv
    Runs-Agrees l p run =
        let o = pipe-InOrder l p run in
        (
          o,
          (λ e failed.
              let (cause, at) = try_received_or-err _ e failed in
              o.1
              ∙ ap (λ q. l.received ++ q) (h.nothing p.receiver cause at)
              ∙ append-nil l.received),
        )
