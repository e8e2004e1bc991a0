-- ===== src/Tests/OfPipe.antt =====
-- A pipe over bounded queues, with a full channel and a value received.
use history_chain.Base.{
  ℕ, List, [], ◌∷◌, ◌++◌, ◌≡◌, refl, Bool, true, false, not, Bool-cases, Option, none, some, ◌⊎◌,
  inl, inr, Result, ok, err, panicked, ok-inj, HError, length, ltb, ◌==◌, if◌then◌else◌, ap, sym,
}
use history_chain.Fpsc.Ringbuf.{Poll, pending, ready}
use history_chain.Pipe.{
  TryRecvError, no_value, disconnected, TrySendError, no_room, closed, Mpsc, Pipe, pipe_new,
  try_send, try_recv, try_sent_or, try_received_or,
}
use history_chain.Pipe.Ordered.{
  IsQueue, Log, Agrees, after_send, after_try_send, taken, try_taken, Runs, starts, turns,
  try_sends, try_recvs, Runs-Agrees,
}

record Bounded : Type 0 where
  capacity : ℕ
  is_open : Bool
  values : List ℕ

abbrev put : ℕ → Bounded → Bounded
put v c = record c { values = c.values ++ (v ∷ []) }

abbrev send_by : Bool → Bool → ℕ → Bounded → Poll Bool × Bounded
send_by false room v c = (ready false, c)
send_by true false v c = (pending, c)
send_by true true v c = (ready true, put v c)

abbrev try_send_by : Bool → Bool → ℕ → Bounded → (TrySendError ⊎ Unit {0}) × Bounded
try_send_by false room v c = (inl closed, c)
try_send_by true false v c = (inl no_room, c)
try_send_by true true v c = (inr tt, put v c)

abbrev recv_by : List ℕ → Bounded → Poll (Option ℕ) × Bounded
recv_by [] c = (if c.is_open then pending else ready none, c)
recv_by (v ∷ vs) c = (ready (some v), record c { values = vs })

abbrev try_recv_by : List ℕ → Bounded → (TryRecvError ⊎ ℕ) × Bounded
try_recv_by [] c = (inl (if c.is_open then no_value else disconnected), c)
try_recv_by (v ∷ vs) c = (inr v, record c { values = vs })

abbrev channel_of : ℕ → Result Bounded
channel_of n =
    if n == 0 then panicked else ok (record { capacity = n; is_open = true; values = [] })

abbrev bounded : Mpsc ℕ Bounded
bounded = record {
  channel = channel_of;
  sender_is_closed = λ c. not c.is_open;
  receiver_is_closed = λ c. not c.is_open;
  send = λ v c. send_by c.is_open (ltb (length c.values) c.capacity) v c;
  recv = λ c. recv_by c.values c;
  close = λ c. record c { is_open = false };
  try_recv = λ c. try_recv_by c.values c;
  try_send = λ v c. try_send_by c.is_open (ltb (length c.values) c.capacity) v c;
}

bounded_fresh : (n : ℕ) (c : Bounded) → channel_of n ≡ ok c → c.values ≡ []
bounded_fresh n c made = elim (Bool-cases (n == 0)) [
  | inl none_at_all ↦ let it : panicked ≡ ok c = rw none_at_all at made in cc
  | inr some_room ↦
      let it : ok (record { capacity = n; is_open = true; values = [] }) ≡ ok c =
        rw some_room at made in
      ap (λ (b : Bounded). b.values) (sym (ok-inj it))
]

sends_law :
    (is_open room : Bool) (v : ℕ) (c : Bounded)
    → (send_by is_open room v c).1.values ≡ after_send ((send_by is_open room v c).0) v c.values
sends_law false room v c = refl
sends_law true false v c = refl
sends_law true true v c = refl

try_sends_law :
    (is_open room : Bool) (v : ℕ) (c : Bounded)
    → (try_send_by is_open room v c).1.values
      ≡ after_try_send ((try_send_by is_open room v c).0) v c.values
try_sends_law false room v c = refl
try_sends_law true false v c = refl
try_sends_law true true v c = refl

recvs_law :
    (is_open : Bool) (vs : List ℕ) (n : ℕ)
    → let c : Bounded = record { capacity = n; is_open = is_open; values = vs } in
      vs ≡ taken ((recv_by vs c).0) ((recv_by vs c).1.values)
recvs_law true [] n = refl
recvs_law false [] n = refl
recvs_law is_open (v ∷ vs) n = refl

try_recvs_law :
    (is_open : Bool) (vs : List ℕ) (n : ℕ)
    → let c : Bounded = record { capacity = n; is_open = is_open; values = vs } in
      vs ≡ try_taken ((try_recv_by vs c).0) ((try_recv_by vs c).1.values)
try_recvs_law is_open [] n = refl
try_recvs_law is_open (v ∷ vs) n = refl

nothing_law :
    (vs : List ℕ) (c : Bounded) (e : TryRecvError) → (try_recv_by vs c).0 ≡ inl e → vs ≡ []
nothing_law [] c e h = refl
nothing_law (v ∷ vs) c e h = cc

bounded-IsQueue : IsQueue bounded (λ c. c.values)
bounded-IsQueue = record {
  fresh = bounded_fresh;
  sends = λ v c. sends_law c.is_open (ltb (length c.values) c.capacity) v c;
  try_sends = λ v c. try_sends_law c.is_open (ltb (length c.values) c.capacity) v c;
  recvs = λ c. recvs_law c.is_open c.values c.capacity;
  try_recvs = λ c. try_recvs_law c.is_open c.values c.capacity;
  closes = λ c. refl;
  nothing = λ c. nothing_law c.values c;
}

abbrev one_place : List ℕ → Bounded
one_place vs = record { capacity = 1; is_open = true; values = vs }

-- The first end sends 5, is told that the pipe is full for 6, and the other end receives 5.
abbrev after_five : Log ℕ
after_five = record { sent = []; received = 5 ∷ []; peer_sent = 5 ∷ []; peer_received = [] }

abbrev drained : Pipe Bounded
drained = record { sender = one_place []; receiver = one_place [] }

five_received : Runs bounded after_five drained
unfolding pipe_new try_send try_recv try_sent_or try_received_or
five_received = try_recvs (turns (try_sends 6 (try_sends 5 (starts 1 (drained, drained) refl))))

Runs-Agrees_example :
    Agrees after_five [] []
    × ((e : HError)
        → (try_recv bounded drained).0 ≡ err e
        → after_five.peer_sent ≡ after_five.received)
Runs-Agrees_example =
    Runs-Agrees bounded (λ c. c.values) bounded-IsQueue after_five drained five_received
