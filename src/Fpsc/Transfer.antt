-- ===== src/Fpsc/Transfer.antt =====
-- A producer that writes what is left of its bytes until all are written (`produce_all`, by the
-- loop of `write_all`) and the loop of `consume_all` with a closure that keeps what it gets, on
-- one buffer. A task is polled while it is awake: a pending poll puts it to sleep until its waker
-- is woken. The two are polled in any order.
pub mod Good
pub mod Delivers
use history_chain.Base.{
  ℕ, zero, suc, ◌+◌, ◌<◌, Bytes, List, [], ◌∷◌, ◌++◌, ◌≡◌, some, Result, ok, length, drop, Bool,
  true, false, ◌||◌, ◌&&◌, add_u64,
}
use history_chain.Fpsc.Ringbuf.{
  Inner, Poll, pending, ready, BufState, writable, readable, write_finished, read_finished,
  poll_write, ringbuf_new,
}
use history_chain.Fpsc.Consumer.{Closure, consumer_poll}

pub data Party : Type 0 where
  producer consumer : Party

pub record Transfer : Type 0 where
  pub inner : Inner Party
  -- What is left to write, what the closure has kept, and the count of `consume_all`.
  pub rest : Bytes
  pub log : Bytes
  pub total : ℕ
  pub p_awake : Bool
  pub c_awake : Bool
  pub done : Bool

abbrev pub wakes_producer : List Party → Bool
wakes_producer [] = false
wakes_producer (producer ∷ ps) = true
wakes_producer (consumer ∷ ps) = wakes_producer ps

abbrev pub wakes_consumer : List Party → Bool
wakes_consumer [] = false
wakes_consumer (consumer ∷ ps) = true
wakes_consumer (producer ∷ ps) = wakes_consumer ps

abbrev pub is_ready : {A : Type 0} → Poll A → Bool
is_ready pending = false
is_ready (ready a) = true

abbrev pub count : Poll (Result ℕ) → ℕ
count (ready (ok n)) = n
count _ = 0

abbrev pub is_finished : BufState → Bool
is_finished read_finished = true
is_finished _ = false

abbrev pub collect : Closure Bytes
collect = record { call = λ log bytes. (ok tt, log ++ bytes, bytes) }

-- Both tasks are about to start.
unfoldable pub start_on : Inner Party → Bytes → Transfer
start_on inner source = record {
  inner = inner;
  rest = source;
  log = [];
  total = 0;
  p_awake = true;
  c_awake = true;
  done = false;
}

-- The same on a new buffer.
unfoldable pub start : ℕ → Bytes → Transfer
start capacity source = start_on (ringbuf_new capacity) source

unfoldable pub produce_step : Transfer → Transfer
produce_step s =
    let p = poll_write s.inner producer s.rest in
    record s {
      inner = p.inner;
      rest = drop (count p.poll) s.rest;
      p_awake = is_ready p.poll || wakes_producer p.woken;
      c_awake = s.c_awake || wakes_consumer p.woken;
    }

-- A round of the loop of `consume_all`.
unfoldable pub consume_step : Transfer → Transfer
consume_step s =
    let (p, log) = consumer_poll (some collect) s.inner s.log consumer in
    record s {
      inner = p.inner;
      log = log;
      total = add_u64 s.total (count p.poll);
      p_awake = s.p_awake || wakes_producer p.woken;
      c_awake = is_ready p.poll || wakes_consumer p.woken;
      done = is_ready p.poll && is_finished p.inner.state;
    }

pub data Step (s : Transfer) : Transfer → Type 0 where
  produces : s.p_awake ≡ true → 0 < length s.rest → Step s (produce_step s)
  consumes : s.c_awake ≡ true → s.done ≡ false → Step s (consume_step s)

-- So many steps lead from one state to the other.
pub data Run (s : Transfer) : ℕ → Transfer → Type 0 where
  unmoved : Run s 0 s
  moved : {n : ℕ} {t u : Transfer} → Run s n t → Step t u → Run s (suc n) u
