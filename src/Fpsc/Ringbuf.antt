-- ===== src/Fpsc/Ringbuf.antt =====
-- src/fpsc/ringbuf.rs: the shared buffer, its states, and what a write and a read do to it. A
-- poll returns what the caller sees, the buffer after it, and the wakers that it woke.
use history_chain.Base.{
  ℕ, ◌-◌, min, Bytes, List, [], ◌∷◌, ◌++◌, Option, none, some, Result, ok, err, panicked, HError,
  length, take, ltb, ◌==◌, if◌then◌else◌, add_u64, sub_u64,
}

pub data BufState : Type 0 where
  writable readable write_finished read_finished : BufState

-- `std::task::Poll`
pub data Poll (A : Type 0) : Type 0 where
  pending : Poll A
  ready : A → Poll A

-- `W` is the type of the wakers. `capacity` is that of `buf`, which never reallocates, since no
-- more than the capacity is written to it.
pub record Inner (W : Type 0) : Type 0 where
  pub buf : Bytes
  pub capacity : ℕ
  pub state : BufState
  pub counter : ℕ
  pub w_waker : Option W
  pub r_waker : Option W

pub record Polled (W A : Type 0) : Type 0 where
  pub poll : Poll A
  pub inner : Inner W
  pub woken : List W

-- `tokio::io::ReadBuf`: what is filled already, in a buffer of a fixed size.
pub record ReadBuf : Type 0 where
  pub filled : Bytes
  pub room : ℕ

-- `ReadBuf::put_slice`, which panics where the bytes do not fit.
pub put_slice : ReadBuf → Bytes → Result ReadBuf
put_slice b bytes =
    if ltb (b.room - length b.filled) (length bytes)
    then panicked
    else ok (record { filled = b.filled ++ bytes; room = b.room })

-- An `io::Error` is `HError.io` wherever it goes.
abbrev pub too_small : HError
too_small = HError.io

module _ {W : Type 0} where
  unfoldable pub inner_new : ℕ → Inner W
  inner_new capacity = record {
    buf = [];
    capacity = capacity;
    state = writable;
    counter = 1;
    w_waker = none;
    r_waker = none;
  }

  abbrev pub set_buf_state : Inner W → BufState → Inner W
  set_buf_state i s = record i { state = s }

  -- The waker taken is woken.
  unfoldable pub wakes : Option W → List W
  wakes none = []
  wakes (some w) = w ∷ []

  -- `wake_writer`, then `Poll::Ready(a)`.
  unfoldable pub wake_writer : {A : Type 0} → Inner W → A → Polled W A
  wake_writer i a = record {
    poll = ready a;
    inner = record i { w_waker = none };
    woken = wakes i.w_waker;
  }

  -- `wake_reader`, then `Poll::Ready(a)`.
  unfoldable pub wake_reader : {A : Type 0} → Inner W → A → Polled W A
  wake_reader i a = record {
    poll = ready a;
    inner = record i { r_waker = none };
    woken = wakes i.r_waker;
  }

  -- `writer_waker_save`, then `Poll::Pending`.
  unfoldable pub writer_waker_save : {A : Type 0} → Inner W → W → Polled W A
  writer_waker_save i w = record {
    poll = pending;
    inner = record i { w_waker = some w };
    woken = [];
  }

  -- `reader_waker_save`, then `Poll::Pending`.
  unfoldable pub reader_waker_save : {A : Type 0} → Inner W → W → Polled W A
  reader_waker_save i w = record {
    poll = pending;
    inner = record i { r_waker = some w };
    woken = [];
  }

  -- No waker is touched: `Poll::Ready(a)`.
  unfoldable pub quiet : {A : Type 0} → Inner W → A → Polled W A
  quiet i a = record { poll = ready a; inner = i; woken = [] }

  unfoldable pub reuse : Inner W → Inner W
  reuse i = record i { buf = []; state = writable }

  unfoldable pub write_in : BufState → Inner W → W → Bytes → Polled W (Result ℕ)
  unfolding wake_reader writer_waker_save
  write_in writable i w source =
      let nwrite = min i.capacity (length source) in
      let next = if nwrite == length source then write_finished else readable in
      wake_reader (record i { buf = take nwrite source; state = next }) (ok nwrite)
  write_in readable i w source = writer_waker_save i w
  write_in write_finished i w source = wake_reader i (ok 0)
  write_in read_finished i w source = wake_reader i (ok 0)

  unfoldable pub poll_write : Inner W → W → Bytes → Polled W (Result ℕ)
  unfolding write_in
  poll_write i w source = write_in i.state i w source

  -- The end of a read that has copied the data.
  unfoldable pub read_end : BufState → Inner W → ReadBuf → Polled W (Result ReadBuf)
  read_end readable i b = wake_writer (set_buf_state i writable) (ok b)
  read_end writable i b = wake_writer (set_buf_state i writable) (ok b)
  read_end write_finished i b = quiet (record i { buf = [] }) (ok b)
  read_end read_finished i b = quiet (record i { buf = [] }) (ok b)

  unfoldable pub copy_end : Result ReadBuf → BufState → Inner W → Polled W (Result ReadBuf)
  unfolding read_end
  copy_end (ok b) s i = read_end s i b
  copy_end (err e) s i = quiet i (err e)
  copy_end panicked s i = quiet i panicked

  unfoldable pub read_in : BufState → Inner W → ReadBuf → Polled W (Result ReadBuf)
  unfolding copy_end
  read_in s i b =
      let total = length i.buf in
      let nread = min total b.room in
      if ltb nread total
      then quiet i (err too_small)
      else copy_end (put_slice b (take nread i.buf)) s i

  -- `poll_read`; the filled buffer is part of what it returns.
  unfoldable pub poll_read : Inner W → W → ReadBuf → Polled W (Result ReadBuf)
  unfolding read_in
  poll_read i w b = elim i.state [ writable ↦ reader_waker_save i w | s ↦ read_in s i b ]

  -- `BufPtr::clone`
  unfoldable pub clone_handle : Inner W → Inner W
  clone_handle i = record i { counter = add_u64 i.counter 1 }

  -- `Ringbuf::new`: what the writer and the reader share.
  unfoldable pub ringbuf_new : ℕ → Inner W
  ringbuf_new capacity = clone_handle (inner_new capacity)

  -- `Ringbuf::drop`; `none` once the buffer is freed.
  unfoldable pub drop_handle : Inner W → Option (Inner W)
  drop_handle i = if i.counter == 1 then none else some (record i { counter = sub_u64 i.counter 1 })
