-- ===== src/Serializer/ReadsAll/Short.antt =====
-- What `read_all_from_stream` of src/serializer.rs has read, from reads shorter than the buffer, and
-- from one that fills it.
use history_chain.Base.{
  joined, ℕ, ◌+◌, ◌<◌, ◌≤◌, Bytes, List, [], ◌∷◌, ◌++◌, ◌≡◌, ◌∙◌, refl, sym, ap, Option, ok, subst,
  false, le→ltb, length-replicate, arith, length, take, drop, replicate, lt→ltb, ◌==◌, All,
  length-append, length-take, length-drop, take-append_left, take-append_more, append_assoc,
  append-nil,
}
use history_chain.Serializer.{buffer_size, decode_from_slice_with_header}
use history_chain.Serializer.ReadsAll.{
  Reading, copy_at, filled, extend, fit, read_round, read_loop, read_all_from_stream, decode_read,
  decode_from_asyncread,
}

-- A read of something, of fewer bytes than the buffer had at first.
abbrev pub IsShort : ℕ → Bytes → Type 0
IsShort size chunk = (0 < length chunk) × (length chunk < size) × (length chunk ≤ buffer_size)

-- The bytes read so far are at the buffer's front, which has as many bytes as at first behind.
record IsReading (size : ℕ) (r : Reading) (bytes : Bytes) : Type 0 where
  total : r.total_size ≡ length bytes
  long : length r.buffer ≡ size + r.total_size
  spare : length r.tmper_buffer ≡ buffer_size
  front : take r.total_size r.buffer ≡ bytes

start-IsReading :
    (buffer : Bytes)
    → IsReading
        (length buffer)
        (record {
          total_size = 0;
          tmper_buffer = replicate buffer_size 0;
          resize_time = 0;
          buffer = buffer;
        })
        []
start-IsReading buffer = record {
  total = refl;
  long = omega arith;
  spare = length-replicate {A = ℕ} 131072 0;
  front = refl;
}

nonzero : (n : ℕ) → 0 < n → (n == 0) ≡ false
nonzero n h = ground arith

-- A short read takes the first branch.
read_round-IsReading :
    (size : ℕ) (chunk : Bytes) (r : Reading) (bytes : Bytes)
    → IsReading size r bytes
    → IsShort size chunk
    → (r' : Reading) × (read_round chunk r ≡ ok r') × IsReading size r' (bytes ++ chunk)
unfolding read_round fit extend filled copy_at
read_round-IsReading size chunk r bytes i (some_read, short, fits) =
    let n = length chunk in
    let total = i.total in
    let long = i.long in
    let spare = i.spare in
    let tmper = chunk ++ drop n r.tmper_buffer in
    let front = take r.total_size r.buffer in
    let behind = chunk ++ drop (r.total_size + n) r.buffer in
    let wide : length tmper ≡ buffer_size =
      omega (arith, length-append chunk (drop n r.tmper_buffer), length-drop n r.tmper_buffer) in
    let same : take n tmper ≡ chunk = take-append_left n chunk (drop n r.tmper_buffer) refl in
    let sized = length-take r.total_size r.buffer in
    (
      record r {
        total_size = r.total_size + n;
        tmper_buffer = tmper;
        buffer = (front ++ behind) ++ chunk;
      },
      rw
          (
            lt→ltb (r.total_size + n) (length r.buffer) (omega arith),
            le→ltb (length tmper) n (omega arith),
            same,
          )
          refl,
      record {
        total = omega (arith, length-append bytes chunk);
        long = omega (
          arith,
          length-append (front ++ behind) chunk,
          length-append front behind,
          length-append chunk (drop (r.total_size + n) r.buffer),
          length-drop (r.total_size + n) r.buffer,
          sized,
        );
        spare = wide;
        front =
            ap (take (r.total_size + n)) (append_assoc front behind chunk)
            ∙ (take-append_more (r.total_size + n) n front (behind ++ chunk) (omega (arith, sized))
                ∙ (ap (λ l. front ++ take n l)
                      (append_assoc chunk (drop (r.total_size + n) r.buffer) chunk)
                    ∙ (ap (λ l. front ++ l) (take-append_left n chunk _ refl)
                        ∙ ap (λ l. l ++ chunk) i.front)));
      },
    )

read_loop-IsReading :
    (size : ℕ) (reads : List Bytes) (r : Reading) (bytes : Bytes)
    → IsReading size r bytes
    → All (IsShort size) reads
    → (r' : Reading) × (read_loop r reads ≡ ok r') × IsReading size r' (bytes ++ joined reads)
unfolding read_loop joined
read_loop-IsReading size [] r bytes i short =
    (r, refl, subst (IsReading size r) (sym (append-nil bytes)) i)
read_loop-IsReading size (chunk ∷ reads) r bytes i (one, short) =
    let (r', round, i') = read_round-IsReading size chunk r bytes i one in
    let (r'', loop, i'') = read_loop-IsReading size reads r' (bytes ++ chunk) i' short in
    (
      r'',
      rw (nonzero (length chunk) (one.0), round) loop,
      subst (IsReading size r'') (append_assoc bytes chunk (joined reads)) i'',
    )

-- If every read is shorter than the buffer was, the buffer holds at its front what was read.
read_all_from_stream-short :
    (buffer : Bytes) (reads : List Bytes)
    → All (IsShort (length buffer)) reads
    → (n : ℕ) × (buffer' : Bytes) × (read_all_from_stream buffer reads ≡ ok (n, buffer'))
      × (take n buffer' ≡ joined reads)
unfolding read_all_from_stream
read_all_from_stream-short buffer reads short =
    let (r, loop, i) =
      read_loop-IsReading (length buffer) reads _ [] (start-IsReading buffer) short in
    (r.total_size, r.buffer, rw loop refl, i.front)

pub decode_from_asyncread-short :
    {D : Type 0} (decode : Bytes → Option D) (buffer : Bytes) (reads : List Bytes)
    → All (IsShort (length buffer)) reads
    → (decode_from_asyncread decode buffer reads).0
      ≡ decode_from_slice_with_header decode (joined reads)
unfolding decode_from_asyncread decode_read
decode_from_asyncread-short decode buffer reads short =
    let (n, buffer', done, front) = read_all_from_stream-short buffer reads short in
    rw (done, decode_read) (ap (decode_from_slice_with_header decode) front)

abbrev starting : Bytes → Reading
starting buffer = record {
  total_size = 0;
  tmper_buffer = replicate buffer_size 0;
  resize_time = 0;
  buffer = buffer;
}

read_round-full :
    (buffer chunk : Bytes)
    → length chunk ≡ length buffer
    → length chunk ≤ buffer_size
    → read_round chunk (starting buffer)
      ≡ ok (record {
        total_size = 0 + length chunk;
        tmper_buffer = chunk ++ drop (length chunk) (replicate buffer_size 0);
        resize_time = 0;
        buffer = buffer ++ chunk;
      })
unfolding read_round fit extend filled
read_round-full buffer chunk full fits =
    let n = length chunk in
    let rest : Bytes = drop n (replicate buffer_size 0) in
    let same : take n (chunk ++ rest) ≡ chunk = take-append_left n chunk rest refl in
    rw
      (
        le→ltb (0 + n) (length buffer) (omega arith),
        le→ltb (length buffer) (0 + n) (omega arith),
        le→ltb (length (chunk ++ rest)) n (omega (arith, length-append chunk rest)),
        same,
      )
      refl

-- Where the stream's only read is of as many bytes as the buffer has, and of at least one and at
-- most 131072, `read_all_from_stream` returns their number, but its buffer is the old one with the
-- bytes behind it.
read_all_from_stream-full :
    (buffer chunk : Bytes)
    → 0 < length chunk
    → length chunk ≡ length buffer
    → length chunk ≤ buffer_size
    → read_all_from_stream buffer (chunk ∷ []) ≡ ok (length chunk, buffer ++ chunk)
unfolding read_all_from_stream read_loop
read_all_from_stream-full buffer chunk some_read full fits =
    let plain : 0 + length chunk ≡ length chunk = omega arith in
    rw (nonzero (length chunk) some_read, read_round-full buffer chunk full fits)
      (ap (λ n. ok (n, buffer ++ chunk)) plain)
