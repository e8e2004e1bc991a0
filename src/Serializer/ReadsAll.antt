-- ===== src/Serializer/ReadsAll.antt =====
-- `read_all_from_stream` and `decode_from_asyncread` of src/serializer.rs. `reads` is what the calls
-- of `read` return, in order, each at most as long as the buffer that it fills, up to the end of the
-- stream or an error, which end the loop alike.
pub mod Short
use history_chain.Base.{
  ℕ, suc, ◌+◌, ◌*◌, ◌<◌, ◌≤◌, Bytes, List, [], ◌∷◌, ◌++◌, ◌≡◌, ◌∙◌, refl, sym, ap, Option, some,
  Result, ok, err, panicked, ◌>>=◌, subst, false, le→ltb, length-replicate, arith, length, take,
  drop, replicate, ltb, lt→ltb, ◌==◌, if◌then◌else◌, All, length-append, length-take, length-drop,
  take-append_left, take-append_more, append_assoc, append-nil,
}
use history_chain.Serializer.{buffer_size, resize, decode_from_slice_with_header}

-- `buffer[total_size..total_size + nread].copy_from_slice(..)`
pub copy_at : ℕ → Bytes → Bytes → Bytes
copy_at total_size chunk buffer =
    take total_size buffer ++ (chunk ++ drop (total_size + length chunk) buffer)

-- The temporary buffer after a read.
pub filled : Bytes → Bytes → Bytes
filled chunk tmper_buffer = chunk ++ drop (length chunk) tmper_buffer

-- The variables of the loop.
pub record Reading : Type 0 where
  pub total_size : ℕ
  pub tmper_buffer : Bytes
  pub resize_time : ℕ
  pub buffer : Bytes

-- The end of a round, behind the branches: the read is put behind the buffer.
pub extend : ℕ → Reading → Result Reading
extend nread r =
    if ltb (length r.tmper_buffer) nread
    then panicked
    else ok (record r {
      total_size = r.total_size + nread;
      buffer = r.buffer ++ take nread r.tmper_buffer;
    })

-- The branches, once the temporary buffer is filled. The ranges of the copies are in their
-- vectors: the buffer is never shorter than what has been read.
pub fit : Bytes → Reading → Reading
unfolding copy_at resize
fit chunk r =
    let next = r.total_size + length chunk in
    if ltb next (length r.buffer)
    then record r { buffer = copy_at r.total_size chunk r.buffer }
    else if ltb (length r.buffer) next
    then record r {
      buffer = copy_at r.total_size chunk (r.buffer ++ r.tmper_buffer);
      tmper_buffer = resize (buffer_size * (r.resize_time + 1) * r.resize_time) r.tmper_buffer;
      resize_time = r.resize_time + 1;
    }
    else r

pub read_round : Bytes → Reading → Result Reading
unfolding fit extend filled
read_round chunk r =
    extend (length chunk) (fit chunk (record r { tmper_buffer = filled chunk r.tmper_buffer }))

pub read_loop : Reading → List Bytes → Result Reading
unfolding read_round
read_loop r [] = ok r
read_loop r (chunk ∷ reads) =
    if length chunk == 0 then ok r else read_round chunk r >>= λ r'. read_loop r' reads

-- The size and the buffer.
pub read_all_from_stream : Bytes → List Bytes → Result (ℕ × Bytes)
unfolding read_loop
read_all_from_stream buffer reads = do
  r ←
      read_loop
        (record {
          total_size = 0;
          tmper_buffer = replicate buffer_size 0;
          resize_time = 0;
          buffer = buffer;
        })
        reads
  ok (r.total_size, r.buffer)

module _ {D : Type 0} (decode : Bytes → Option D) where
  -- The buffer that a panic leaves is not read again.
  pub decode_read : Bytes → Result (ℕ × Bytes) → Option (Result (List D)) × Bytes
  decode_read buffer (ok (nread, buffer')) =
      (decode_from_slice_with_header decode (take nread buffer'), buffer')
  decode_read buffer (err e) = (some (err e), buffer)
  decode_read buffer panicked = (some panicked, buffer)

  pub decode_from_asyncread : Bytes → List Bytes → Option (Result (List D)) × Bytes
  unfolding decode_read read_all_from_stream
  decode_from_asyncread buffer reads = decode_read buffer (read_all_from_stream buffer reads)
