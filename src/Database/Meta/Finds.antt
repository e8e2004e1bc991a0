-- ===== src/Database/Meta/Finds.antt =====
-- `find_meta` ends, and keeps what it has cached.
use history_chain.Base.{
  ℕ, zero, suc, ◌≤◌, ◌<◌, Bytes, [], ◌∷◌, ◌≡◌, ◌≢◌, ◌∙◌, refl, sym, ap, Option, none, some, Result,
  ok, err, panicked, >>=-eq-ok, ok-inj, arith, length, drop, ltb, ◌==◌, Bool-cases, false, inl, inr,
  length-drop, from_be,
}
use history_chain.Base.ByteDict.{ByteDict, get}
use history_chain.Protocol.{Bincode, Reader}
use history_chain.Protocol.Streams.{IsReader}
use history_chain.Database.Meta.{
  MetaData, MetaDataIterator, iterator_new, decode_from, get_one_meta_from_file, next, next_of,
  gather, gather_round, find_meta,
}

not_empty : (n : ℕ) → (suc n == 0) ≡ false
not_empty n = ground arith

module _ {reader : Reader Bytes} (law : IsReader reader (λ s. s)) where
  reader-eq-ok :
      (n : ℕ) (s b s' : Bytes) → reader n s ≡ ok (b, s') → (n ≤ length s) × (s' ≡ drop n s)
  reader-eq-ok n s b s' h = elim (Bool-cases (ltb (length s) n)) [
    | inl few ↦ let fewer : length s < n = ground arith in let bad = law.ends n s fewer in cc
    | inr many ↦
        let enough : n ≤ length s = ground arith in
        let (s'', did, left) = law.reads n s enough in
        let same : s'' ≡ s' = cc in (enough, sym same ∙ left)
  ]

  module _ (m : Bincode MetaData) where
    get_one_meta_from_file-shorter :
        (s s' : Bytes) (meta : MetaData) (size : ℕ)
        → get_one_meta_from_file m reader s ≡ ok ((meta, size), s')
        → length s' < length s
    unfolding get_one_meta_from_file
    get_one_meta_from_file-shorter s s' meta size h =
        let ((b, t), got, h') = >>=-eq-ok (reader 4 s) _ h in
        let ((b', t'), got', h'') = >>=-eq-ok (reader _ t) _ h' in
        let (meta', _, last) = >>=-eq-ok (decode_from m b') _ h'' in
        let (enough, left) = reader-eq-ok 4 s b t got in
        let (_, left') = reader-eq-ok _ t b' t' got' in
        let same : t' ≡ s' = ap (λ r. r.1) (ok-inj last) in
        omega (
          arith,
          ap length left ∙ length-drop 4 s,
          ap length left' ∙ length-drop (from_be 0 b) t,
          ap length same,
        )

    next_of-eq :
        (it it' : MetaDataIterator) (meta : MetaData) (r : Result ((MetaData × ℕ) × Bytes))
        → next_of m reader it r ≡ (ok meta, it')
        → (size : ℕ) × (r ≡ ok ((meta, size), it'.file_stream))
    unfolding next_of
    next_of-eq it it' meta (ok ((meta', size), s)) h = (size, cc)
    next_of-eq it it' meta (err e) h = cc
    next_of-eq it it' meta panicked h = cc

    -- A round's success consumes bytes of the file.
    next-shorter :
        (it it' : MetaDataIterator) (meta : MetaData)
        → next m reader it ≡ some (ok meta, it')
        → length it'.file_stream < length it.file_stream
    unfolding next
    next-shorter it it' meta h = elim (Bool-cases (it.current_pos == it.end_pos)) [
      | inl e ↦ cc
      | inr e ↦
          let did : next_of m reader it (get_one_meta_from_file m reader it.file_stream)
              ≡ (ok meta, it') =
            cc in
          let (size, got) = next_of-eq it it' meta _ did in
          get_one_meta_from_file-shorter it.file_stream it'.file_stream meta size got
    ]

    gather_round-some :
        (uuid : Bytes) (o : Option (Result MetaData × MetaDataIterator)) (result : Option MetaData)
        (list : ByteDict MetaData)
        (rest : MetaDataIterator
          → Option MetaData
          → ByteDict MetaData
          → Option (Option MetaData × ByteDict MetaData))
        → ((it : MetaDataIterator) (meta : MetaData) (result' : Option MetaData)
              (list' : ByteDict MetaData)
            → o ≡ some (ok meta, it)
            → rest it result' list' ≢ none)
        → gather_round uuid o result list rest ≢ none
    unfolding gather_round
    gather_round-some uuid none result list rest h = λ p. cc
    gather_round-some uuid (some (ok meta, it)) result list rest h = h it meta _ _ refl
    gather_round-some uuid (some (err e, it)) result list rest h = λ p. cc
    gather_round-some uuid (some (panicked, it)) result list rest h = λ p. cc

    gather-some :
        (fuel : ℕ) (uuid : Bytes) (it : MetaDataIterator) (result : Option MetaData)
        (list : ByteDict MetaData)
        → length it.file_stream < fuel
        → gather m reader fuel uuid it result list ≢ none
    unfolding gather
    gather-some zero uuid it result list enough = absurd (omega arith)
    gather-some (suc fuel) uuid it result list enough =
        gather_round-some uuid (next m reader it) result list _ (λ it' meta result' list' got.
          let shorter = next-shorter it it' meta got in
          gather-some fuel uuid it' result' list' (omega arith))

    find_meta-ends :
        (file : Result Bytes) (uuid : Bytes) (list : ByteDict MetaData)
        → find_meta m reader file uuid list ≢ none
    unfolding find_meta
    find_meta-ends (ok file) uuid [] =
        gather-some (suc (length file)) uuid (iterator_new file) none [] (omega arith)
    find_meta-ends (ok file) uuid (x ∷ list) = rw (not_empty (length list)) (λ p. cc)
    find_meta-ends (err e) uuid [] = λ p. cc
    find_meta-ends (err e) uuid (x ∷ list) = λ p. cc
    find_meta-ends panicked uuid [] = λ p. cc
    find_meta-ends panicked uuid (x ∷ list) = λ p. cc

    find_meta-cached :
        (file : Result Bytes) (uuid : Bytes) (list : ByteDict MetaData)
        → list ≢ []
        → find_meta m reader file uuid list ≡ some (get uuid list, list)
    unfolding find_meta
    find_meta-cached file uuid [] h = absurd (h refl)
    find_meta-cached (ok file) uuid (x ∷ list) h = rw (not_empty (length list)) refl
    find_meta-cached (err e) uuid (x ∷ list) h = rw (not_empty (length list)) refl
    find_meta-cached panicked uuid (x ∷ list) h = rw (not_empty (length list)) refl

    -- Over a reader of files, `find_meta` ends on every file of metadata, damaged ones included, and
    -- on every cache; with a cache that is not empty it answers from the cache and leaves it as it
    -- is, whatever the file holds by now.
    pub find_meta-some :
        (file : Result Bytes) (uuid : Bytes) (list : ByteDict MetaData)
        → (find_meta m reader file uuid list ≢ none)
          × (list ≢ [] → find_meta m reader file uuid list ≡ some (get uuid list, list))
    find_meta-some file uuid list = (find_meta-ends file uuid list, find_meta-cached file uuid list)
