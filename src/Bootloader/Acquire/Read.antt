-- ===== src/Bootloader/Acquire/Read.antt =====
-- `read_exact_and_check_eof` of crates/bootloader/src/lib.rs: it ends, and what its results mean.
use unnamed_os_core.Common.{
  ℕ, zero, suc, ◌+◌, ◌≤◌, ◌<◌, ◌≡◌, refl, sym, ◌∙◌, subst, inl, inr, arith, true, false, ◌==◌, ok,
  err, >>=-eq-ok, map_err, map_err-eq-ok, Bool-cases, some, List, ◌++◌, length, take, drop, Result,
  Result-cases,
}
use unnamed_os_core.Bootloader.Acquire.{
  ReadProgress, remaining, new_progress, record_bytes, Reply, ByteReader, ExactReadError, source,
  Reading, exact_error, record_result, read_loop, check_eof, read_exact_and_check_eof,
}

-- A round that goes on has read the bytes it was told of, at least one and at most the rest.
record_bytes_lem :
    (p next : ReadProgress) (bytes : ℕ)
    → (remaining p == 0) ≡ false
    → record_bytes p bytes ≡ ok next
    → (next ≡ record p { completed = p.completed + bytes }) × (0 < bytes) × (bytes ≤ remaining p)
unfolding record_bytes
record_bytes_lem p next bytes more h = (ground arith, ground arith, ground arith)

module _ {S E : Type 0} (r : ByteReader S E) where
  pub record_result_lem :
      (result : Result E ℕ) (p next : ReadProgress)
      → (remaining p == 0) ≡ false
      → record_result result p ≡ ok next
      → (bytes : ℕ) × (result ≡ ok bytes)
        × (next ≡ record p { completed = p.completed + bytes })
        × (0 < bytes)
        × (bytes ≤ remaining p)
  unfolding record_result
  record_result_lem result p next more h =
      let (bytes, read, kept) = >>=-eq-ok (map_err source result) _ h in
      let (same, some_bytes, fits) =
        record_bytes_lem p next bytes more
          (map_err-eq-ok exact_error (record_bytes p bytes) kept) in
      (bytes, map_err-eq-ok source result read, same, some_bytes, fits)

  abbrev pub reply_of : S → List ℕ → ReadProgress → Reply S E
  reply_of s buffer p = r.read s (drop p.completed buffer)

  -- The buffer after a round.
  abbrev pub filled : S → List ℕ → ReadProgress → List ℕ
  filled s buffer p = take p.completed buffer ++ (reply_of s buffer p).buffer

  module _ (rounds : ℕ) (s : S) (buffer : List ℕ) (p : ReadProgress) where
    pub read_loop_complete :
        (remaining p == 0) ≡ true
        → read_loop r (suc rounds) s buffer p
          ≡ some (record { reader = s; buffer = buffer; result = ok p })
    unfolding read_loop
    read_loop_complete e = rw (e, read_loop) refl

    pub read_loop-fails :
        (error : ExactReadError E)
        → (remaining p == 0) ≡ false
        → record_result (reply_of s buffer p).result p ≡ err error
        → read_loop r (suc rounds) s buffer p
          ≡ some (record {
            reader = (reply_of s buffer p).reader;
            buffer = filled s buffer p;
            result = err error;
          })
    unfolding read_loop
    read_loop-fails error e failed = rw (e, read_loop, failed) refl

    pub read_loop-goes_on :
        (next : ReadProgress)
        → (remaining p == 0) ≡ false
        → record_result (reply_of s buffer p).result p ≡ ok next
        → read_loop r (suc rounds) s buffer p
          ≡ read_loop r rounds (reply_of s buffer p).reader (filled s buffer p) next
    unfolding read_loop
    read_loop-goes_on next e recorded = rw (e, read_loop, recorded) refl

  pub read_loop-ends :
      (rounds : ℕ) (s : S) (buffer : List ℕ) (p : ReadProgress)
      → remaining p < rounds
      → (done : Reading S E ReadProgress) × (read_loop r rounds s buffer p ≡ some done)
  read_loop-ends zero s buffer p enough = absurd (omega arith)
  read_loop-ends (suc rounds) s buffer p enough = elim (Bool-cases (remaining p == 0)) [
    | inl e ↦ (_, read_loop_complete rounds s buffer p e)
    | inr e ↦ elim (Result-cases (record_result (reply_of s buffer p).result p)) [
      | inr (error, failed) ↦ (_, read_loop-fails rounds s buffer p error e failed)
      | inl (next, recorded) ↦
          let (bytes, _, same, some_bytes, fits) =
            record_result_lem (reply_of s buffer p).result p next e recorded in
          let less = closer p next bytes rounds same some_bytes fits enough in
          let (done, ended) =
            read_loop-ends rounds (reply_of s buffer p).reader (filled s buffer p) next less in
          (done, read_loop-goes_on rounds s buffer p next e recorded ∙ ended)
    ]
  ]
    where
      closer :
          (p next : ReadProgress) (bytes rounds : ℕ)
          → next ≡ record p { completed = p.completed + bytes }
          → 0 < bytes
          → bytes ≤ remaining p
          → remaining p < suc rounds
          → remaining next < rounds
      closer p next bytes rounds same some_bytes fits enough =
          subst (λ n. remaining n < rounds) (sym same) (omega arith)

  pub read_exact-check_eof :
      (rounds : ℕ) (s : S) (buffer : List ℕ) (done : Reading S E ReadProgress)
      → read_loop r rounds s buffer (new_progress (length buffer)) ≡ some done
      → read_exact_and_check_eof r rounds s buffer ≡ some (check_eof r done)
  unfolding read_exact_and_check_eof
  read_exact-check_eof rounds s buffer done ended = rw (ended, read_exact_and_check_eof) refl

  -- Whatever the reader does, the exact read ends: rounds for each byte of the buffer and one more
  -- are enough for it to give a result.
  pub read_exact_and_check_eof-ends :
      (rounds : ℕ) (s : S) (buffer : List ℕ)
      → length buffer < rounds
      → (done : Reading S E Unit) × (read_exact_and_check_eof r rounds s buffer ≡ some done)
  read_exact_and_check_eof-ends rounds s buffer enough =
      let (done, ended) =
        read_loop-ends rounds s buffer (new_progress (length buffer)) (omega (arith, enough)) in
      (check_eof r done, read_exact-check_eof rounds s buffer done ended)
