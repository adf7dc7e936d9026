-- ===== src/Bootloader/Acquire/Contents.antt =====
-- What the results of `read_exact_and_check_eof` (crates/bootloader/src/lib.rs) say of the file, for a
-- reader that reads a file from its position on.
use unnamed_os_core.Common.{
  ℕ, zero, suc, ◌+◌, ◌≤◌, ◌<◌, ◌≡◌, refl, sym, ap, ◌∙◌, subst, ◌⊎◌, inl, inr, arith, true, false,
  ◌==◌, ok, err, Bool-cases, ==_iff, ltb, ltb→lt, Option, some, List, [], ◌∷◌, ◌++◌, length,
  length-append, length-take, take, drop, Result, Result-cases,
}
use mathlib.Core.List.{append_assoc, append-nil}
use unnamed_os_core.Common.Slices.{take-drop, take-all, length-drop}
use unnamed_os_core.Bootloader.Acquire.{
  ReadProgress, remaining, new_progress, record_bytes, finish, ByteReader, ExactReadError, source,
  short_read, extra_data, Reading, exact_error, record_result, read_loop, at_end, check_eof,
  read_exact_and_check_eof,
}
use unnamed_os_core.Bootloader.Acquire.Read.{
  record_result_lem, reply_of, filled, read_loop_complete, read_loop-fails, read_loop-goes_on,
  read_exact-check_eof, read_loop-ends,
}

-- A reader whose state has bytes left to read: a call that succeeds moves as many of them as it says
-- to the start of the buffer, keeps the buffer's length, and says 0 only if there are none left or the
-- buffer is empty.
pub record IsStream {S E : Type 0} (r : ByteReader S E) (left : S → List ℕ) : Type 0 where
  pub keeps_length : (s : S) (buffer : List ℕ) → length (r.read s buffer).buffer ≡ length buffer
  pub fits :
      (s : S) (buffer : List ℕ) (n : ℕ)
      → (r.read s buffer).result ≡ ok n
      → (n ≤ length buffer) × (n ≤ length (left s))
  pub moves :
      (s : S) (buffer : List ℕ) (n : ℕ)
      → (r.read s buffer).result ≡ ok n
      → (take n (r.read s buffer).buffer ≡ take n (left s))
        × (left (r.read s buffer).reader ≡ drop n (left s))
  pub ends :
      (s : S) (buffer : List ℕ)
      → (r.read s buffer).result ≡ ok 0
      → (length buffer ≡ 0) ⊎ (left s ≡ [])

-- What a result says of the contents that a buffer of this size was to get.
abbrev pub Means : {E A : Type 0} → List ℕ → ℕ → List ℕ → Result (ExactReadError E) A → Type 0
Means contents size buffer (ok _) = buffer ≡ contents
Means contents size buffer (err short_read) = length contents < size
Means contents size buffer (err extra_data) = size < length contents
Means contents size buffer (err (source e)) = Unit

-- What the rounds of the loop keep: the bytes that are completed are the first of the contents.
record IsReading {S : Type 0} (left : S → List ℕ) (contents : List ℕ) (size : ℕ) (s : S)
    (buffer : List ℕ) (p : ReadProgress) : Type 0 where
  sized : length buffer ≡ size
  expected : p.expected ≡ size
  within : p.completed ≤ size
  read : take p.completed buffer ++ left s ≡ contents

module _ {ℓ} {A : Type ℓ} where
  take-past : (n k : ℕ) (xs ys : List A) → k ≡ length xs + n → take k (xs ++ ys) ≡ xs ++ take n ys
  take-past n k [] ys h = let e : k ≡ n = omega (arith, h) in ap (λ i. take i ys) e
  take-past n zero (x ∷ xs) ys h = absurd (omega (arith, h))
  take-past n (suc k) (x ∷ xs) ys h = ap (λ l. x ∷ l) (take-past n k xs ys (omega (arith, h)))

some-injective {ℓ} : {A : Type ℓ} {x y : A} → ◌≡◌ {A = Option A} (some x) (some y) → x ≡ y
some-injective h = cc

-- What a result of a round's reply that is an error comes from.
abbrev Failed : {E : Type 0} → Result E ℕ → ReadProgress → ExactReadError E → Type 0
Failed result p error =
    ((e : _) × (error ≡ source e))
    ⊎ ((result ≡ ok 0) × (error ≡ short_read))
    ⊎ ((bytes : ℕ) × (result ≡ ok bytes) × (remaining p < bytes))

record_result_error :
    {E : Type 0} (result : Result E ℕ) (p : ReadProgress) (error : ExactReadError E)
    → (remaining p == 0) ≡ false
    → record_result result p ≡ err error
    → Failed result p error
unfolding record_result record_bytes exact_error
record_result_error (err e) p error more h = inl (e, cc)
record_result_error (ok bytes) p error more h = elim (Bool-cases (bytes == 0)) [
  | inl none_read ↦
      let failed : ◌≡◌ {A = Result (ExactReadError _) ReadProgress} (err short_read) (err error) =
        rw (none_read, more) at h in
      inr (inl (ap ok ((==_iff bytes 0).0 none_read), cc))
  | inr some_read ↦ elim (Bool-cases (ltb (remaining p) bytes)) [
    | inl many ↦ inr (inr (bytes, refl, ltb→lt (remaining p) bytes many))
    | inr few ↦ cc
  ]
]

module _ {S E : Type 0} (r : ByteReader S E) (left : S → List ℕ) (stream : IsStream r left)
    (contents : List ℕ) (size : ℕ) where
  IsReading-round :
      (s : S) (buffer : List ℕ) (p next : ReadProgress) (bytes : ℕ)
      → IsReading left contents size s buffer p
      → (reply_of r s buffer p).result ≡ ok bytes
      → next ≡ record p { completed = p.completed + bytes }
      → bytes ≤ remaining p
      → IsReading left contents size (reply_of r s buffer p).reader (filled r s buffer p) next
  IsReading-round s buffer p next bytes known replied same fits =
      let sized = known.sized in
      let expected = known.expected in
      let within = known.within in
      let (moved, rest) = stream.moves s (drop p.completed buffer) bytes replied in
      let kept = stream.keeps_length s (drop p.completed buffer) in
      let done : List ℕ = take p.completed buffer in
      let got : List ℕ = (reply_of r s buffer p).buffer in
      let done_length : length done ≡ p.completed =
        length-take p.completed buffer (omega (arith, sized, within)) in
      let more_length = length-drop p.completed buffer (omega (arith, sized, within)) in
      let total = length-append done got in
      subst (IsReading left contents size (reply_of r s buffer p).reader (filled r s buffer p))
        (sym same)
        (record {
          sized = omega (arith, total, kept, done_length, more_length, sized);
          expected = expected;
          within = omega (arith, fits, expected, within);
          read =
              ap (λ l. l ++ left (reply_of r s buffer p).reader)
                (take-past bytes (p.completed + bytes) done got (omega (arith, done_length))
                  ∙ ap (λ l. done ++ l) moved)
              ∙ ap (λ l. (done ++ take bytes (left s)) ++ l) rest
              ∙ append_assoc done (take bytes (left s)) (drop bytes (left s))
              ∙ ap (λ l. done ++ l) (take-drop bytes (left s))
              ∙ known.read;
        })

  -- What the loop leaves.
  abbrev LeftBy : S → List ℕ → Result (ExactReadError E) ReadProgress → Type 0
  LeftBy s buffer (ok p) = IsReading left contents size s buffer p × (remaining p ≡ 0)
  LeftBy s buffer (err short_read) = length contents < size
  LeftBy s buffer (err extra_data) = ⊥
  LeftBy s buffer (err (source e)) = Unit

  -- A round that fails: the reader's error, or the end of the contents.
  Failed-LeftBy :
      (s t : S) (buffer after : List ℕ) (p : ReadProgress) (error : ExactReadError E)
      → IsReading left contents size s buffer p
      → (remaining p == 0) ≡ false
      → Failed (reply_of r s buffer p).result p error
      → LeftBy t after (err error)
  Failed-LeftBy s t buffer after p error known more (inl (e, same)) =
      subst (λ x. LeftBy t after (err x)) (sym same) tt
  Failed-LeftBy s t buffer after p error known more (inr (inl (none_read, same))) =
      let sized = known.sized in
      let expected = known.expected in
      let within = known.within in
      let some_left : 0 < remaining p = ground (arith, more) in
      let rest_length = length-drop p.completed buffer (omega (arith, sized, within)) in
      elim (stream.ends s (drop p.completed buffer) none_read) [
        | inl empty_buffer ↦
            absurd (omega (arith, empty_buffer, rest_length, sized, expected, some_left))
        | inr nothing ↦
            let all : take p.completed buffer ++ [] ≡ contents =
              ap (λ l. take p.completed buffer ++ l) (sym nothing) ∙ known.read in
            let total = length-append (take p.completed buffer) [] in
            let part = length-take p.completed buffer (omega (arith, sized, within)) in
            let less : length (take p.completed buffer ++ []) < size =
              omega (arith, total, part, expected, some_left) in
            subst (λ x. LeftBy t after (err x)) (sym same) (subst (λ l. length l < size) all less)
      ]
  Failed-LeftBy s t buffer after p error known more (inr (inr (bytes, replied, many))) =
      let sized = known.sized in
      let expected = known.expected in
      let within = known.within in
      let rest_length = length-drop p.completed buffer (omega (arith, sized, within)) in
      let fits = (stream.fits s (drop p.completed buffer) bytes replied).0 in
      absurd (omega (arith, fits, many, rest_length, sized, expected))

  read_loop-LeftBy :
      (rounds : ℕ) (s : S) (buffer : List ℕ) (p : ReadProgress) (done : Reading S E ReadProgress)
      → IsReading left contents size s buffer p
      → read_loop r rounds s buffer p ≡ some done
      → LeftBy done.reader done.buffer done.result
  unfolding read_loop
  read_loop-LeftBy zero s buffer p done known h = cc
  read_loop-LeftBy (suc rounds) s buffer p done known h = elim (Bool-cases (remaining p == 0)) [
    | inl e ↦
        subst (λ d. LeftBy d.reader d.buffer d.result)
          (some-injective (sym (read_loop_complete r rounds s buffer p e) ∙ h))
          (known, (==_iff _ _).0 e)
    | inr e ↦ elim (Result-cases (record_result (reply_of r s buffer p).result p)) [
      | inr (error, failed) ↦
          subst (λ d. LeftBy d.reader d.buffer d.result)
            (some-injective (sym (read_loop-fails r rounds s buffer p error e failed) ∙ h))
            (Failed-LeftBy s (reply_of r s buffer p).reader buffer (filled r s buffer p) p error
              known e (record_result_error (reply_of r s buffer p).result p error e failed))
      | inl (next, recorded) ↦
          let (bytes, replied, same, _, fits) =
            record_result_lem r (reply_of r s buffer p).result p next e recorded in
          read_loop-LeftBy rounds (reply_of r s buffer p).reader (filled r s buffer p) next done
            (IsReading-round s buffer p next bytes known replied same fits)
            (sym (read_loop-goes_on r rounds s buffer p next e recorded) ∙ h)
    ]
  ]

  at_end-extra : (bytes : ℕ) → (bytes == 0) ≡ false → at_end {E = E} (ok bytes) ≡ err extra_data
  unfolding at_end
  at_end-extra bytes h = rw (h, at_end) refl

  check_eof_complete :
      (s : S) (buffer : List ℕ) (p : ReadProgress)
      → (p.completed == p.expected) ≡ true
      → check_eof r (record { reader = s; buffer = buffer; result = ok p }) ≡ record {
        reader = (r.read s (0 ∷ [])).reader;
        buffer = buffer;
        result = at_end (r.read s (0 ∷ [])).result;
      }
  unfolding check_eof finish
  check_eof_complete s buffer p h = rw (h, check_eof, finish) refl

  -- The read of one more byte behind a full buffer.
  at_end-Means :
      (s : S) (buffer : List ℕ)
      → length buffer ≡ size
      → buffer ++ left s ≡ contents
      → (result : Result E ℕ) → (r.read s (0 ∷ [])).result ≡ result
      → Means contents size buffer (at_end result)
  unfolding at_end
  at_end-Means s buffer sized known (err e) replied = tt
  at_end-Means s buffer sized known (ok bytes) replied =
      let total = length-append buffer (left s) in
      elim (Bool-cases (bytes == 0)) [
        | inl none_read ↦
            let nothing : left s ≡ [] =
              elim (stream.ends s (0 ∷ []) (replied ∙ ap ok ((==_iff bytes 0).0 none_read))) [
                | inl e ↦ absurd (omega (arith, e))
                | inr e ↦ e
              ] in
            let none : bytes ≡ 0 = (==_iff bytes 0).0 none_read in
            subst (λ n. Means {E = E} contents size buffer (at_end (ok n))) (sym none)
              (sym (append-nil buffer) ∙ ap (λ l. buffer ++ l) (sym nothing) ∙ known)
        | inr some_read ↦
            let fits = (stream.fits s (0 ∷ []) bytes replied).1 in
            let more : size < length (buffer ++ left s) = longer bytes some_read fits total sized in
            subst (Means contents size buffer) (sym (at_end-extra bytes some_read))
              (subst (λ l. size < length l) known more)
      ]
    where
      longer :
          (bytes : ℕ) {whole rest here size : ℕ}
          → (bytes == 0) ≡ false
          → bytes ≤ rest
          → whole ≡ here + rest
          → here ≡ size
          → size < whole
      longer bytes some_read fits total sized = ground (arith, some_read, fits, total, sized)

  check_eof-Means :
      (s : S) (buffer : List ℕ) (result : Result (ExactReadError E) ReadProgress)
      → LeftBy s buffer result
      → let done = check_eof r (record { reader = s; buffer = buffer; result = result }) in
        Means contents size done.buffer done.result
  unfolding check_eof finish
  check_eof-Means s buffer (err short_read) h = h
  check_eof-Means s buffer (err extra_data) h = absurd h
  check_eof-Means s buffer (err (source e)) h = tt
  check_eof-Means s buffer (ok p) (known, complete) =
      let expected = known.expected in
      let within = known.within in
      let sized = known.sized in
      let all : p.completed ≡ p.expected = omega (arith, complete, expected, within) in
      let same = (==_iff p.completed p.expected).1 all in
      let whole : take p.completed buffer ≡ buffer =
        ap (λ n. take n buffer) (all ∙ expected ∙ sym sized) ∙ take-all buffer in
      subst (λ d. Means contents size d.buffer d.result) (sym (check_eof_complete s buffer p same))
        (at_end-Means s buffer sized (ap (λ l. l ++ left s) (sym whole) ∙ known.read)
          (r.read s (0 ∷ [])).result refl)

  -- Over a reader that reads a file from its position on, the exact read gives a result within one
  -- round more than the buffer has bytes. If it succeeds, the buffer holds the bytes that were left of
  -- the file, all of them; if it reports a short read, there were fewer than the buffer has; if it
  -- reports extra data, there were more.
  pub read_exact_and_check_eof-Means :
      (rounds : ℕ) (s : S) (buffer : List ℕ)
      → left s ≡ contents
      → length buffer ≡ size
      → size < rounds
      → (done : Reading S E Unit) × (read_exact_and_check_eof r rounds s buffer ≡ some done)
        × Means contents size done.buffer done.result
  read_exact_and_check_eof-Means rounds s buffer starts sized enough =
      let p = new_progress (length buffer) in
      let (done, ended) = read_loop-ends r rounds s buffer p (omega (arith, sized, enough)) in
      (
        check_eof r done,
        read_exact-check_eof r rounds s buffer done ended,
        check_eof-Means done.reader done.buffer done.result (
            read_loop-LeftBy rounds s buffer p done
              (record { sized = sized; expected = sized; within = omega arith; read = starts })
              ended),
      )
