-- ===== src/Bootloader/Acquire/Tests.antt =====
-- Runs of crates/bootloader/src/lib.rs on a reader that gives a byte at a time.
use unnamed_os_core.Common.{
  ℕ, ◌≤◌, ◌<◌, ◌≡◌, refl, subst, ◌⊎◌, inl, inr, arith, Result, ok, err, some, List, [], ◌∷◌, length,
  take, drop,
}
use unnamed_os_core.Bootloader.Acquire.{
  Reply, ByteReader, Reading, checked_kernel_size, empty, too_large, read_exact_and_check_eof,
}
use unnamed_os_core.Bootloader.Acquire.Sizes.{IsKernelSize, pages_for_bytes-checked_kernel_size}
use unnamed_os_core.Bootloader.Acquire.Read.{read_exact_and_check_eof-ends}
use unnamed_os_core.Bootloader.Acquire.Contents.{IsStream, Means, read_exact_and_check_eof-Means}

abbrev size : ℕ
size = 5000

pages_for_bytes-checked_kernel_size_example :
    IsKernelSize size
    ⊎ (size ≡ 0) × (checked_kernel_size size ≡ err empty)
    ⊎ (16777216 < size) × (checked_kernel_size size ≡ err too_large)
pages_for_bytes-checked_kernel_size_example = pages_for_bytes-checked_kernel_size size

-- A file from its position on.
read_byte : List ℕ → List ℕ → Reply (List ℕ) ℕ
read_byte [] buffer = record { reader = []; buffer = buffer; result = ok 0 }
read_byte (x ∷ xs) [] = record { reader = x ∷ xs; buffer = []; result = ok 0 }
read_byte (x ∷ xs) (b ∷ bs) = record { reader = xs; buffer = x ∷ bs; result = ok 1 }

abbrev bytes_reader : ByteReader (List ℕ) ℕ
bytes_reader = record { read = read_byte }

count : {a b : ℕ} → ◌≡◌ {A = Result ℕ ℕ} (ok a) (ok b) → a ≡ b
count h = cc

read_byte-fits :
    (s buffer : List ℕ) (n : ℕ)
    → (read_byte s buffer).result ≡ ok n
    → (n ≤ length buffer) × (n ≤ length s)
unfolding read_byte
read_byte-fits [] buffer n h = let e = count h in (omega (arith, e), omega (arith, e))
read_byte-fits (x ∷ xs) [] n h = let e = count h in (omega (arith, e), omega (arith, e))
read_byte-fits (x ∷ xs) (b ∷ bs) n h = let e = count h in (omega (arith, e), omega (arith, e))

read_byte-moves :
    (s buffer : List ℕ) (n : ℕ)
    → (read_byte s buffer).result ≡ ok n
    → (take n (read_byte s buffer).buffer ≡ take n s) × ((read_byte s buffer).reader ≡ drop n s)
unfolding read_byte
read_byte-moves [] buffer n h =
    subst (λ k. (take k buffer ≡ take k []) × (◌≡◌ {A = List ℕ} [] (drop k []))) (count h)
      (refl, refl)
read_byte-moves (x ∷ xs) [] n h =
    subst (λ k. (take k [] ≡ take k (x ∷ xs)) × (x ∷ xs ≡ drop k (x ∷ xs))) (count h) (refl, refl)
read_byte-moves (x ∷ xs) (b ∷ bs) n h =
    subst (λ k. (take k (x ∷ bs) ≡ take k (x ∷ xs)) × (xs ≡ drop k (x ∷ xs))) (count h) (refl, refl)

bytes_reader-IsStream : IsStream bytes_reader (λ s. s)
unfolding read_byte
bytes_reader-IsStream = record {
  keeps_length = sized;
  fits = read_byte-fits;
  moves = read_byte-moves;
  ends = ending;
}
  where
    sized : (s buffer : List ℕ) → length (read_byte s buffer).buffer ≡ length buffer
    sized [] buffer = refl
    sized (x ∷ xs) [] = refl
    sized (x ∷ xs) (b ∷ bs) = refl

    ending :
        (s buffer : List ℕ) → (read_byte s buffer).result ≡ ok 0 → (length buffer ≡ 0) ⊎ (s ≡ [])
    ending [] buffer h = inr refl
    ending (x ∷ xs) [] h = inl refl
    ending (x ∷ xs) (b ∷ bs) h = absurd (let e = count h in omega (arith, e))

read_exact_and_check_eof-ends_example :
    (done : Reading (List ℕ) ℕ Unit) × (read_exact_and_check_eof bytes_reader 3
        (5 ∷ 6 ∷ [])
        (0 ∷ 0 ∷ [])
      ≡ some done)
read_exact_and_check_eof-ends_example =
    read_exact_and_check_eof-ends bytes_reader 3 (5 ∷ 6 ∷ []) (0 ∷ 0 ∷ []) (omega arith)

read_exact_and_check_eof-Means_example :
    (done : Reading (List ℕ) ℕ Unit) × (read_exact_and_check_eof bytes_reader 3
        (5 ∷ 6 ∷ [])
        (0 ∷ 0 ∷ [])
      ≡ some done)
    × Means (5 ∷ 6 ∷ []) 2 done.buffer done.result
read_exact_and_check_eof-Means_example =
    read_exact_and_check_eof-Means bytes_reader (λ s. s) bytes_reader-IsStream (5 ∷ 6 ∷ []) 2 3
      (5 ∷ 6 ∷ []) (0 ∷ 0 ∷ []) refl refl (omega arith)
