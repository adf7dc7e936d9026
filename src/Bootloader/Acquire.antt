-- ===== src/Bootloader/Acquire.antt =====
-- Acquiring the staged kernel: the size checks, the exact read and the page lease of
-- crates/bootloader/src/lib.rs. Files and readers belong to the firmware: they are parameters, with
-- a state that each call may change. `usize` has 64 bits, so that its conversions succeed.
pub mod Read
pub mod Contents
mod Tests
pub mod Sizes
use unnamed_os_core.Common.{
  ℕ, zero, suc, ◌+◌, ◌-◌, ◌*◌, ◌/◌, Bool, true, false, not, ◌&&◌, ltb, ◌==◌, if◌then◌else◌, Result,
  ok, err, ◌>>=◌, ◌>>◌, reject_if, ok_or, map_err, checked_add, Option, some, none, List, [], ◌∷◌,
  ◌++◌, length, take, drop,
}

abbrev pub max_kernel_bytes : ℕ
max_kernel_bytes = 16 * 1024 * 1024

abbrev pub uefi_page_size : ℕ
uefi_page_size = 4096

pub data SizeError : Type 0 where
  empty too_large address_space_overflow page_count_overflow : SizeError

unfoldable pub checked_kernel_size : ℕ → Result SizeError ℕ
checked_kernel_size size = do
  reject_if (size == 0) empty
  reject_if (ltb max_kernel_bytes size) too_large
  ok size

unfoldable pub pages_for_bytes : ℕ → Result SizeError ℕ
pages_for_bytes bytes = do
  reject_if (bytes == 0) empty
  rounded ← ok_or (checked_add bytes (uefi_page_size - 1)) page_count_overflow
  ok (rounded / uefi_page_size)

pub record PositionedFile (S E : Type 0) : Type 0 where
  pub seek_to_end : S → S × Result E (Unit {0})
  pub position : S → S × Result E ℕ
  pub rewind : S → S × Result E (Unit {0})

pub data MeasureError (E : Type 0) : Type 0 where
  seek_error position_error rewind_error : E → MeasureError E
  size_error : SizeError → MeasureError E

unfoldable pub measure_and_rewind :
    {S E : Type 0} → PositionedFile S E → S → S × Result (MeasureError E) ℕ
measure_and_rewind file s =
    let sought = file.seek_to_end s in
    elim (sought.1) [
      | err e ↦ (sought.0, err (seek_error e))
      | ok _ ↦
          let placed = file.position sought.0 in
          elim (placed.1) [
            | err e ↦ (placed.0, err (position_error e))
            | ok length ↦
                let rewound = file.rewind placed.0 in
                elim (rewound.1) [
                  | err e ↦ (rewound.0, err (rewind_error e))
                  | ok _ ↦ (rewound.0, map_err size_error (checked_kernel_size length))
                ]
          ]
    ]

pub data ReadError : Type 0 where
  short too_many : ReadError

pub record ReadProgress : Type 0 where
  pub expected : ℕ
  pub completed : ℕ

abbrev pub new_progress : ℕ → ReadProgress
new_progress expected = record { expected = expected; completed = 0 }

-- `completed` is at most `expected`, so that nothing is cut off.
abbrev pub remaining : ReadProgress → ℕ
remaining p = p.expected - p.completed

-- `ReadProgress::record`
unfoldable pub record_bytes : ReadProgress → ℕ → Result ReadError ReadProgress
record_bytes p bytes = do
  reject_if (bytes == 0 && not (remaining p == 0)) short
  reject_if (ltb (remaining p) bytes) too_many
  ok (record p { completed = p.completed + bytes })

unfoldable pub finish : ReadProgress → Result ReadError (Unit {0})
finish p = if p.completed == p.expected then ok tt else err short

-- What a call of `read` leaves: the reader, the buffer, and the number of bytes or an error.
pub record Reply (S E : Type 0) : Type 0 where
  pub reader : S
  pub buffer : List ℕ
  pub result : Result E ℕ

pub record ByteReader (S E : Type 0) : Type 0 where
  pub read : S → List ℕ → Reply S E

pub data ExactReadError (E : Type 0) : Type 0 where
  source : E → ExactReadError E
  short_read extra_data : ExactReadError E

pub record Reading (S E A : Type 0) : Type 0 where
  pub reader : S
  pub buffer : List ℕ
  pub result : Result (ExactReadError E) A

unfoldable pub exact_error : {E : Type 0} → ReadError → ExactReadError E
exact_error short = short_read
exact_error too_many = extra_data

unfoldable pub record_result :
    {E : Type 0} → Result E ℕ → ReadProgress → Result (ExactReadError E) ReadProgress
record_result result p = do
  bytes ← map_err source result
  map_err exact_error (record_bytes p bytes)

unfoldable pub at_end : {E : Type 0} → Result E ℕ → Result (ExactReadError E) (Unit {0})
at_end (err e) = err (source e)
at_end (ok bytes) = if bytes == 0 then ok tt else err extra_data

module _ {S E : Type 0} where
  -- The loop, with the rounds that are allowed; none when they do not suffice.
  unfoldable pub read_loop :
      ByteReader S E → ℕ → S → List ℕ → ReadProgress → Option (Reading S E ReadProgress)
  read_loop r zero s buffer p = none
  read_loop r (suc rounds) s buffer p = elim (remaining p == 0) [
    | true ↦ some (record { reader = s; buffer = buffer; result = ok p })
    | false ↦
        let reply = r.read s (drop p.completed buffer) in
        let filled = take p.completed buffer ++ reply.buffer in
        elim (record_result reply.result p) [
          | err e ↦ some (record { reader = reply.reader; buffer = filled; result = err e })
          | ok next ↦ read_loop r rounds reply.reader filled next
        ]
  ]

  -- What follows the loop.
  unfoldable pub check_eof : ByteReader S E → Reading S E ReadProgress → Reading S E (Unit {0})
  check_eof r done = elim (done.result) [
    | err e ↦ record { reader = done.reader; buffer = done.buffer; result = err e }
    | ok p ↦ elim (finish p) [
      | err _ ↦ record { reader = done.reader; buffer = done.buffer; result = err short_read }
      | ok _ ↦
          let reply = r.read done.reader (0 ∷ []) in
          record { reader = reply.reader; buffer = done.buffer; result = at_end reply.result }
    ]
  ]

  unfoldable pub read_exact_and_check_eof :
      ByteReader S E → ℕ → S → List ℕ → Option (Reading S E (Unit {0}))
  read_exact_and_check_eof r rounds s buffer =
      elim (read_loop r rounds s buffer (new_progress (length buffer))) [
        | none ↦ none
        | some done ↦ some (check_eof r done)
      ]

pub data LeaseError : Type 0 where
  not_owned : LeaseError

pub record PageLeaseState : Type 0 where
  pub owned : Bool

abbrev pub acquired : PageLeaseState
acquired = record { owned = true }

-- An error leaves the lease as it was.
unfoldable pub begin_release : PageLeaseState → Result LeaseError PageLeaseState
begin_release lease = do reject_if (not lease.owned) not_owned; ok (record { owned = false })

unfoldable pub acquire_with : {T E : Type 0} → Result E T → Result E (T × PageLeaseState)
acquire_with allocation = allocation >>= λ t. ok (t, acquired)

unfoldable pub finalize_with_release :
    {T E : Type 0} → Result E T → Result E (Unit {0}) → Result E T
finalize_with_release operation release = release >> operation
