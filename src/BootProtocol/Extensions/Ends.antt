-- ===== src/BootProtocol/Extensions/Ends.antt =====
-- `validate_extension_area` (crates/boot-protocol/src/extensions.rs) ends on every input, and none of
-- its reads is out of bounds.
use unnamed_os_core.Common.{
  ℕ, zero, suc, ◌+◌, ◌-◌, ◌*◌, ◌%◌, ◌≤◌, ◌<◌, ◌≡◌, refl, ap, ◌∙◌, subst, inl, inr, arith, Bool,
  true, false, not, ◌||◌, ltb, leb, ◌==◌, if◌then◌else◌, bit_and, Bool-cases, Result, Result-cases,
  ok, err, ◌>>=◌, >>=-eq-ok, ok-injective, reject_if, reject_if-ok, reject_if-not, ok_or,
  ok_or-checked_add, checked_add, some, none, List, length, get_range, Fault, raised, expect,
  u32_end,
}
use unnamed_os_core.BootProtocol.{abi_major, boot_info_size}
use unnamed_os_core.BootProtocol.Extensions.{
  ExtensionError, ExtensionHeader, ExtensionSummary, extension_header_size, extension_flag_required,
  extension_kind_page_table_ownership, truncated_extension_header, invalid_extension_header_size,
  invalid_extension_size, unsupported_extension_flags, unknown_required_extension,
  extension_count_overflow, boot_envelope_abi_major,
}
use unnamed_os_core.BootProtocol.Extensions.Area.{
  Area, is_required, parse_extension_header, add_ownership, next_extension, all_extensions,
  check_area, validate_extension_area, checked_add_u32, summary,
}
use unnamed_os_core.BootProtocol.Extensions.Reads.{
  Safe, Safe->>=, Safe-ok_or, Safe-if, Safe-reject_if, get_range-Safe, parse_extension_header-Safe,
  length-get_range, add_ownership-Safe,
}

-- The tests of a header's size and flags.
abbrev bad_size : ExtensionHeader → Bool
bad_size header = ltb header.total_size header.header_size || not (header.total_size % 8 == 0)

abbrev bad_flags : ExtensionHeader → Bool
bad_flags header = not (bit_and header.flags (u32_end - 1 - extension_flag_required) == 0)

-- A round that is reached reads inside the area, and moves at least past a header.
next_extension-Safe : (bytes : List ℕ) (area : Area) → Safe (next_extension bytes area)
unfolding next_extension
next_extension-Safe bytes area =
    Safe->>= _ _ (Safe-ok_or (checked_add area.offset extension_header_size) _) (λ header_end e1.
      Safe->>= _ _ (Safe-reject_if (ltb (length bytes) header_end) _) (λ _ e2.
        let end_is = (ok_or-checked_add _ area.offset extension_header_size header_end e1).0 in
        let inside = below (length bytes) header_end (reject_if-ok _ _ e2) in
        Safe->>= _ _ (get_range-Safe bytes area.offset header_end (omega (arith, end_is)) inside)
          (λ part e3.
            let sized = length-get_range bytes part area.offset header_end e3 in
            Safe->>= _ _ (parse_extension_header-Safe part (omega (arith, sized, end_is)))
              (λ header _.
                Safe->>= _ _ (Safe-reject_if (not (header.header_size == extension_header_size)) _)
                  (λ _ _. Safe->>= _ _ (Safe-reject_if (bad_size header) _) (λ _ _.
                    Safe->>= _ _ (Safe-reject_if (bad_flags header) _) (λ _ _.
                      Safe->>= _ _ (Safe-ok_or (checked_add area.offset header.total_size) _)
                        (λ record_end e8.
                          Safe->>= _ _ (Safe-reject_if (ltb (length bytes) record_end) _) (λ _ e9.
                            let record_is =
                              (ok_or-checked_add _ area.offset header.total_size record_end e8).0 in
                            let record_inside =
                              below (length bytes) record_end (reject_if-ok _ _ e9) in
                            Safe->>= _ _
                              (Safe-if (header.kind == extension_kind_page_table_ownership) _ _
                                (λ _.
                                  add_ownership-Safe bytes header header_end record_end
                                    area.ownership (omega (arith, end_is, record_is)) record_inside)
                                (λ _. Safe-if (is_required header) _ _ (λ _. tt) (λ _. tt)))
                              (λ _ _.
                                Safe->>= _ _ (Safe-ok_or (checked_add_u32 area.count 1) _)
                                  (λ _ _. tt)))))))))))
  where
    below : (a b : ℕ) → ltb a b ≡ false → b ≤ a
    below a b h = ground arith

-- A round that goes on has moved past a header, and not past the end.
next_extension-moves :
    (bytes : List ℕ) (area next : Area)
    → next_extension bytes area ≡ ok next
    → (area.offset + 16 ≤ next.offset) × (next.offset ≤ length bytes)
unfolding next_extension
next_extension-moves bytes area next h =
    let (header_end, _, h1) =
      >>=-eq-ok
        (ok_or (checked_add area.offset extension_header_size) (raised invalid_extension_size)) _
        h in
    let (_, _, h2) =
      >>=-eq-ok (reject_if (ltb (length bytes) header_end) (raised truncated_extension_header)) _
        h1 in
    let (part, _, h3) = >>=-eq-ok (expect (get_range bytes area.offset header_end)) _ h2 in
    let (header, _, h4) = >>=-eq-ok (parse_extension_header part) _ h3 in
    let (_, e5, h5) =
      >>=-eq-ok
        (reject_if (not (header.header_size == extension_header_size))
          (raised invalid_extension_header_size))
        _ h4 in
    let (_, e6, h6) =
      >>=-eq-ok (reject_if (bad_size header) (raised invalid_extension_size)) _ h5 in
    let (_, _, h7) =
      >>=-eq-ok (reject_if (bad_flags header) (raised unsupported_extension_flags)) _ h6 in
    let (record_end, e8, h8) =
      >>=-eq-ok (ok_or (checked_add area.offset header.total_size) (raised invalid_extension_size))
        _ h7 in
    let (_, e9, h9) =
      >>=-eq-ok (reject_if (ltb (length bytes) record_end) (raised invalid_extension_size)) _ h8 in
    let (_, _, h10) =
      >>=-eq-ok
        (if header.kind == extension_kind_page_table_ownership
          then add_ownership bytes header header_end record_end area.ownership
          else (if is_required header
              then err (raised unknown_required_extension)
              else ok area.ownership))
        _ h9 in
    let (_, _, done) =
      >>=-eq-ok (ok_or (checked_add_u32 area.count 1) (raised extension_count_overflow)) _ h10 in
    let stops : record_end ≡ next.offset = ap (λ a. a.offset) (ok-injective done) in
    moved area.offset header.header_size header.total_size record_end next.offset (length bytes)
      (reject_if-not _ _ e5) (reject_if-ok _ _ e6) (ok_or-checked_add _ _ _ record_end e8).0
      (reject_if-ok _ _ e9) stops
  where
    moved :
        (offset size total record_end after bound : ℕ)
        → (size == extension_header_size) ≡ true
        → (ltb total size || not (total % 8 == 0)) ≡ false
        → record_end ≡ offset + total
        → ltb bound record_end ≡ false
        → record_end ≡ after
        → (offset + 16 ≤ after) × (after ≤ bound)
    moved offset size total record_end after bound sized enough is inside same =
        (ground arith, ground arith)

all_extensions-round :
    (rounds : ℕ) (bytes : List ℕ) (area : Area) (r : Result (Fault ExtensionError) Area)
    → ltb area.offset (length bytes) ≡ true
    → next_extension bytes area ≡ r
    → all_extensions (suc rounds) bytes area
      ≡ (elim r [ err e ↦ some (err e) | ok next ↦ all_extensions rounds bytes next ])
unfolding all_extensions
all_extensions-round rounds bytes area r more is = rw (more, all_extensions, is) refl

all_extensions-done :
    (rounds : ℕ) (bytes : List ℕ) (area : Area)
    → ltb area.offset (length bytes) ≡ false
    → all_extensions (suc rounds) bytes area ≡ some (ok area)
unfolding all_extensions
all_extensions-done rounds bytes area stop = rw (stop, all_extensions) refl

all_extensions-ends :
    (rounds : ℕ) (bytes : List ℕ) (area : Area)
    → area.offset ≤ length bytes
    → length bytes < area.offset + 16 * rounds
    → (r : Result (Fault ExtensionError) Area) × (all_extensions rounds bytes area ≡ some r)
      × Safe r
all_extensions-ends zero bytes area inside enough = absurd (omega (arith, inside, enough))
all_extensions-ends (suc rounds) bytes area inside enough =
    elim (Bool-cases (ltb area.offset (length bytes))) [
      | inr stop ↦ (ok area, all_extensions-done rounds bytes area stop, tt)
      | inl more ↦ elim (Result-cases (next_extension bytes area)) [
        | inr (e, failed) ↦ (
          err e,
          all_extensions-round rounds bytes area (err e) more failed,
          subst Safe failed (next_extension-Safe bytes area),
        )
        | inl (next, went) ↦
            let (past, fits) = next_extension-moves bytes area next went in
            let (r, ended, safe) =
              all_extensions-ends rounds bytes next fits (omega (arith, enough, past)) in
            (r, all_extensions-round rounds bytes area (ok next) more went ∙ ended, safe)
      ]
    ]

check_area-Safe :
    (major declared_total_size : ℕ) (bytes : List ℕ)
    → Safe (check_area major declared_total_size bytes)
unfolding check_area
check_area-Safe major declared_total_size bytes =
    Safe->>= _ _ (Safe-reject_if (leb u32_end (length bytes)) _) (λ _ _.
      Safe->>= _ _ (Safe-ok_or (checked_add_u32 boot_info_size (length bytes)) _)
        (λ expected_total _.
          Safe->>= _ _ (Safe-reject_if (not (declared_total_size == expected_total)) _) (λ _ _.
            Safe-if (major == abi_major) _ _
              (λ _.
                Safe-if (not (declared_total_size == boot_info_size) || not (length bytes == 0)) _ _
                  (λ _. tt) (λ _. tt))
              (λ _.
                Safe-if (not (major == boot_envelope_abi_major)) _ _ (λ _. tt)
                  (λ _. Safe-if (not (length bytes % 8 == 0)) _ _ (λ _. tt) (λ _. tt))))))

-- The validation of an extension area ends on every input, and none of its reads panics: rounds for
-- every 16 bytes of the area and one more are enough for it to give a result, which is a summary or an
-- error that it reports.
pub validate_extension_area-ends :
    (rounds major minor declared_total_size : ℕ) (bytes : List ℕ)
    → length bytes < 16 * rounds
    → (r : Result (Fault ExtensionError) ExtensionSummary) × (validate_extension_area rounds major
          minor declared_total_size bytes
        ≡ some r)
      × Safe r
unfolding validate_extension_area
validate_extension_area-ends rounds major minor declared_total_size bytes enough =
    elim (Result-cases (check_area major declared_total_size bytes)) [
      | inr (e, failed) ↦ (
        err e,
        rw (failed, validate_extension_area) refl,
        subst Safe failed (check_area-Safe major declared_total_size bytes),
      )
      | inl (some early, checked) ↦ (ok early, rw (checked, validate_extension_area) refl, tt)
      | inl (none, checked) ↦
          let start : Area = record { offset = 0; count = 0; ownership = none } in
          let (r, ended, safe) =
            all_extensions-ends rounds bytes start (omega arith) (omega (arith, enough)) in
          (
            r >>= (λ area. ok (summary area)),
            rw (checked, validate_extension_area, ended) refl,
            Safe->>= r (λ area. ok (summary area)) safe (λ a h. tt),
          )
    ]
