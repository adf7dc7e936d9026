-- ===== src/BootProtocol/Extensions/Reads.antt =====
-- The parsers of crates/boot-protocol/src/extensions.rs read in bounds.
use unnamed_os_core.Common.{
  ℕ, ◌+◌, ◌-◌, ◌≤◌, ◌≡◌, refl, sym, ap, ◌∙◌, subst, arith, Bool, true, false, not, ◌==◌,
  if◌then◌else◌, Result, ok, err, ◌>>=◌, reject_if, ok_or, map_err, Option, some, none, List,
  length, get_range, Fault, raised, panic, expect, length-take, drop,
}
use unnamed_os_core.Common.Slices.{get_range-some, get_range-inside, length-drop}
use unnamed_os_core.BootProtocol.Extensions.{
  ExtensionError, ExtensionHeader, ValidatedPageTableOwnership, validate_ownership,
  extension_version_1, page_table_ownership_size,
}
use unnamed_os_core.BootProtocol.Extensions.Area.{
  is_required, read_le, parse_extension_header, parse_page_table_ownership, add_ownership,
}

-- A result that is not a panic.
abbrev pub Safe {ℓ κ} : {E : Type ℓ} {A : Type κ} → Result (Fault E) A → Type 0
Safe (ok value) = Unit
Safe (err (raised e)) = Unit
Safe (err panic) = ⊥

module _ {E : Type 0} {A : Type 0} where
  pub Safe->>= :
      {B : Type 0} (step : Result (Fault E) A) (next : A → Result (Fault E) B)
      → Safe step
      → ((a : A) → step ≡ ok a → Safe (next a))
      → Safe (step >>= next)
  Safe->>= (ok a) next safe rest = rest a refl
  Safe->>= (err (raised e)) next safe rest = tt
  Safe->>= (err panic) next safe rest = absurd safe

  pub Safe-ok_or : (o : Option A) (e : E) → Safe (ok_or o (raised e))
  Safe-ok_or none e = tt
  Safe-ok_or (some a) e = tt

  pub Safe-map_err : (r : Result E A) → Safe (map_err raised r)
  Safe-map_err (ok a) = tt
  Safe-map_err (err e) = tt

  pub Safe-if :
      (b : Bool) (x y : Result (Fault E) A)
      → (b ≡ true → Safe x)
      → (b ≡ false → Safe y)
      → Safe (if b then x else y)
  Safe-if true x y left right = left refl
  Safe-if false x y left right = right refl

pub Safe-reject_if : {E : Type 0} (b : Bool) (e : E) → Safe (reject_if b (raised e))
Safe-reject_if true e = tt
Safe-reject_if false e = tt

pub get_range-Safe :
    (bytes : List ℕ) (start end : ℕ)
    → start ≤ end
    → end ≤ length bytes
    → Safe {E = ExtensionError} (expect (get_range bytes start end))
get_range-Safe bytes start end ordered inside =
    subst (λ o. Safe {E = ExtensionError} (expect o))
      (sym (get_range-inside bytes start end ordered inside)) tt

pub read_le-Safe :
    (width : ℕ) (bytes : List ℕ) (offset : ℕ)
    → offset + width ≤ length bytes
    → Safe (read_le width bytes offset)
unfolding read_le
read_le-Safe width bytes offset inside =
    Safe->>= (expect (get_range bytes offset (offset + width))) _
      (get_range-Safe bytes offset (offset + width) (omega arith) inside) (λ a h. tt)

pub parse_extension_header-Safe :
    (bytes : List ℕ) → length bytes ≡ 16 → Safe (parse_extension_header bytes)
unfolding parse_extension_header
parse_extension_header-Safe bytes sized =
    Safe->>= (read_le 4 bytes 0) _ (read_le-Safe 4 bytes 0 (omega (arith, sized))) (λ a h.
      Safe->>= (read_le 2 bytes 4) _ (read_le-Safe 2 bytes 4 (omega (arith, sized))) (λ b h.
        Safe->>= (read_le 2 bytes 6) _ (read_le-Safe 2 bytes 6 (omega (arith, sized))) (λ c h.
          Safe->>= (read_le 4 bytes 8) _ (read_le-Safe 4 bytes 8 (omega (arith, sized))) (λ d h.
            Safe->>= (read_le 4 bytes 12) _ (read_le-Safe 4 bytes 12 (omega (arith, sized)))
              (λ e h. tt)))))

pub parse_page_table_ownership-Safe :
    (bytes : List ℕ) → length bytes ≡ 64 → Safe (parse_page_table_ownership bytes)
unfolding parse_page_table_ownership
parse_page_table_ownership-Safe bytes sized =
    Safe->>= (read_le 2 bytes 0) _ (read_le-Safe 2 bytes 0 (omega (arith, sized))) (λ a h.
      Safe->>= (read_le 1 bytes 2) _ (read_le-Safe 1 bytes 2 (omega (arith, sized))) (λ b h.
        Safe->>= (read_le 1 bytes 3) _ (read_le-Safe 1 bytes 3 (omega (arith, sized))) (λ c h.
          Safe->>= (read_le 4 bytes 4) _ (read_le-Safe 4 bytes 4 (omega (arith, sized))) (λ d h.
            Safe->>= (read_le 8 bytes 8) _ (read_le-Safe 8 bytes 8 (omega (arith, sized))) (λ e h.
              Safe->>= (read_le 8 bytes 16) _ (read_le-Safe 8 bytes 16 (omega (arith, sized)))
                (λ f h.
                  Safe->>= (read_le 4 bytes 24) _ (read_le-Safe 4 bytes 24 (omega (arith, sized)))
                    (λ g h.
                      Safe->>= (read_le 4 bytes 28) _
                        (read_le-Safe 4 bytes 28 (omega (arith, sized)))
                        (λ i h.
                          Safe->>= (read_le 8 bytes 32) _
                            (read_le-Safe 8 bytes 32 (omega (arith, sized)))
                            (λ j h.
                              Safe->>= (read_le 8 bytes 40) _
                                (read_le-Safe 8 bytes 40 (omega (arith, sized)))
                                (λ k h.
                                  Safe->>= (read_le 8 bytes 48) _
                                    (read_le-Safe 8 bytes 48 (omega (arith, sized)))
                                    (λ l h.
                                      Safe->>= (read_le 8 bytes 56) _
                                        (read_le-Safe 8 bytes 56 (omega (arith, sized)))
                                        (λ m h. tt))))))))))))

pub length-get_range :
    (bytes part : List ℕ) (start end : ℕ)
    → expect {E = ExtensionError} (get_range bytes start end) ≡ ok part
    → length part ≡ end - start
length-get_range bytes part start end h =
    let (ordered, inside, same) = get_range-some bytes start end (expected _ h) in
    let left = length-drop start bytes (omega (arith, ordered, inside)) in
    ap length same ∙ length-take (end - start) (drop start bytes) (omega (arith, left, inside))
  where
    expected :
        (o : Option (List ℕ)) {part : List ℕ}
        → expect {E = ExtensionError} o ≡ ok part
        → o ≡ some part
    expected none h = cc
    expected (some a) h = cc

pub add_ownership-Safe :
    (bytes : List ℕ) (header : ExtensionHeader) (header_end record_end : ℕ)
    (found : Option ValidatedPageTableOwnership)
    → record_end + 16 ≡ header_end + header.total_size
    → record_end ≤ length bytes
    → Safe (add_ownership bytes header header_end record_end found)
unfolding add_ownership
add_ownership-Safe bytes header header_end record_end (some found) is inside =
    Safe-if (not (header.version == extension_version_1)) _ _
      (λ h. Safe-if (is_required header) _ _ (λ h. tt) (λ h. tt))
      (λ h. Safe-if (not (header.total_size == page_table_ownership_size)) _ _ (λ h. tt) (λ h. tt))
add_ownership-Safe bytes header header_end record_end none is inside =
    Safe-if (not (header.version == extension_version_1)) _ _
      (λ h. Safe-if (is_required header) _ _ (λ h. tt) (λ h. tt))
      (λ h.
        Safe-if (not (header.total_size == page_table_ownership_size)) _ _ (λ h. tt)
          (λ sized.
            let is_80 : header.total_size ≡ 80 = ground (arith, sized) in
            Safe->>= (expect (get_range bytes header_end record_end)) _
              (get_range-Safe bytes header_end record_end (omega (arith, is, is_80)) inside)
              (λ part h.
                let part_length = length-get_range bytes part header_end record_end h in
                Safe->>= (parse_page_table_ownership part) _
                  (parse_page_table_ownership-Safe part (omega (arith, part_length, is, is_80)))
                  (λ o h.
                    Safe->>= (map_err raised (validate_ownership o)) _
                      (Safe-map_err (validate_ownership o)) (λ v h. tt)))))
