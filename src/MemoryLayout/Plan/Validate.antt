-- ===== src/MemoryLayout/Plan/Validate.antt =====
-- `validate_transition` and `validate_final` of `MappingPlan` (crates/memory-layout/src/lib.rs).
use unnamed_os_core.Common.{
  ℕ, ◌+◌, ◌*◌, Bool, not, ◌&&◌, ◌||◌, ltb, ◌==◌, if◌then◌else◌, Result, ok, err, ◌>>=◌, ◌>>◌,
  reject_if, ok_or, Fault, raised, expect, Option, none, some, List, [], ◌∷◌, any, checked_add,
  checked_sub, u8_end,
}
use unnamed_os_core.MemoryLayout.Address.{
  LayoutError, identity_address_mismatch, transition_identity_too_large,
  invalid_transition_composition, transition_mapping_in_final_plan, low_mapping_in_final_plan,
  missing_stack_guard, page_size, high_canonical_start,
}
use unnamed_os_core.MemoryLayout.Range
use unnamed_os_core.MemoryLayout.Permissions.{MappingPermissions, kernel_rx, kernel_rw}
use unnamed_os_core.MemoryLayout.Policy.{
  guard, transition_identity, bootstrap_stack, same_kind, bootstrap_stack_bytes,
}
use unnamed_os_core.MemoryLayout.Plan.{PlanEntry, MappingPlan, entries}

abbrev pub max_transition_identity_bytes : ℕ
max_transition_identity_bytes = 17 * page_size

-- The three counters of the loop; the last two are bytes.
pub record Tally : Type 0 where
  pub identity_bytes : ℕ
  pub trampoline_count : ℕ
  pub stack_count : ℕ

-- `u8::checked_add(1)`
abbrev next_byte : ℕ → Option ℕ
next_byte n = if ltb (n + 1) u8_end then some (n + 1) else none

abbrev pub is_low : PlanEntry → Bool
is_low e = ltb e.virtual_range.start high_canonical_start

abbrev pub is_trampoline : MappingPermissions → PlanEntry → Bool
is_trampoline p e = p == kernel_rx && Range.length e.virtual_range == page_size

abbrev pub is_identity_stack : MappingPermissions → PlanEntry → Bool
is_identity_stack p e = p == kernel_rw && Range.length e.virtual_range == bootstrap_stack_bytes

-- The `if … else if … else` on the permissions of a low entry.
unfoldable pub tally_kind :
    MappingPermissions → PlanEntry → ℕ → Tally → Result (Fault LayoutError) Tally
tally_kind p e bytes t =
    let trampoline = ok_or (next_byte t.trampoline_count) (raised invalid_transition_composition) in
    let stack = ok_or (next_byte t.stack_count) (raised invalid_transition_composition) in
    if is_trampoline p e
    then trampoline >>= (λ n. ok (record t { identity_bytes = bytes; trampoline_count = n }))
    else if is_identity_stack p e
    then stack >>= (λ n. ok (record t { identity_bytes = bytes; stack_count = n }))
    else err (raised invalid_transition_composition)

-- The body of the loop for an entry that starts in the lower half.
unfoldable pub tally_low : PlanEntry → Tally → Result (Fault LayoutError) Tally
tally_low e t = do
  reject_if (not (same_kind e.kind transition_identity)) (raised identity_address_mismatch)
  bytes ←
      ok_or (checked_add t.identity_bytes (Range.length e.virtual_range))
        (raised transition_identity_too_large)
  reject_if (ltb max_transition_identity_bytes bytes) (raised transition_identity_too_large)
  p ← expect e.permissions
  tally_kind p e bytes t

unfoldable pub tally_entries : List PlanEntry → Tally → Result (Fault LayoutError) Tally
tally_entries [] t = ok t
tally_entries (e ∷ es) t = do t' ← if is_low e then tally_low e t else ok t; tally_entries es t'

unfoldable pub validate_transition : MappingPlan → Result (Fault LayoutError) (Unit {0})
validate_transition m = do
  t ←
      tally_entries (entries m)
        (record { identity_bytes = 0; trampoline_count = 0; stack_count = 0 })
  reject_if (not (t.trampoline_count == 1) || not (t.stack_count == 1))
      (raised invalid_transition_composition)

-- The first loop of `validate_final`.
unfoldable pub reject_low : List PlanEntry → Result LayoutError (Unit {0})
reject_low [] = ok tt
reject_low (e ∷ es) = do
  reject_if (same_kind e.kind transition_identity) transition_mapping_in_final_plan
  reject_if (is_low e) low_mapping_in_final_plan
  reject_low es

abbrev pub is_guard_of : PlanEntry → ℕ → PlanEntry → Bool
is_guard_of e guard_start candidate =
    same_kind candidate.kind guard
    && candidate.virtual_range.start == guard_start
    && candidate.virtual_range.end == e.virtual_range.start

-- The body of the second loop for a bootstrap stack.
unfoldable pub require_guard : List PlanEntry → PlanEntry → Result LayoutError (Unit {0})
require_guard all e = do
  guard_start ← ok_or (checked_sub e.virtual_range.start page_size) missing_stack_guard
  reject_if (not (any (is_guard_of e guard_start) all)) missing_stack_guard

-- The second loop, over the entries that are left, with all of them to search for guards.
unfoldable pub require_guards : List PlanEntry → List PlanEntry → Result LayoutError (Unit {0})
require_guards all [] = ok tt
require_guards all (e ∷ es) = do
  if same_kind e.kind bootstrap_stack then require_guard all e else ok tt
  require_guards all es

unfoldable pub validate_final : MappingPlan → Result LayoutError (Unit {0})
validate_final m = do reject_low (entries m); require_guards (entries m) (entries m)
