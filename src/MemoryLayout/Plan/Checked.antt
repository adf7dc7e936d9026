-- ===== src/MemoryLayout/Plan/Checked.antt =====
-- What `validate_final` and `validate_transition` (crates/memory-layout/src/lib.rs) promise of the
-- translation of a valid plan.
use unnamed_os_core.Common.{
  ℕ, suc, ◌+◌, ◌*◌, ◌≤◌, ◌<◌, ◌≡◌, refl, Bool, true, not, arith, ltb, if◌then◌else◌, ok, err,
  >>=-eq-ok, reject_if, ok_or, expect, some, List, [], ◌∷◌, get_elem?, any, All, All-get_elem?,
  Bool-cases, inl, inr, checked_add, checked_sub,
}
use unnamed_os_core.MemoryLayout.Address.{unmapped, page_size, high_canonical_start}
use unnamed_os_core.MemoryLayout.Range
use unnamed_os_core.MemoryLayout.Range.{contains}
use unnamed_os_core.MemoryLayout.Permissions.{MappingPermissions}
use unnamed_os_core.MemoryLayout.Policy.{
  MappingKind, guard, transition_identity, bootstrap_stack, same_kind, bootstrap_stack_bytes,
}
use unnamed_os_core.MemoryLayout.Plan.{PlanEntry, MappingPlan, entries, translate}
use unnamed_os_core.MemoryLayout.Plan.Valid.{IsEntry, IsValid}
use unnamed_os_core.MemoryLayout.Plan.Translate.{translate-MapsBy, unmapped_if, guard-unmapped}
use unnamed_os_core.MemoryLayout.Plan.Validate.{
  Tally, is_low, tally_kind, tally_low, tally_entries, validate_transition, reject_low, is_guard_of,
  require_guard, require_guards, validate_final, max_transition_identity_bytes,
}

abbrev High : PlanEntry → Type 0
High e = high_canonical_start ≤ e.virtual_range.start

reject_low-High : (es : List PlanEntry) → reject_low es ≡ ok tt → All High es
unfolding reject_low
reject_low-High [] h = tt
reject_low-High (e ∷ es) h = (ground arith, reject_low-High es (ground arith))

-- A valid plan that passes `validate_final` translates no address of the lower half.
pub validate_final-low :
    (m : MappingPlan) (a : ℕ)
    → IsValid m
    → validate_final m ≡ ok tt
    → a < high_canonical_start
    → translate m a ≡ err unmapped
unfolding validate_final
validate_final-low m a valid h low =
    let (_, first, _) = >>=-eq-ok (reject_low (entries m)) _ h in
    unmapped_if m a valid (λ q s by.
      let high =
        All-get_elem? High (entries m) by.index (reject_low-High (entries m) (ground arith))
          by.live in
      let held = by.held in ground arith)

any-get_elem? :
    (p : PlanEntry → Bool) (es : List PlanEntry)
    → any p es ≡ true
    → (i : ℕ) × (e : PlanEntry) × (get_elem? es i ≡ some e) × (p e ≡ true)
any-get_elem? p [] h = cc
any-get_elem? p (e ∷ es) h = elim (Bool-cases (p e)) [
  | inl here ↦ (0, e, refl, here)
  | inr there ↦
      let (i, x, live, holds) = any-get_elem? p es (ground (arith, there)) in
      (suc i, x, live, holds)
]

-- The guard that the second loop finds for a stack.
pub record Guarded (es : List PlanEntry) (e : PlanEntry) : Type 0 where
  pub index : ℕ
  pub entry : PlanEntry
  pub live : get_elem? es index ≡ some entry
  pub kind : entry.kind ≡ guard
  pub room : page_size ≤ e.virtual_range.start
  pub starts : entry.virtual_range.start + page_size ≡ e.virtual_range.start
  pub ends : entry.virtual_range.end ≡ e.virtual_range.start

guard_of_code : (k : MappingKind) → same_kind k guard ≡ true → k ≡ guard
guard_of_code k h = ground arith

require_guard-Guarded :
    (all : List PlanEntry) (e : PlanEntry) → require_guard all e ≡ ok tt → Guarded all e
unfolding require_guard
require_guard-Guarded all e h =
    let (start, room, h') = >>=-eq-ok (ok_or (checked_sub e.virtual_range.start page_size) _) _ h in
    let (i, x, live, holds) = any-get_elem? (is_guard_of e start) all (ground arith) in
    record {
      index = i;
      entry = x;
      live = live;
      kind = guard_of_code x.kind (ground arith);
      room = ground arith;
      starts = ground arith;
      ends = ground arith;
    }

abbrev NeedsGuard : List PlanEntry → PlanEntry → Type 0
NeedsGuard all e = same_kind e.kind bootstrap_stack ≡ true → Guarded all e

require_guards-Guarded :
    (all es : List PlanEntry) → require_guards all es ≡ ok tt → All (NeedsGuard all) es
unfolding require_guards
require_guards-Guarded all [] h = tt
require_guards-Guarded all (e ∷ es) h =
    let (_, head, rest) =
      >>=-eq-ok (if same_kind e.kind bootstrap_stack then require_guard all e else ok tt) _ h in
    (λ k. require_guard-Guarded all e (ground (arith, k, head)), require_guards-Guarded all es rest)

-- In a valid plan that passes `validate_final` the page under every bootstrap stack is unmapped.
pub validate_final-guard :
    (m : MappingPlan) (i a : ℕ) (e : PlanEntry)
    → IsValid m
    → validate_final m ≡ ok tt
    → get_elem? (entries m) i ≡ some e
    → e.kind ≡ bootstrap_stack
    → e.virtual_range.start ≤ a + page_size
    → a < e.virtual_range.start
    → translate m a ≡ err unmapped
unfolding validate_final
validate_final-guard m i a e valid h live kind near below =
    let (_, _, second) = >>=-eq-ok (reject_low (entries m)) _ h in
    let all = require_guards-Guarded (entries m) (entries m) second in
    let guarded = All-get_elem? (NeedsGuard (entries m)) (entries m) i all live (rw kind refl) in
    let starts = guarded.starts in
    let ends = guarded.ends in
    guard-unmapped m a guarded.index guarded.entry valid guarded.live guarded.kind (ground arith)

abbrev IsIdentityKind : PlanEntry → Type 0
IsIdentityKind e = is_low e ≡ true → same_kind e.kind transition_identity ≡ true

-- The bytes of the entries that start in the lower half.
pub low_bytes : List PlanEntry → ℕ
low_bytes [] = 0
low_bytes (e ∷ es) = (if is_low e then Range.length e.virtual_range else 0) + low_bytes es

-- What the loop has counted accounts for every byte.
abbrev Accounts : Tally → Type 0
Accounts t =
    t.identity_bytes ≡ t.trampoline_count * page_size + t.stack_count * bootstrap_stack_bytes

tally_kind-Accounts :
    (p : MappingPermissions) (e : PlanEntry) (t t' : Tally)
    → Accounts t
    → tally_kind p e (t.identity_bytes + Range.length e.virtual_range) t ≡ ok t'
    → Accounts t' × (t'.identity_bytes ≡ t.identity_bytes + Range.length e.virtual_range)
unfolding tally_kind
tally_kind-Accounts p e t t' acc h = ground arith

tally_low-Accounts :
    (e : PlanEntry) (t t' : Tally)
    → Accounts t
    → tally_low e t ≡ ok t'
    → (same_kind e.kind transition_identity ≡ true)
      × Accounts t'
      × (t'.identity_bytes ≡ t.identity_bytes + Range.length e.virtual_range)
unfolding tally_low
tally_low-Accounts e t t' acc h =
    let (_, kind, h1) = >>=-eq-ok (reject_if (not (same_kind e.kind transition_identity)) _) _ h in
    let (bytes, sum, h2) =
      >>=-eq-ok (ok_or (checked_add t.identity_bytes (Range.length e.virtual_range)) _) _ h1 in
    let (_, small, h3) = >>=-eq-ok (reject_if (ltb max_transition_identity_bytes bytes) _) _ h2 in
    let (p, permitted, last) = >>=-eq-ok (expect e.permissions) _ h3 in
    let total : bytes ≡ t.identity_bytes + Range.length e.virtual_range = ground arith in
    let (acc', grown) = tally_kind-Accounts p e t t' acc (ground (arith, total, last)) in
    (ground arith, acc', grown)

tally_entries-Accounts :
    (es : List PlanEntry) (t t' : Tally)
    → Accounts t
    → tally_entries es t ≡ ok t'
    → All IsIdentityKind es × Accounts t' × (t'.identity_bytes ≡ t.identity_bytes + low_bytes es)
unfolding tally_entries low_bytes
tally_entries-Accounts [] t t' acc h =
    let same : t ≡ t' = cc in (tt, rw same at acc, rw same (omega arith))
tally_entries-Accounts (e ∷ es) t t' acc h =
    let (u, head, rest) = >>=-eq-ok (if is_low e then tally_low e t else ok t) _ h in
    elim (Bool-cases (is_low e)) [
      | inl low ↦
          let (kind, acc', grown) = tally_low-Accounts e t u acc (ground (arith, low, head)) in
          let (kinds, acc'', total) = tally_entries-Accounts es u t' acc' rest in
          ((λ _. kind, kinds), acc'', rw low (omega arith))
      | inr high ↦
          let same : t ≡ u = ground (arith, high, head) in
          let (kinds, acc'', total) = tally_entries-Accounts es u t' (rw same at acc) rest in
          ((λ low. absurd (ground arith), kinds), acc'', rw high (ground arith))
    ]

-- What the loop of a plan that passes `validate_transition` has seen.
validate_transition-tally :
    (m : MappingPlan)
    → validate_transition m ≡ ok tt
    → All IsIdentityKind (entries m) × (low_bytes (entries m) ≡ max_transition_identity_bytes)
unfolding validate_transition
validate_transition-tally m h =
    let (t, loop, counted) = >>=-eq-ok (tally_entries (entries m) _) _ h in
    let (kinds, acc, total) = tally_entries-Accounts (entries m) _ t (omega arith) loop in
    let one : t.trampoline_count ≡ 1 = ground arith in
    let stack : t.stack_count ≡ 1 = ground arith in (kinds, ground arith)

identity_code : (k : MappingKind) → same_kind k transition_identity ≡ true → k ≡ transition_identity
identity_code k h = ground arith

-- A valid plan that passes `validate_transition` maps every mapped address of the lower half to
-- itself, and the entries that start there hold 17 pages together.
pub validate_transition-identity :
    (m : MappingPlan) (a q : ℕ)
    → IsValid m
    → validate_transition m ≡ ok tt
    → translate m a ≡ ok q
    → a < high_canonical_start
    → (q ≡ a) × (low_bytes (entries m) ≡ 17 * page_size)
validate_transition-identity m a q valid h found low =
    let (kinds, bytes) = validate_transition-tally m h in
    let (s, by) = translate-MapsBy m a q valid found in
    let entry = All-get_elem? IsEntry (entries m) by.index valid.each by.live in
    let is_identity = All-get_elem? IsIdentityKind (entries m) by.index kinds by.live in
    let held = by.held in
    let target = by.target in
    let kind = identity_code by.entry.kind (is_identity (ground arith)) in
    let (_, _, _, _, _, _, identity) = rw (by.backed, kind) at (entry.1) in
    (ground (arith, identity.0), bytes)
