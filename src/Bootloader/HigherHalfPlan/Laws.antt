-- ===== src/Bootloader/HigherHalfPlan/Laws.antt =====
-- What the plans that `HigherHalfLoadPlan::from_validated`
-- (crates/bootloader/src/higher_half_plan.rs) returns promise.
use unnamed_os_core.Common.{
  ℕ, ◌/◌, ◌%◌, ◌≤◌, ◌<◌, ◌≡◌, inl, inr, Option-cases, some, get_elem?, any-get_elem?, refl, sym, ap,
  ◌∙◌, subst, arith, true, not, ◌&&◌, ◌==◌, ==_iff, ok, >>=-eq-ok, ok-injective, reject_if-not,
  reject_if, map_err, map_err-eq-ok, raised, All, any, map,
}
use unnamed_os_core.MemoryLayout.Address.{new_virtual_address}
use unnamed_os_core.MemoryLayout.Range.{contains}
use unnamed_os_core.MemoryLayout.Permissions.{MappingPermissions, executable}
use unnamed_os_core.Common.Bits.{bit_and-one, bit_and_step}
use unnamed_os_core.MemoryLayout.Plan.{PlanEntry, entries, new, translate}
use unnamed_os_core.MemoryLayout.Plan.Built.{Built, fresh}
use unnamed_os_core.KernelImage.Parse.{load_segments}
use unnamed_os_core.KernelImage.HigherHalf.{ValidatedHigherHalfImage}
use unnamed_os_core.Bootloader.LoadPlan.{SourceAllocation, max_load_items, build, to_spec}
use unnamed_os_core.Bootloader.LoadPlan.Layout.{IsLoadPlan, build-IsLoadPlan}
use unnamed_os_core.Bootloader.HigherHalfPlan.{
  load, layout, entry_translation_mismatch, entry_without_executable_mapping, HigherHalfLoadPlan,
  map_segments, may_execute, from_validated,
}
use unnamed_os_core.Bootloader.HigherHalfPlan.Segments.{MapsSegment, map_segments_lem}

-- The entry of a plan of mappings holds an address and may be executed.
pub record RunsAt (address : ℕ) (e : PlanEntry) : Type 0 where
  pub above : e.virtual_range.start ≤ address
  pub below : address < e.virtual_range.end
  pub permissions : MappingPermissions
  pub mapped : e.permissions ≡ some permissions
  pub execute : permissions / 4 % 2 ≡ 1

runs-RunsAt :
    (address : ℕ) (e : PlanEntry)
    → (contains e.virtual_range address && may_execute e.permissions) ≡ true
    → RunsAt address e
unfolding executable
runs-RunsAt address e h = elim (Option-cases e.permissions) [
  | inl none_mapped ↦ absurd (ground (arith, none_mapped, h))
  | inr (p, mapped) ↦
      let whole = bit_and_step p 4 in
      let half = bit_and_step (p / 2) 2 in
      let quarter = bit_and-one (p / 2 / 2) in
      record {
        above = ground arith;
        below = ground arith;
        permissions = p;
        mapped = mapped;
        execute = ground (arith, mapped, whole, half, quarter, h);
      }
]

-- What a plan is for an image that `validate_higher_half_image` has accepted.
pub record IsHigherHalfPlan (image : ValidatedHigherHalfImage) (source : SourceAllocation)
    (plan : HigherHalfLoadPlan) : Type 0 where
  pub load :
      IsLoadPlan image.physical_entry (map to_spec (load_segments image.image)) source plan.load
  pub built : Built max_load_items plan.mappings
  pub maps : All (MapsSegment plan.mappings) (load_segments image.image)
  pub virtual_entry : plan.virtual_entry ≡ image.image.raw.header.entry
  pub physical_entry : plan.physical_entry ≡ image.physical_entry
  pub entry : translate plan.mappings plan.virtual_entry ≡ ok plan.physical_entry
  pub executable :
      (i : ℕ) × (e : PlanEntry) × (get_elem? (entries plan.mappings) i ≡ some e)
      × RunsAt plan.virtual_entry e

-- A plan that `from_validated` returns has a load plan as `LoadPlan::build` promises it for the
-- image's segments at their physical places; its mappings are built by calls of `insert_mapping` that
-- succeeded, and map every byte of every segment from its virtual to its physical place with the
-- permissions of the segment's flags, read-execute for 5, read for 4 and read-write for 6; they
-- translate the virtual entry to the physical entry, and a mapping with the EXECUTE bit contains it.
pub from_validated-IsHigherHalfPlan :
    (image : ValidatedHigherHalfImage) (source : SourceAllocation) (plan : HigherHalfLoadPlan)
    → from_validated image source ≡ ok plan
    → IsHigherHalfPlan image source plan
unfolding from_validated new_virtual_address
from_validated-IsHigherHalfPlan image source plan h =
    let segments = load_segments image.image in
    let entry : ℕ = image.image.raw.header.entry in
    let (loads, e1, h1) =
      >>=-eq-ok
        (map_err (λ e. raised (load e)) (build image.physical_entry (map to_spec segments) source))
        _ h in
    let (mappings, e2, h2) = >>=-eq-ok (map_segments segments (new max_load_items)) _ h1 in
    let (address, e3, h3) =
      >>=-eq-ok (map_err (λ e. raised (layout e)) (new_virtual_address entry)) _ h2 in
    let (translated, e4, h4) =
      >>=-eq-ok (map_err (λ e. raised (layout e)) (translate mappings address)) _ h3 in
    let (_, e5, h5) =
      >>=-eq-ok
        (reject_if (not (translated == image.physical_entry)) (raised entry_translation_mismatch)) _
        h4 in
    let runs =
      any (λ e. contains e.virtual_range entry && may_execute e.permissions) (entries mappings) in
    let (_, e6, done) =
      >>=-eq-ok (reject_if (not runs) (raised entry_without_executable_mapping)) _ h5 in
    let (built, each, _) = map_segments_lem segments (new max_load_items) mappings e2 fresh in
    let same : address ≡ entry = canonical entry address (map_err-eq-ok _ _ e3) in
    let target = (==_iff _ _).0 (reject_if-not (raised entry_translation_mismatch) _ e5) in
    subst (IsHigherHalfPlan image source) (ok-injective done) (record {
      load =
          build-IsLoadPlan image.physical_entry (map to_spec segments) source loads
            (map_err-eq-ok _ _ e1);
      built = built;
      maps = each;
      virtual_entry = refl;
      physical_entry = refl;
      entry = ap (translate mappings) (sym same) ∙ map_err-eq-ok _ _ e4 ∙ ap ok target;
      executable =
          let (i, e, found, holds) =
            any-get_elem? (λ e. contains e.virtual_range entry && may_execute e.permissions)
              (entries mappings) (reject_if-not (raised entry_without_executable_mapping) _ e6) in
          (i, e, found, runs-RunsAt entry e holds);
    })
  where
    canonical : (a b : ℕ) → new_virtual_address a ≡ ok b → b ≡ a
    canonical a b h = ground arith
