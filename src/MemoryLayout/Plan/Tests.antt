-- ===== src/MemoryLayout/Plan/Tests.antt =====
-- Two small plans of crates/memory-layout/src/lib.rs: the transition plan and the final plan of a
-- kernel of one page of code.
use unnamed_os_core.Common.{
  ℕ, ◌*◌, ◌≡◌, refl, false, ◌&&◌, arith, Result, ok, err, ◌↔◌, get_or, get_elem?, some, Fault,
  raised,
}
use unnamed_os_core.MemoryLayout.Address.{
  LayoutError, unmapped, page_size, new_physical_address, physical_alias_write_execute,
  missing_stack_guard,
}
use unnamed_os_core.MemoryLayout.Range.{Range, new_physical_range, new_virtual_range}
use unnamed_os_core.MemoryLayout.Range.Accept.{
  IsPhysical, IsVirtual, new_physical_range_accepts, new_virtual_range_accepts,
}
use unnamed_os_core.MemoryLayout.Permissions.{
  MappingPermissions, kernel_rx, kernel_rw, from_bits, user, writable, executable, write_back,
}
use unnamed_os_core.MemoryLayout.Policy.{
  kernel_text, bootstrap_stack, transition_identity, direct_map, validate_mapping_policy,
}
use unnamed_os_core.MemoryLayout.Plan.{
  PlanEntry, MappingPlan, new, entries, insert_mapping, insert_guard, translate, translate_in,
  empty_entry, place,
}
use unnamed_os_core.MemoryLayout.Plan.Shift.{entries-place, insert_sorted}
use unnamed_os_core.MemoryLayout.Plan.Valid.{IsValid}
use unnamed_os_core.MemoryLayout.Plan.Insert.{
  new-IsValid, insert_mapping-IsValid, insert_guard-IsValid,
}
use unnamed_os_core.MemoryLayout.Plan.Translate.{
  MapsBy, translate_iff, translate_error, translate-MapsBy,
}
use unnamed_os_core.MemoryLayout.Plan.Built.{
  Built, fresh, with_mapping, with_guard, Built-write_xor_execute,
}
use unnamed_os_core.MemoryLayout.Plan.Validate.{
  validate_final, validate_transition, reject_low, require_guards, require_guard, tally_entries,
  tally_low, tally_kind,
}
use unnamed_os_core.MemoryLayout.Plan.Checked.{
  validate_final-low, validate_final-guard, validate_transition-identity, low_bytes,
}

abbrev unwrap : Result (Fault LayoutError) MappingPlan → MappingPlan
unwrap (ok m) = m
unwrap (err e) = new 0

abbrev range : ℕ → ℕ → Range
range start end = record { start = start; end = end }

abbrev text : Range
text = range 0xffff_ffff_8020_0000 0xffff_ffff_8020_1000

abbrev text_frames : Range
text_frames = range 0x20_0000 0x20_1000

abbrev stack : Range
stack = range 0xffff_ffff_c001_0000 0xffff_ffff_c002_0000

abbrev stack_frames : Range
stack_frames = range 0x50_0000 0x51_0000

abbrev stack_guard : Range
stack_guard = range 0xffff_ffff_c000_f000 0xffff_ffff_c001_0000

text-IsVirtual : IsVirtual text
unfolding new_virtual_range
text-IsVirtual = ((new_virtual_range_accepts text.start text.end text).0 refl).1

text_frames-IsPhysical : IsPhysical text_frames
unfolding new_physical_range
text_frames-IsPhysical =
    ((new_physical_range_accepts text_frames.start text_frames.end text_frames).0 refl).1

stack-IsVirtual : IsVirtual stack
unfolding new_virtual_range
stack-IsVirtual = ((new_virtual_range_accepts stack.start stack.end stack).0 refl).1

stack_frames-IsPhysical : IsPhysical stack_frames
unfolding new_physical_range
stack_frames-IsPhysical =
    ((new_physical_range_accepts stack_frames.start stack_frames.end stack_frames).0 refl).1

stack_guard-IsVirtual : IsVirtual stack_guard
unfolding new_virtual_range
stack_guard-IsVirtual =
    ((new_virtual_range_accepts stack_guard.start stack_guard.end stack_guard).0 refl).1

-- The plans on the way to the final one, stack first, so that the code is put behind it.
abbrev one : MappingPlan
one = unwrap (insert_mapping stack stack_frames kernel_rw write_back bootstrap_stack (new 4))

abbrev two : MappingPlan
two = unwrap (insert_mapping text text_frames kernel_rx write_back kernel_text one)

abbrev pub three : MappingPlan
three = unwrap (insert_guard stack_guard two)

one_made : insert_mapping stack stack_frames kernel_rw write_back bootstrap_stack (new 4) ≡ ok one
unfolding insert_mapping validate_mapping_policy from_bits user new
one_made = refl

two_made : insert_mapping text text_frames kernel_rx write_back kernel_text one ≡ ok two
unfolding insert_mapping validate_mapping_policy from_bits user new writable executable
two_made = refl

three_made : insert_guard stack_guard two ≡ ok three
unfolding insert_mapping insert_guard validate_mapping_policy from_bits user new writable executable
three_made = refl

one-IsValid : IsValid one
one-IsValid =
    insert_mapping-IsValid stack stack_frames kernel_rw write_back bootstrap_stack (new 4) one
      stack-IsVirtual stack_frames-IsPhysical (new-IsValid 4) one_made

two-IsValid : IsValid two
two-IsValid =
    insert_mapping-IsValid text text_frames kernel_rx write_back kernel_text one two text-IsVirtual
      text_frames-IsPhysical one-IsValid two_made

pub three-IsValid : IsValid three
three-IsValid =
    insert_guard-IsValid stack_guard two three stack_guard-IsVirtual two-IsValid three_made

insert_mapping-IsValid_example : IsValid two
insert_mapping-IsValid_example =
    insert_mapping-IsValid text text_frames kernel_rx write_back kernel_text one two text-IsVirtual
      text_frames-IsPhysical one-IsValid two_made

insert_guard-IsValid_example : IsValid three
insert_guard-IsValid_example =
    insert_guard-IsValid stack_guard two three stack_guard-IsVirtual two-IsValid three_made

entries-place_example : entries (place empty_entry one) ≡ insert_sorted empty_entry (entries one)
unfolding insert_mapping validate_mapping_policy from_bits user new
entries-place_example = entries-place empty_entry one (omega arith)

final_passes : validate_final three ≡ ok tt
unfolding insert_mapping insert_guard validate_mapping_policy from_bits user new writable executable
    validate_final reject_low require_guards require_guard
final_passes = refl

text_found : translate three 0xffff_ffff_8020_0123 ≡ ok 0x20_0123
unfolding insert_mapping insert_guard validate_mapping_policy from_bits user new writable executable
    translate translate_in new_physical_address
text_found = refl

guard_unmapped : translate three 0xffff_ffff_c000_f123 ≡ err unmapped
unfolding insert_mapping insert_guard validate_mapping_policy from_bits user new writable executable
    translate translate_in new_physical_address
guard_unmapped = refl

translate_iff_example :
    (translate three 0xffff_ffff_8020_0123 ≡ ok 0x20_0123)
    ↔ ((s : MappingPermissions) × MapsBy three 0xffff_ffff_8020_0123 0x20_0123 s)
translate_iff_example = translate_iff three 0xffff_ffff_8020_0123 0x20_0123 three-IsValid

translate_error_example : unmapped ≡ unmapped
translate_error_example =
    translate_error three 0xffff_ffff_c000_f123 unmapped three-IsValid guard_unmapped

abbrev text_by : (s : MappingPermissions) × MapsBy three 0xffff_ffff_8020_0123 0x20_0123 s
text_by = translate-MapsBy three 0xffff_ffff_8020_0123 0x20_0123 three-IsValid text_found

three-Built : Built 4 three
unfolding new_virtual_range new_physical_range
three-Built = with_guard stack_guard two three refl three_made (
    with_mapping text text_frames kernel_rx write_back kernel_text one two refl refl two_made (
      with_mapping stack stack_frames kernel_rw write_back bootstrap_stack (new 4) one refl refl
        one_made fresh))

Built-write_xor_execute_example :
    (writable (text_by.0) ≡ writable (text_by.0))
    × ((writable (text_by.0) && executable (text_by.0)) ≡ false)
Built-write_xor_execute_example =
    Built-write_xor_execute 4 three 0xffff_ffff_8020_0123 0xffff_ffff_8020_0123 0x20_0123
      (text_by.0) (text_by.0) three-Built (text_by.1) (text_by.1)

validate_final-low_example : translate three 0x20_0123 ≡ err unmapped
validate_final-low_example =
    validate_final-low three 0x20_0123 three-IsValid final_passes (omega arith)

abbrev guarded_stack : PlanEntry
guarded_stack = get_or (entries three) 2 empty_entry

stack_live : get_elem? (entries three) 2 ≡ some guarded_stack
unfolding insert_mapping insert_guard validate_mapping_policy from_bits user new writable executable
stack_live = refl

validate_final-guard_example : translate three 0xffff_ffff_c000_f123 ≡ err unmapped
unfolding insert_mapping insert_guard validate_mapping_policy from_bits user new writable executable
validate_final-guard_example =
    validate_final-guard three 2 0xffff_ffff_c000_f123 guarded_stack three-IsValid final_passes
      stack_live refl (omega arith) (omega arith)

-- The transition plan: the trampoline and the stack, at their own addresses.
abbrev trampoline : Range
trampoline = range 0x10_0000 0x10_1000

abbrev low_stack : Range
low_stack = range 0x11_0000 0x12_0000

trampoline-IsVirtual : IsVirtual trampoline
unfolding new_virtual_range
trampoline-IsVirtual =
    ((new_virtual_range_accepts trampoline.start trampoline.end trampoline).0 refl).1

trampoline-IsPhysical : IsPhysical trampoline
unfolding new_physical_range
trampoline-IsPhysical =
    ((new_physical_range_accepts trampoline.start trampoline.end trampoline).0 refl).1

low_stack-IsVirtual : IsVirtual low_stack
unfolding new_virtual_range
low_stack-IsVirtual = ((new_virtual_range_accepts low_stack.start low_stack.end low_stack).0 refl).1

low_stack-IsPhysical : IsPhysical low_stack
unfolding new_physical_range
low_stack-IsPhysical =
    ((new_physical_range_accepts low_stack.start low_stack.end low_stack).0 refl).1

abbrev first_low : MappingPlan
first_low =
    unwrap (insert_mapping low_stack low_stack kernel_rw write_back transition_identity (new 4))

abbrev low : MappingPlan
low =
    unwrap (insert_mapping trampoline trampoline kernel_rx write_back transition_identity first_low)

first_low_made :
    insert_mapping low_stack low_stack kernel_rw write_back transition_identity (new 4)
    ≡ ok first_low
unfolding insert_mapping validate_mapping_policy from_bits user new
first_low_made = refl

low_made :
    insert_mapping trampoline trampoline kernel_rx write_back transition_identity first_low ≡ ok low
unfolding insert_mapping validate_mapping_policy from_bits user new writable executable
low_made = refl

low-IsValid : IsValid low
low-IsValid =
    insert_mapping-IsValid trampoline trampoline kernel_rx write_back transition_identity first_low
      low trampoline-IsVirtual trampoline-IsPhysical first_low-IsValid low_made
  where
    first_low-IsValid : IsValid first_low
    first_low-IsValid =
        insert_mapping-IsValid low_stack low_stack kernel_rw write_back transition_identity (new 4)
          first_low low_stack-IsVirtual low_stack-IsPhysical (new-IsValid 4) first_low_made

transition_passes : validate_transition low ≡ ok tt
unfolding insert_mapping validate_mapping_policy from_bits user new writable executable
    validate_transition tally_entries tally_low tally_kind
transition_passes = refl

abbrev low_address : ℕ
low_address = 0x11_0123

low_found : translate low low_address ≡ ok low_address
unfolding insert_mapping validate_mapping_policy from_bits user new writable executable translate
    translate_in new_physical_address
low_found = refl

validate_transition-identity_example :
    (low_address ≡ low_address) × (low_bytes (entries low) ≡ 17 * page_size)
validate_transition-identity_example =
    validate_transition-identity low low_address low_address low-IsValid transition_passes low_found
      (omega arith)

-- The code of the kernel may not be written by way of the direct map.
alias_rejected :
    insert_mapping
      (range 0xffff_8000_0020_0000 0xffff_8000_0020_1000)
      text_frames
      kernel_rw
      write_back
      direct_map
      two
    ≡ err (raised physical_alias_write_execute)
unfolding insert_mapping validate_mapping_policy from_bits user new writable executable
alias_rejected = refl

-- A plan without the guard under the stack is not a final one.
guard_needed : validate_final two ≡ err missing_stack_guard
unfolding insert_mapping validate_mapping_policy from_bits user new writable executable
    validate_final reject_low require_guards require_guard
guard_needed = refl
