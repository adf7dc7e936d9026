-- ===== src/Lib.antt =====
-- UnnamedOS Core: loading the kernel, and the first address space that it owns.
--
-- The repository holds a UEFI bootloader, a kernel, the protocol between them, a validator of the
-- kernel's image, and the crate `memory-layout`. The bootloader reads the kernel's file
-- (crates/bootloader/src/lib.rs), has its image validated (crates/kernel-image/src/lib.rs), plans
-- where the segments go and fills their pages (crates/bootloader/src/load_plan.rs), and plans the
-- mappings of the segments (crates/bootloader/src/higher_half_plan.rs) as a `MappingPlan` of
-- crates/memory-layout/src/lib.rs. That plan is checked for the transition (`validate_transition`)
-- and for the kernel (`validate_final`); crates/memory-layout/src/page_table.rs plans the page
-- tables that realise it, crates/memory-layout/src/frame_owner.rs owns their frames, and
-- crates/memory-layout/src/cpu.rs says whether the CPU may activate them. The kernel is handed the
-- boot information of crates/boot-protocol/src/lib.rs, to which
-- crates/boot-protocol/src/extensions.rs adds an area of extensions.
--
-- Files:
--   Common            tests, lists, slices, results and bits; `Result` is Rust's `Result`, `Fault`
--                     adds the panic of `expect` and of an index out of range to the errors
--   KernelImage       the types of crates/kernel-image/src/lib.rs; Bytes has the reads, Validate the
--                     checks of headers, sections, symbols and segments, Parse
--                     `ValidatedImage::parse` and `load_segments`, Bootstrap and HigherHalf the two
--                     policies, with the variables of their loops in Kinds
--   KernelImage/{Scanned, Sound, Image}, KernelImage/HigherHalf/Laws
--                     what the loop over the headers has found, and what an accepted image is
--   Bootloader/Acquire
--                     crates/bootloader/src/lib.rs: sizes, `read_exact_and_check_eof`, the page lease
--   Bootloader/Acquire/{Sizes, Read, Contents}
--                     page counts; that the exact read ends; what its results say of the file
--   Bootloader/LoadPlan
--                     `LoadPlan::build` and `make_item`; Items has the item's promise, Loop what the
--                     loop keeps, Layout the plan's promise
--   Bootloader/HigherHalfPlan
--                     `HigherHalfLoadPlan::from_validated`; Segments has the mappings of the loop,
--                     Laws the plan's promise
--   Bootloader/Targets
--                     `initialize_target`, `copy_target` and `verify_target`; Parts has the parts of
--                     an item's pages, Laws what the three do to them
--   Bootloader/Ownership
--                     `prepare_targets` and `TargetOwnership`; Held has which pages are allocated
--                     through a preparation, Released through a release
--   BootProtocol      the wire structures; Validate has their validation, Accepts what it accepts
--   BootProtocol/Extensions
--                     the data of extensions; Area has `validate_extension_area`, FrameList
--                     `validate_page_table_frames`; Reads and Ends have that the validation reads
--                     in bounds and ends, Frames which frames are accepted
--   MemoryLayout/Address, Range, Align, Permissions, Region
--                     the scalar types and their checks; a `u64` is a number, the sums of the
--                     source are checked against 2 ^ 64 where the source checks them
--   MemoryLayout/Range/{Accept, Overlap}
--                     what the constructors of ranges accept, and what the tests of ranges mean
--   MemoryLayout/Policy, Policy/Laws
--                     `validate_mapping_policy`, and the table of what it allows
--   MemoryLayout/Plan `MappingPlan`: the array, its length, `insert_mapping`, `insert_guard`,
--                     `insert`, `translate`; Plan/Validate has `validate_transition` and
--                     `validate_final`
--   MemoryLayout/Plan/{Shift, Valid, Insert, Keeps}
--                     the loops on the array, the invariant, that the operations keep it, and that
--                     an insertion keeps the translations
--   MemoryLayout/Plan/{Translate, Alias, Checked}
--                     what `translate` returns, on any valid plan and on a checked one
--   MemoryLayout/Plan/Built
--                     the plans that the operations lead to
--   MemoryLayout/PageTable, PageTable/Construct
--                     the types of page_table.rs, and `ConstructionPlan::build` with all that it
--                     calls, `leaf_entry` among it
--   MemoryLayout/PageTable/{Flags, Indices}
--                     flags of leaves, indices of addresses
--   MemoryLayout/PageTable/{Extend, Tree, View, Push, Page, Leaf}
--                     the invariant of the planned tree, and what adding a table or a leaf changes
--                     of the leaves that a walk finds
--   MemoryLayout/PageTable/{Refine, Mappings, Build}
--                     pages, mappings and whole plans: the tables against `translate`
--   MemoryLayout/FrameOwner
--                     crates/memory-layout/src/frame_owner.rs: acquiring, releasing, dropping and
--                     transferring the frames of a plan's tables
--   MemoryLayout/FrameOwner/{Ledger, Acquire, Owner}
--                     a lawful backend (a parameter), and what is held of its allocations
--   MemoryLayout/FrameOwner/Distinct
--                     the frames that are acquired, at any backend
--   MemoryLayout/Cpu  the CPU prerequisites; Cpu/{Masks, Cr3} have what the masks keep of registers,
--                     Conditions and Snapshot which snapshots are accepted, Accepts which
--                     hierarchies
--   Tests, in each part
--                     the code and the theorems at concrete inputs
--
-- State is passed on: an operation on `&mut self` takes a value and returns it, an error
-- leaves the caller with the value that it had. That is what the source does in `MappingPlan`,
-- which writes only after its last check. `ConstructionPlan::build` drops its plan on an error.
-- Where an error leaves a changed owner (`allocate`, `prepare_targets`, `try_release`), the owner
-- is part of what the model returns. `copy_target` on an error returns no pages; what it has left
-- in them is not read again.
--
-- Parameters: the firmware's backends, files and readers are records of operations with a state.
-- The theorems on them name what they rely on: a backend's ledger of allocated ranges, and a reader
-- that moves bytes of a file to the start of the buffer. `usize` has the 64 bits of x86-64, so that
-- its conversions from `u64` succeed. The sums of crates/kernel-image/src/lib.rs that are not checked
-- wrap around in the model, as a release build does.
--
-- Loops: `for` over a slice is recursion on the list. The two `while` loops of `insert` recurse on
-- the rounds that are left, `len - position` and `index - position`, which is as often as they can
-- run. The page loop of `add_mapping` recurses on the number of pages. Two loops run on fuel, the
-- exact read and the one over the extension area: a round reads at least one byte, or passes at
-- least 16 bytes, so that the rounds named in the results below suffice. A
-- live index of a `MappingPlan` is below the length; an index out of range, where the source would
-- panic, reads `PlanEntry::EMPTY` in the model.
--
-- Not modelled: the serialisation of construction plans, `LoadedKernel` and the probes of page
-- ownership, the exit state machine, the activation of page tables, the bootstrap stack, the
-- normalisation of the firmware's memory map, the kernel, the calls of the firmware, and the
-- developer tools.
pub mod BootProtocol
pub mod Bootloader
pub mod Common
pub mod KernelImage
pub mod MemoryLayout
