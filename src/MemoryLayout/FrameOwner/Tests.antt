-- ===== src/MemoryLayout/FrameOwner/Tests.antt =====
-- The owner of crates/memory-layout/src/frame_owner.rs over a backend of four frames.
use unnamed_os_core.Common.{
  ℕ, suc, ◌+◌, ◌*◌, ◌≤◌, ◌≡◌, refl, arith, true, not, ◌||◌, ◌==◌, if◌then◌else◌, ok, err, List, [],
  ◌∷◌, length,
}
use unnamed_os_core.MemoryLayout.Address.{new_physical_address}
use unnamed_os_core.MemoryLayout.PageTable.{final, new_physical_frame}
use unnamed_os_core.MemoryLayout.PageTable.Construct.{ConstructionPlan, root_table}
use unnamed_os_core.MemoryLayout.FrameOwner.{
  returned, failed, FrameBackend, FrameOwnerBuildError, PageTableFrameOwner, allocation,
  duplicate_frame, oldest_first, position, release_frames, give_up, zero_new, add_frame,
  acquire_frame, acquire, allocate, release_owner, drop_owner, drop_incomplete, transfer,
}
use unnamed_os_core.MemoryLayout.FrameOwner.Ledger.{occurs, total, Lawful, Owns}
use unnamed_os_core.MemoryLayout.FrameOwner.Acquire.{allocate-err-Owns}
use unnamed_os_core.MemoryLayout.FrameOwner.Distinct.{IsFrames, IsOldest, allocate-IsFrames}
use unnamed_os_core.MemoryLayout.FrameOwner.Owner.{
  Released, release_owner-Released, allocate-drop_owner, allocate-drop_incomplete,
  allocate-transfer,
}

-- A backend that hands out the pages from 4096 on, four of them.
record Bank : Type 0 where
  next : ℕ
  live : List ℕ

abbrev remove : ℕ → List ℕ → List ℕ
remove a [] = []
remove a (x ∷ xs) = let rest = remove a xs in if x == a then xs else x ∷ rest

abbrev page_of : Bank → ℕ
page_of bank = suc bank.next * 4096

abbrev four_frames : FrameBackend Bank ℕ
four_frames = record {
  allocate_frame = λ bank.
      if bank.next == 4 || not (total bank.live (page_of bank) == 0)
      then failed 1 bank
      else returned (page_of bank)
          (record { next = suc bank.next; live = page_of bank ∷ bank.live });
  zero_frame = λ a bank. returned tt bank;
  free_frame = λ a bank. returned tt (record bank { live = remove a bank.live });
}

abbrev outstanding : Bank → ℕ → ℕ
outstanding bank x = total bank.live x

total-remove :
    (a x : ℕ) (xs : List ℕ) → 1 ≤ total xs a → total (remove a xs) x + occurs a x ≡ total xs x
total-remove a x [] h = absurd (omega arith)
total-remove a x (y ∷ ys) h = ground (arith, total-remove a x ys)

four_frames-Lawful : Lawful four_frames outstanding
four_frames-Lawful = record {
  allocates = λ b b' a h. (ground arith, λ x. ground arith);
  allocate_fails = λ b b' e h x. ground arith;
  zeroes = λ b b' a u h x. ground arith;
  zero_fails = λ b b' a e h x. ground arith;
  frees = λ b b' a u held h x. ground (arith, total-remove a x b.live held);
  free_fails = λ b b' a e h x. ground arith;
}

never_refuses : (a : ℕ) (c c' : Bank) (e : ℕ) → four_frames.free_frame a c ≡ failed e c' → ⊥
never_refuses a c c' e h = ground arith

abbrev start : Bank
start = record { next = 0; live = [] }

-- Plans of two tables, and of six.
abbrev two_tables : ConstructionPlan
two_tables = record {
  mode = final;
  tables = root_table ∷ root_table ∷ [];
  entries = [];
  removals = [];
}

abbrev six_tables : ConstructionPlan
six_tables = record two_tables {
  tables = root_table ∷ root_table ∷ root_table ∷ root_table ∷ root_table ∷ root_table ∷ [];
}

abbrev two_frames : PageTableFrameOwner Bank
two_frames = record {
  backend = record { next = 2; live = 0x2000 ∷ 0x1000 ∷ [] };
  frames = 0x2000 ∷ 0x1000 ∷ [];
  root = 0x1000;
  owned = true;
}

two_frames_made : allocate four_frames 8 two_tables start ≡ ok two_frames
unfolding allocate acquire acquire_frame add_frame zero_new oldest_first position new_physical_frame
    new_physical_address
two_frames_made = refl

-- The fifth frame is refused, and the four before it are freed.
abbrev exhausted : FrameOwnerBuildError Bank ℕ
exhausted = record {
  cause = allocation 4 1;
  owner = record { backend = record { next = 4; live = [] }; frames = [] };
}

exhausted_made : allocate four_frames 8 six_tables start ≡ err exhausted
unfolding allocate acquire acquire_frame add_frame zero_new oldest_first position new_physical_frame
    new_physical_address give_up release_frames
exhausted_made = refl

allocate-IsFrames_example :
    IsFrames two_frames.frames
    × (length two_frames.frames ≡ length two_tables.tables)
    × (length two_tables.tables ≤ 8)
    × IsOldest two_frames.frames two_frames.root
    × (two_frames.owned ≡ true)
allocate-IsFrames_example =
    allocate-IsFrames four_frames 8 two_tables start two_frames two_frames_made

-- A backend that hands out one address again and again: the second time is reported.
abbrev one_frame : FrameBackend Bank ℕ
one_frame = record four_frames { allocate_frame = λ bank. returned 4096 bank }

repeated_frame_rejected :
    allocate one_frame 8 two_tables start
    ≡ err (record { cause = duplicate_frame 1 0; owner = record { backend = start; frames = [] } })
unfolding allocate acquire acquire_frame add_frame zero_new oldest_first position new_physical_frame
    new_physical_address give_up release_frames
repeated_frame_rejected = refl

allocate-err-Owns_example :
    Owns four_frames outstanding (λ x. 0) exhausted.owner.frames exhausted.owner.backend
allocate-err-Owns_example =
    allocate-err-Owns four_frames outstanding (λ x. 0) four_frames-Lawful 8 six_tables start
      exhausted (λ x. refl) exhausted_made

release_owner-Released_example :
    Released four_frames outstanding
      (λ x. 0)
      four_frames-Lawful
      ((release_owner four_frames two_frames).0)
      ((release_owner four_frames two_frames).1)
release_owner-Released_example =
    release_owner-Released four_frames outstanding (λ x. 0) four_frames-Lawful two_frames refl
      (λ x. omega arith)

allocate-drop_owner_example :
    outstanding (drop_owner four_frames two_frames) 0x1000 ≡ outstanding start 0x1000
allocate-drop_owner_example =
    allocate-drop_owner four_frames outstanding four_frames-Lawful 8 two_tables start two_frames
      never_refuses two_frames_made 0x1000

allocate-drop_incomplete_example :
    outstanding (drop_incomplete four_frames exhausted.owner) 0x1000 ≡ outstanding start 0x1000
allocate-drop_incomplete_example =
    allocate-drop_incomplete four_frames outstanding four_frames-Lawful 8 six_tables start exhausted
      never_refuses exhausted_made 0x1000

allocate-transfer_example :
    (((transfer four_frames two_frames).0).frames ≡ two_frames.frames)
    × Owns four_frames outstanding
        (λ x. 0)
        ((transfer four_frames two_frames).0).frames
        ((transfer four_frames two_frames).1)
allocate-transfer_example =
    allocate-transfer four_frames outstanding four_frames-Lawful 8 two_tables start two_frames
      two_frames_made
