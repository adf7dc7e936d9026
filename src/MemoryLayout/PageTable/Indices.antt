-- ===== src/MemoryLayout/PageTable/Indices.antt =====
-- The four indices of crates/memory-layout/src/page_table.rs identify the page of an address.
use unnamed_os_core.Common.{
  ℕ, ◌/◌, ◌%◌, ◌^◌, ◌<◌, ◌≡◌, ◌↔◌, refl, length, [], ◌∷◌, true, arith, u64_end,
}
use unnamed_os_core.Common.Bits.{bit_and-ones}
use unnamed_os_core.MemoryLayout.Address.{is_canonical, page_size}
use unnamed_os_core.MemoryLayout.PageTable.{TableIndices, virtual_address_indices}

abbrev index_digits : ℕ → TableIndices
index_digits a = record {
  upper = a / 2 ^ 39 % 512 ∷ a / 2 ^ 30 % 512 ∷ a / 2 ^ 21 % 512 ∷ [];
  leaf = a / 2 ^ 12 % 512;
}

indices_digits : (a : ℕ) → virtual_address_indices a ≡ index_digits a
unfolding virtual_address_indices
indices_digits a = rw (
  bit_and-ones 9 (a / 2 ^ 39),
  bit_and-ones 9 (a / 2 ^ 30),
  bit_and-ones 9 (a / 2 ^ 21),
  bit_and-ones 9 (a / 2 ^ 12),
)

-- Nine bits each from 39 down to 12, and a sign extension above, are all that an address has over
-- its offset in the page.
digits_page :
    (a b : ℕ)
    → a < u64_end
    → b < u64_end
    → is_canonical a ≡ true
    → is_canonical b ≡ true
    → a / 2 ^ 39 % 512 ≡ b / 2 ^ 39 % 512
    → a / 2 ^ 30 % 512 ≡ b / 2 ^ 30 % 512
    → a / 2 ^ 21 % 512 ≡ b / 2 ^ 21 % 512
    → a / 2 ^ 12 % 512 ≡ b / 2 ^ 12 % 512
    → a / page_size ≡ b / page_size
unfolding is_canonical
digits_page a b ha hb ca cb e1 e2 e3 e4 = ground arith

-- Two canonical 64-bit addresses have the same four indices exactly if they lie in the same page.
pub virtual_address_indices_iff :
    (a b : ℕ)
    → a < u64_end
    → b < u64_end
    → is_canonical a ≡ true
    → is_canonical b ≡ true
    → (virtual_address_indices a ≡ virtual_address_indices b) ↔ (a / page_size ≡ b / page_size)
virtual_address_indices_iff a b ha hb ca cb = (
  λ h.
      let e : index_digits a ≡ index_digits b = rw (← indices_digits a, ← indices_digits b) h in
      digits_page a b ha hb ca cb (ground arith) (ground arith) (ground arith) (ground arith),
  λ h. rw (indices_digits a, indices_digits b) (ground arith),
)

pub length-upper : (a : ℕ) → length (virtual_address_indices a).upper ≡ 3
unfolding virtual_address_indices
length-upper a = refl
