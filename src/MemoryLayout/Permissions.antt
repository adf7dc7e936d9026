-- ===== src/MemoryLayout/Permissions.antt =====
-- `MappingPermissions` and `CachePolicy` of crates/memory-layout/src/lib.rs. A value of the
-- newtype is the byte that it wraps; `bit_and` is `&`.
use unnamed_os_core.Common.{
  ℕ, ◌*◌, ◌/◌, ◌%◌, ◌<◌, ◌+◌, ◌≡◌, ◌↔◌, Bool, not, true, arith, ◌==◌, bit_and, Result, ok, ◌>>◌,
  reject_if,
}
use unnamed_os_core.Common.Bits.{bit_and_step, bit_and-one, bit_and-ones}
use unnamed_os_core.MemoryLayout.Address.{
  LayoutError, unknown_permission_bits, read_permission_required, writable_executable,
}

abbrev pub MappingPermissions : Type 0
MappingPermissions = ℕ

-- READ, WRITE, EXECUTE, USER and GLOBAL are the bits 1, 2, 4, 8 and 16; KNOWN is all of them.
abbrev pub kernel_rx : MappingPermissions
kernel_rx = 21

abbrev pub kernel_r : MappingPermissions
kernel_r = 17

abbrev pub kernel_rw : MappingPermissions
kernel_rw = 19

-- `!Self::KNOWN`
abbrev unknown_mask : ℕ
unknown_mask = 224

unfoldable pub from_bits : ℕ → Result LayoutError MappingPermissions
from_bits bits = do
  reject_if (not (bit_and bits unknown_mask == 0)) unknown_permission_bits
  reject_if (bit_and bits 1 == 0) read_permission_required
  reject_if (bit_and bits 6 == 6) writable_executable
  ok bits

unfoldable pub writable : MappingPermissions → Bool
writable p = not (bit_and p 2 == 0)

unfoldable pub executable : MappingPermissions → Bool
executable p = not (bit_and p 4 == 0)

unfoldable pub user : MappingPermissions → Bool
user p = not (bit_and p 8 == 0)

pub data CachePolicy : Type 0 where
  write_back uncached : CachePolicy

-- The `#[repr(u8)]` value, by which the derived `==` tells the policies apart.
abbrev pub cache_code : CachePolicy → ℕ
cache_code write_back = 0
cache_code uncached = 1

-- What the masks read, digit by digit.
bit_and_two : (b : ℕ) → bit_and b 2 ≡ b / 2 % 2 * 2
bit_and_two b = omega (arith, bit_and_step b 2, bit_and-one (b / 2))

bit_and_four : (b : ℕ) → bit_and b 4 ≡ b / 4 % 2 * 4
bit_and_four b = omega (arith, bit_and_step b 4, bit_and_two (b / 2))

bit_and_six : (b : ℕ) → bit_and b 6 ≡ b / 4 % 2 * 4 + b / 2 % 2 * 2
bit_and_six b = omega (arith, bit_and_step b 6, bit_and_step (b / 2) 3, bit_and-one (b / 2 / 2))

bit_and_high : (b : ℕ) → bit_and b 224 ≡ b / 32 % 8 * 32
bit_and_high b = omega (
  arith,
  bit_and_step b 224,
  bit_and_step (b / 2) 112,
  bit_and_step (b / 2 / 2) 56,
  bit_and_step (b / 2 / 2 / 2) 28,
  bit_and_step (b / 2 / 2 / 2 / 2) 14,
  bit_and-ones 3 (b / 2 / 2 / 2 / 2 / 2),
)

-- `from_bits` accepts a byte exactly if it has known bits only, the READ bit, and not both WRITE
-- and EXECUTE; it returns the byte unchanged.
pub from_bits_accepts :
    (bits : ℕ) (p : MappingPermissions)
    → bits < 256
    → (from_bits bits ≡ ok p) ↔ (
        (p ≡ bits)
        × (bits < 32)
        × (bits % 2 ≡ 1)
        × ¬ ((writable bits ≡ true) × (executable bits ≡ true)))
unfolding from_bits writable executable
from_bits_accepts bits p byte =
    let one = bit_and-one bits in
    let two = bit_and_two bits in
    let four = bit_and_four bits in
    let six = bit_and_six bits in
    let high = bit_and_high bits in (λ h. ground arith, λ h. ground arith)
