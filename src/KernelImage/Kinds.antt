-- ===== src/KernelImage/Kinds.antt =====
-- What `validate_bootstrap_image` and `validate_higher_half_image` of crates/kernel-image/src/lib.rs
-- note of the segments.
use unnamed_os_core.Common.{Bool, false}

-- The four variables of the loops over the segments.
pub record Kinds : Type 0 where
  pub has_execute : Bool
  pub has_read_only : Bool
  pub has_writable : Bool
  pub has_bss : Bool

abbrev pub no_kinds : Kinds
no_kinds = record {
  has_execute = false;
  has_read_only = false;
  has_writable = false;
  has_bss = false;
}
