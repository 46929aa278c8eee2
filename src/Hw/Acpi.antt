-- ===== src/Hw/Acpi.antt =====
-- source/hw/acpi.c and the tables of include/hw/acpi.h.
pub mod Tables
pub mod Find
mod Tests
use deputy_kernel.Base.{ℕ, ◌+◌, ◌*◌, ◌^◌, Bool, List}
use deputy_kernel.Utils.Buffers.{Bytes}

-- `acpiTable_t`. The addresses of the tables are 0 for NULL.
pub record Acpi : Type 0 where
  pub oemid : List ℕ
  pub revision : ℕ
  pub support : Bool
  pub fadt : ℕ
  pub mcfg : ℕ

-- A field of two bytes in memory, and of four.
unfoldable pub word16 : Bytes → ℕ → ℕ
word16 mem a = mem a + mem (a + 1) * 2 ^ 8

unfoldable pub word32 : Bytes → ℕ → ℕ
word32 mem a = mem a + mem (a + 1) * 2 ^ 8 + mem (a + 2) * 2 ^ 16 + mem (a + 3) * 2 ^ 24

-- `BootArchitectureFlags`, which the compiler aligns to two bytes: `acpi_FADT_t` is not packed.
unfoldable pub boot_architecture_flags : Bytes → ℕ → ℕ
boot_architecture_flags mem fadt = word16 mem (fadt + 110)
