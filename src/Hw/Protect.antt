-- ===== src/Hw/Protect.antt =====
-- The global descriptor table, source/hw/protect_init.c. The table's address is a parameter;
-- `protect_flush` is assembly.
pub mod Segment
use deputy_kernel.Base.{
  ℕ, ◌+◌, ◌-◌, ◌*◌, ◌/◌, ◌%◌, ◌^◌, Bool, true, List, if◌then◌else◌, Run, ok, ◌>>=◌, store,
}

-- `protect_GDTEntry_t`
pub record GdtEntry : Type 0 where
  pub limit_low : ℕ
  pub base_low : ℕ
  pub base_middle : ℕ
  pub access : ℕ
  pub granularity : ℕ
  pub base_high : ℕ

-- `protect_InitLock`, `protect_GDTEntry` and `protect_GDTPointer`.
pub record Gdt : Type 0 where
  pub init_lock : Bool
  pub entries : List GdtEntry
  pub limit : ℕ
  pub base : ℕ

-- The low nibble comes from the limit, the high one from the argument.
unfoldable pub gdt_entry : (base limit access granularity : ℕ) → GdtEntry
gdt_entry base limit access granularity = record {
  base_low = base % 2 ^ 16;
  base_middle = base / 2 ^ 16 % 2 ^ 8;
  base_high = base / 2 ^ 24 % 2 ^ 8;
  limit_low = limit % 2 ^ 16;
  granularity = limit / 2 ^ 16 % 2 ^ 4 + granularity / 2 ^ 4 % 2 ^ 4 * 2 ^ 4;
  access = access;
}

unfoldable pub set_gdt_entry : ℕ → (base limit access granularity : ℕ) → Gdt → Run Gdt
set_gdt_entry num base limit access granularity t = do
  entries ← store t.entries num (gdt_entry base limit access granularity)
  ok (record t { entries = entries })

unfoldable pub protect_init : (table : ℕ) → Gdt → Run Gdt
protect_init table t = if t.init_lock then ok t else do
  t1 ← set_gdt_entry 0 0 0 0 0 (record t { init_lock = true; limit = 8 * 3 - 1; base = table })
  t2 ← set_gdt_entry 1 0 0xFFFFFFFF 0x9A 0xCF t1
  set_gdt_entry 2 0 0xFFFFFFFF 0x92 0xCF t2
