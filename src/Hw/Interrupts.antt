-- ===== src/Hw/Interrupts.antt =====
-- The interrupt descriptor table, source/hw/interrupts.c. The default handler's and the table's
-- addresses, and what the assembly routine of the exception gates does, are parameters.
pub mod Gate
use deputy_kernel.Base.{
  ℕ, zero, suc, ◌+◌, ◌-◌, ◌*◌, ◌/◌, ◌%◌, ◌^◌, Bool, true, false, not, ◌||◌, List, ◌==◌,
  if◌then◌else◌, Run, ok, ◌>>=◌, store_at, ℤ, pos, within,
}

-- `interrupts_IDTEntry_t`
pub record IdtEntry : Type 0 where
  pub offset_low : ℕ
  pub selector : ℕ
  pub reserved : ℕ
  pub attributes : ℕ
  pub offset_high : ℕ

-- `interrupts_InitLock`, `interrupts_IDTEntry` and `interrupts_IDTPointer`.
pub record Idt : Type 0 where
  pub init_lock : Bool
  pub entries : List IdtEntry
  pub limit : ℕ
  pub base : ℕ

unfoldable pub gate : ℕ → IdtEntry
gate addr = record {
  offset_low = addr % 2 ^ 16;
  selector = 0x08;
  reserved = 0;
  attributes = 0x8E;
  offset_high = addr / 2 ^ 16 % 2 ^ 16;
}

unfoldable pub set_gate : (default_handler : ℕ) → ℤ → ℕ → Idt → Run Idt
set_gate default_handler num handler t =
    if not (within 0 256 num) || not t.init_lock then ok t else do
      let addr = if handler == 0 then default_handler else handler
      entries ← store_at t.entries num (gate addr)
      ok (record t { entries = entries })

-- The loop of `interrupts_init`, from the vector `i` on.
unfoldable pub set_gates : (default_handler : ℕ) → ℕ → ℕ → Idt → Run Idt
set_gates default_handler i zero t = ok t
set_gates default_handler i (suc n) t = do
  t' ← set_gate default_handler (pos i) default_handler t
  set_gates default_handler (suc i) n t'

unfoldable pub interrupts_init : (default_handler table : ℕ) → (Idt → Run Idt) → Idt → Run Idt
interrupts_init default_handler table exceptions t = if t.init_lock then ok t else do
  t' ← set_gates default_handler 0 256 (record t { init_lock = true })
  t'' ← exceptions t'
  ok (record t'' { limit = 8 * 256 - 1; base = table })
