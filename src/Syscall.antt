-- ===== src/Syscall.antt =====
-- The system calls, source/kernel/syscall.c: the table, and the handler between the registers that it
-- is given and the register for the result. A call is a function in memory: `call` runs the one at
-- an address.
pub mod Dispatch
mod Tests
use deputy_kernel.Base.{
  ℕ, ◌+◌, ◌-◌, ◌^◌, Bool, true, false, not, ◌&&◌, ◌==◌, ltb, if◌then◌else◌, List, [], ◌∷◌, Run, ok,
  fault, panic, ◌>>=◌, load, store, ℤ, pos, minus_one, ◌≡◌, refl, length, ◌<◌, suc, arith,
  load-fault, replicate,
}
use deputy_kernel.Hw.Interrupts.{Idt, set_gate}

abbrev pub int_vector : ℕ
int_vector = 0x80

abbrev pub ent_count : ℕ
ent_count = 256

abbrev pub sys_exit : ℕ
sys_exit = 1

abbrev pub sys_spawn : ℕ
sys_spawn = 2

abbrev pub sys_read : ℕ
sys_read = 3

abbrev pub sys_write : ℕ
sys_write = 4

abbrev pub sys_open : ℕ
sys_open = 5

abbrev pub sys_close : ℕ
sys_close = 6

abbrev pub sys_yield : ℕ
sys_yield = 0x9E

-- The general registers at the interrupt.
pub record Registers : Type 0 where
  pub eax : ℕ
  pub ebx : ℕ
  pub ecx : ℕ
  pub edx : ℕ
  pub esi : ℕ
  pub edi : ℕ

-- The addresses of the functions that the table is given.
pub record Calls : Type 0 where
  pub exit : ℕ
  pub spawn : ℕ
  pub read : ℕ
  pub write : ℕ
  pub open_call : ℕ
  pub close : ℕ
  pub handler : ℕ
  pub yield_router : ℕ

module _ {S : Type 0} (call : (addr ebx ecx edx esi edi : ℕ) → S → Run (ℕ × S)) where
  -- The table is read at `eax` before `eax` is compared with its size.
  unfoldable pub syscall_handler : List ℕ → Registers → S → Run (Registers × S)
  syscall_handler table r s = do
    entry ← load table r.eax
    if entry == 0 then ok (r, s) else do
      again ← load table r.eax
      (result, t) ←
          if not (again == 0) && ltb r.eax ent_count
          then call again r.ebx r.ecx r.edx r.esi r.edi s
          else ok (2 ^ 32 - 1, s)
      ok (record r { eax = result }, t)

-- The entries of the table.
unfoldable pub fill_table : Calls → List ℕ → Run (List ℕ)
fill_table c table = do
  t1 ← store table sys_exit c.exit
  t2 ← store t1 sys_spawn c.spawn
  t3 ← store t2 sys_read c.read
  t4 ← store t3 sys_write c.write
  t5 ← store t4 sys_open c.open_call
  store t5 sys_close c.close

unfoldable pub syscall_init : (default_handler : ℕ) → Calls → List ℕ → Idt → Run (List ℕ × Idt)
syscall_init default_handler c table idt = do
  filled ← fill_table c table
  idt1 ← set_gate default_handler (pos int_vector) c.handler idt
  idt2 ← set_gate default_handler (pos sys_yield) c.yield_router idt1
  ok (filled, idt2)
