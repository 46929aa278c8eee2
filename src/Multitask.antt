-- ===== src/Multitask.antt =====
-- Cooperative multitasking, source/kernel/multitask.c (all but `exec`). `yield` and `exit` return the
-- pair (old, next) of process numbers whose contexts `multitask_swi` exchanges, if any; the
-- registers themselves are saved and loaded by that assembly routine. A status of -1 is `minus_one`.
pub mod Fairness
pub mod Schedule
pub mod Lifetime
pub mod Spawn
pub mod Exec
pub mod Exit
mod Tests
use deputy_kernel.Base.{
  ℕ, zero, suc, ◌+◌, ◌-◌, ◌*◌, ◌%◌, ◌^◌, Bool, true, false, not, ◌||◌, ◌&&◌, List, ◌∷◌, ◌++◌,
  Option, none, some, ltb, leb, ◌==◌, if◌then◌else◌, Run, ok, panic, ◌>>=◌, load, store, replicate,
  take, length, ℤ, pos, negsuc, minus_one, within, load_at, store_at,
}
use deputy_kernel.Memory.{Memory, malloc, free}

-- `MULTITASK_PROCLIMIT`, `MULTITASK_NAMELIMIT`, `MULTITASK_STACKSIZE`, `sizeof(multitask_Proc_t)`.
abbrev pub proc_limit : ℕ
proc_limit = 32

abbrev pub name_limit : ℕ
name_limit = 16

abbrev pub stack_size : ℕ
stack_size = 4096

abbrev pub sizeof_proc : ℕ
sizeof_proc = 76

-- `multitask_Ctx_t`
pub record Ctx : Type 0 where
  pub eax : ℕ
  pub ebx : ℕ
  pub ecx : ℕ
  pub edx : ℕ
  pub esi : ℕ
  pub edi : ℕ
  pub esp : ℕ
  pub ebp : ℕ
  pub eip : ℕ
  pub eflags : ℕ
  pub cr3 : ℕ

-- `multitask_Proc_t`
pub record Proc : Type 0 where
  pub name : List ℕ
  pub context : Ctx
  pub stack : ℕ
  pub parent : ℕ
  pub user : ℕ
  pub file : Bool
  pub freeze : Bool
  pub active : Bool

-- The variables of multitask.c, and the memory manager that it calls.
pub record Tasks : Type 0 where
  pub init_lock : Bool
  pub in_stream : Bool
  pub focus : ℤ
  pub proc_v : List Proc
  pub def_regs : Ctx
  pub memory : Memory

-- What `fill` with 0 leaves.
abbrev pub zero_ctx : Ctx
zero_ctx = record {
  eax = 0;
  ebx = 0;
  ecx = 0;
  edx = 0;
  esi = 0;
  edi = 0;
  esp = 0;
  ebp = 0;
  eip = 0;
  eflags = 0;
  cr3 = 0;
}

abbrev pub zero_proc : Proc
zero_proc = record {
  name = replicate name_limit 0;
  context = zero_ctx;
  stack = 0;
  parent = 0;
  user = 0;
  file = false;
  freeze = false;
  active = false;
}

-- `active` is read before the process number is checked.
unfoldable pub kill : ℤ → Tasks → Run (ℤ × Tasks)
kill pid t = if not t.init_lock then ok (minus_one, t) else do
  p ← load_at t.proc_v pid
  if not p.active || not (within 1 proc_limit pid) then ok (minus_one, t) else do
    memory ← free p.stack t.memory
    v ←
        store_at t.proc_v pid
          (record p { name = replicate name_limit 0; context = zero_ctx; active = false })
    ok (pos 0, record t { proc_v = v; memory = memory })

-- The stack pointer of a process is at most `stack` ("explosion"), or above the stack's end.
unfoldable pub overflows : Proc → Bool
overflows p = leb p.context.esp p.stack || ltb ((p.stack + stack_size) % 2 ^ 32) p.context.esp

unfoldable pub freeze_proc : ℤ → Tasks → Run Tasks
freeze_proc pid t = do
  p ← load_at t.proc_v pid
  v ← store_at t.proc_v pid (record p { freeze = true })
  ok (record t { proc_v = v })

-- The log lines are left out.
unfoldable pub sentry : ℤ → Tasks → Run Tasks
sentry pid t = if not t.init_lock || not (within 1 proc_limit pid) then ok t else do
  p ← load_at t.proc_v pid
  if not p.active || not (overflows p) then ok t else do
    (status, t') ← kill pid t
    elim status [ pos _ ↦ ok t' | negsuc _ ↦ freeze_proc pid t' ]

-- The first inactive process number from `i` on; 0 if there is none.
unfoldable pub find_inactive : List Proc → ℕ → ℕ → Run ℕ
find_inactive v i zero = ok 0
find_inactive v i (suc n) = do
  p ← load v i
  elim p.active [ true ↦ find_inactive v (suc i) n | false ↦ ok i ]

-- The name's bytes and zeros up to the limit: `fill`, then `copy` or `ncopy`.
unfoldable pub name_buffer : Option (List ℕ) → List ℕ
name_buffer none = 0x5B ∷ 0x55 ∷ 0x6E ∷ 0x6B ∷ 0x6E ∷ 0x6F ∷ 0x77 ∷ 0x6E ∷ 0x5D ∷ replicate 7 0
name_buffer (some s) =
    let kept = if ltb (length s) name_limit then s else take (name_limit - 1) s in
    kept ++ replicate (name_limit - length kept) 0

-- The process that `spawn` sets up in the place of `p`; its `ebp` and `user` stay as they were.
unfoldable pub fresh_proc : Proc → Option (List ℕ) → (prog stack : ℕ) → Ctx → Proc
fresh_proc p name prog stack regs = record p {
  name = name_buffer name;
  context = record zero_ctx {
    eflags = regs.eflags;
    eip = prog;
    cr3 = regs.cr3;
    esp = (stack + stack_size) % 2 ^ 32;
    ebp = p.context.ebp;
  };
  stack = stack;
  parent = 0;
  file = false;
  freeze = false;
  active = true;
}

-- A process number has been found.
unfoldable pub spawn_at : ℕ → Option (List ℕ) → ℕ → Tasks → Run (ℤ × Tasks)
spawn_at pid name prog t = do
  (stack, memory) ← malloc stack_size t.memory
  p ← load t.proc_v pid
  let started = fresh_proc p name prog stack t.def_regs
  let q = if stack == 0 then record p { stack = 0 } else started
  v ← store t.proc_v pid q
  ok (if stack == 0 then minus_one else pos pid, record t { proc_v = v; memory = memory })

unfoldable pub spawn : Option (List ℕ) → ℕ → Tasks → Run (ℤ × Tasks)
spawn name prog t = if not t.init_lock || prog == 0 then ok (minus_one, t) else do
  pid ← find_inactive t.proc_v 1 (proc_limit - 1)
  if pid == 0 then ok (minus_one, t) else spawn_at pid name prog t

-- `active && !freeze`
abbrev pub runnable : Proc → Bool
runnable p = p.active && not p.freeze

-- The first process from `i` on that can run; 0 if there is none.
unfoldable pub find_next : List Proc → ℕ → ℕ → Run ℕ
find_next v i zero = ok 0
find_next v i (suc n) = do
  p ← load v i
  elim (runnable p) [ true ↦ ok i | false ↦ find_next v (suc i) n ]

-- A focus that is out of range counts as the kernel's, 0.
unfoldable pub focus_of : ℤ → ℕ
focus_of (pos n) = if ltb n proc_limit then n else 0
focus_of (negsuc n) = 0

-- The search of `yield` after the process `f`.
unfoldable pub choose_next : ℕ → List Proc → Run ℕ
choose_next f v =
    if f == 0
    then (do next ← find_next v 1 (proc_limit - 1); if next == 0 then panic else ok next)
    else find_next v (f + 1) (proc_limit - 1 - f)

unfoldable pub yield : Tasks → Run (Option (ℕ × ℕ) × Tasks)
yield t = if not t.init_lock then ok (none, t) else do
  let f = focus_of t.focus
  t' ← sentry (pos f) (record t { in_stream = true; focus = pos f })
  next ← choose_next f t'.proc_v
  ok (if f == next then (none, t') else (some (f, next), record t' { focus = pos next }))

unfoldable pub exit : Tasks → Run (Option (ℕ × ℕ) × Tasks)
exit t = do
  let f = focus_of t.focus
  let t' = record t { focus = pos f }
  if not t.init_lock || f == 0 || not t.in_stream
      then ok (none, t')
      else do (_, t'') ← kill (pos f) t'; yield t''

-- `cr3` and `eflags` are read from the processor.
unfoldable pub multitask_init : (cr3 eflags : ℕ) → Tasks → Run Tasks
multitask_init cr3 eflags t = if t.init_lock then ok t else do
  (table, memory) ← malloc (proc_limit * sizeof_proc) t.memory
  if table == 0
      then panic
      else ok (record t {
        init_lock = true;
        proc_v = replicate proc_limit zero_proc;
        def_regs = record (t.def_regs) { cr3 = cr3; eflags = eflags };
        memory = memory;
      })
