-- ===== src/Multitask/Tests.antt =====
-- Runs of source/kernel/multitask.c, and its theorems at concrete process tables.
use deputy_kernel.Base.{
  ℕ, zero, suc, ◌+◌, ◌<◌, ◌≡◌, ◌≢◌, refl, Bool, true, false, not, ◌||◌, List, [], ◌∷◌, none, some,
  arith, ok, panic, replicate, set, get_elem?, if◌then◌else◌, ℤ, pos, load, store, ◌==◌, ◌&&◌,
}
use deputy_kernel.Memory.{Memory, unused, owner, malloc}
use deputy_kernel.Memory.Layout.{done, skip, region}
use deputy_kernel.Memory.Malloc.{IsValid}
use deputy_kernel.Multitask.{
  Tasks, Proc, proc_limit, zero_ctx, zero_proc, overflows, kill, find_inactive, spawn_at, spawn,
  yield, exit, name_buffer, fresh_proc,
}
use deputy_kernel.Multitask.Exit.{exit-Next}
use deputy_kernel.Multitask.Fairness.{Reaches, yields-Reaches}
use deputy_kernel.Multitask.Lifetime.{kill-spawn}
use deputy_kernel.Multitask.Schedule.{IsReady, Next, runnable_at, yield-Next}
use deputy_kernel.Multitask.Spawn.{IsTable, Spawned, active_at, spawn-Spawned}

-- No active process of the table has left its stack, as a test.
sound : List Proc → Bool
sound [] = true
sound (p ∷ v) = (not p.active || not (overflows p)) && sound v

sound_lem :
    (v : List Proc) (i : ℕ) (p : Proc)
    → sound v ≡ true
    → get_elem? v i ≡ some p
    → p.active ≡ true
    → overflows p ≡ false
unfolding sound
sound_lem [] i p s at a = absurd (ground (arith, at))
sound_lem (x ∷ v) zero p s at a = ground (arith, at, s, a)
sound_lem (x ∷ v) (suc i) p s at a = sound_lem v i p (ground (arith, s)) at a

-- A process with one page of stack at `stack`, whose stack pointer is `esp`.
abbrev process : (stack esp : ℕ) → Proc
process stack esp = record zero_proc {
  name = name_buffer none;
  context = record zero_ctx { esp = esp; eip = 0x2000 };
  stack = stack;
  active = true;
}

-- Processes 1 and 3 of a table.
abbrev table : List Proc
table =
    zero_proc
    ∷ process 0x11000 0x11F00
    ∷ zero_proc
    ∷ process 0x12000 0x12800
    ∷ replicate 28 zero_proc

abbrev pages : Memory
pages = record {
  init_lock = true;
  space = 0x10000;
  limit = 0x14000;
  block_v = unused ∷ owner 1 ∷ owner 1 ∷ unused ∷ [];
  block_c = 4;
  bytes = λ a. 0;
}

pages-IsValid : IsValid pages
pages-IsValid = record {
  started = refl;
  table = refl;
  above_null = omega arith;
  aligned = refl;
  end = refl;
  fits = omega arith;
  layout = skip (region 0 (region 0 (skip done)));
}

abbrev tasks : ℕ → Tasks
tasks f = record {
  init_lock = true;
  in_stream = true;
  focus = pos f;
  proc_v = table;
  def_regs = zero_ctx;
  memory = pages;
}

sound-table : sound table ≡ true
unfolding sound overflows name_buffer
sound-table = refl

tasks-IsReady : (f : ℕ) → f < proc_limit → IsReady (tasks f) f
tasks-IsReady f h = record {
  started = refl;
  size = refl;
  focus = refl;
  in_range = h;
  healthy = λ i p at a. sound_lem table i p sound-table at a;
}

tasks-IsTable : IsTable (tasks 1)
tasks-IsTable = record { started = refl; size = refl; memory = pages-IsValid; room = omega arith }

yield-Next_example :
    (next : ℕ) × Next table 1 next
    × (yield (tasks 1) ≡ (
        if 1 == 0 && next == 0
        then panic
        else ok (some (1, next), record (tasks 1) { in_stream = true; focus = pos next })))
yield-Next_example = yield-Next 1 (tasks-IsReady 1 (omega arith))

yields-Reaches_example : Reaches (tasks 3) 1 (proc_limit + proc_limit)
unfolding runnable_at
yields-Reaches_example =
    yields-Reaches 3 1 (tasks-IsReady 3 (omega arith)) (omega arith) (omega arith) refl

spawn-Spawned_example :
    (r : ℤ × Tasks) × (spawn none 0x4000 (tasks 1) ≡ ok r) × Spawned none 0x4000 (tasks 1) r
spawn-Spawned_example = spawn-Spawned none 0x4000 tasks-IsTable (omega arith)

-- The new process 2, with its stack in block 0.
abbrev spawned : Tasks
spawned = record (tasks 1) {
  proc_v = set table 2 (fresh_proc zero_proc none 0x4000 0x10000 zero_ctx);
  memory = record pages { block_v = owner 1 ∷ owner 1 ∷ owner 1 ∷ unused ∷ [] };
}

spawn_runs : spawn none 0x4000 (tasks 1) ≡ ok (pos 2, spawned)
unfolding spawn spawn_at find_inactive malloc load store fresh_proc name_buffer
spawn_runs = refl

kill-spawn_example :
    (t : Tasks) × (kill (pos 2) spawned ≡ ok (pos 0, t))
    × (t.memory ≡ pages)
    × ((i : ℕ) → active_at t.proc_v i ≡ active_at table i)
kill-spawn_example =
    kill-spawn none 0x4000 (pos 2, spawned) tasks-IsTable (omega arith) spawn_runs (λ e. cc)

-- Process 1 has run out of its stack.
abbrev deep : Tasks
deep = record (tasks 1) { proc_v = set table 1 (process 0x11000 0x10FFC) }

exit-Next_example :
    (next : ℕ) × (t' : Tasks) × (exit (tasks 1) ≡ ok (some (1, next), t'))
    × Next t'.proc_v 1 next
    × (active_at t'.proc_v 1 ≡ false)
    × ((i : ℕ) → 1 ≢ i → get_elem? t'.proc_v i ≡ get_elem? table i)
exit-Next_example =
    exit-Next 1 (tasks-IsReady 1 (omega arith)) pages-IsValid (omega arith) refl refl refl
