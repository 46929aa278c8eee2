-- ===== src/Multitask/Spawn.antt =====
-- How `spawn` of source/kernel/multitask.c ends.
use deputy_kernel.Base.{
  ℕ, zero, suc, ◌+◌, ◌≤◌, ◌<◌, ◌≡◌, refl, sym, subst, ◌∙◌, ◌≢◌, ◌⊎◌, inl, inr, Bool, true, false,
  List, Option, none, some, arith, ok, length, set, get_elem?, get_elem?-some, load-get_elem?,
  store-set, ℤ, pos, minus_one, Bool-cases, dec_lt, ℕ_discrete,
}
use deputy_kernel.Memory.{Memory, block_count, malloc}
use deputy_kernel.Memory.Malloc.{IsValid, Fits, malloc-Outcome}
use deputy_kernel.Multitask.{
  Tasks, Proc, proc_limit, stack_size, find_inactive, fresh_proc, spawn_at, spawn,
}

-- The manager after `multitask_init`, over a memory with at least one block.
pub record IsTable (t : Tasks) : Type 0 where
  pub started : t.init_lock ≡ true
  pub size : length t.proc_v ≡ proc_limit
  pub memory : IsValid t.memory
  pub room : 1 ≤ t.memory.block_c

unfoldable pub active_at : List Proc → ℕ → Bool
active_at v i = elim (get_elem? v i) [ none ↦ false | some p ↦ p.active ]

pub active_at_lem :
    (v : List Proc) (i : ℕ) {p : Proc} → get_elem? v i ≡ some p → active_at v i ≡ p.active
unfolding active_at
active_at_lem v i at = rw (at, active_at)

pub stack_Fits : {t : Tasks} → IsTable t → Fits t.memory stack_size
unfolding block_count
stack_Fits v = record {
  positive = omega arith;
  no_wrap = omega arith;
  small = omega (arith, v.room);
}

-- The search for a process number: the lowest inactive one, or 0.
record Free (v : List Proc) (from pid : ℕ) : Type 0 where
  cases :
      ((pid ≡ 0) × ((j : ℕ) → from ≤ j → j < proc_limit → active_at v j ≡ true))
      ⊎ ((from ≤ pid)
          × (pid < proc_limit)
          × (active_at v pid ≡ false)
          × ((j : ℕ) → from ≤ j → j < pid → active_at v j ≡ true))

also_here :
    (v : List Proc) (i : ℕ) (top : ℕ)
    → active_at v i ≡ true
    → ((j : ℕ) → suc i ≤ j → j < top → active_at v j ≡ true)
    → (j : ℕ) → i ≤ j
    → j < top
    → active_at v j ≡ true
also_here v i top here above j h k = elim (dec_lt i j) [
  | yes p ↦ above j p k
  | no p ↦ let e : j ≡ i = omega arith in rw e here
]

Free-suc : (v : List Proc) (i pid : ℕ) → active_at v i ≡ true → Free v (suc i) pid → Free v i pid
Free-suc v i pid here f = elim f.cases [
  | inl (z, all) ↦ record { cases = inl (z, also_here v i proc_limit here all) }
  | inr (low, top, idle, below) ↦ record {
    cases = inr (omega arith, top, idle, also_here v i pid here below);
  }
]

find_inactive-Free :
    (v : List Proc) (i n : ℕ)
    → length v ≡ proc_limit
    → i + n ≡ proc_limit
    → (pid : ℕ) × (find_inactive v i n ≡ ok pid) × Free v i pid
unfolding find_inactive
find_inactive-Free v i zero size e =
    (0, refl, record { cases = inl (refl, λ j h k. absurd (omega arith)) })
find_inactive-Free v i (suc n) size e =
    let (p, at) = get_elem?-some v i (omega arith) in
    let here = active_at_lem v i at in
    elim (Bool-cases p.active) [
      | inl a ↦
          let (pid, run, f) = find_inactive-Free v (suc i) n size (omega arith) in
          (pid, ground (arith, load-get_elem? v i at), Free-suc v i pid (here ∙ a) f)
      | inr a ↦ (
        i,
        ground (arith, load-get_elem? v i at),
        record { cases = inr (omega arith, omega arith, here ∙ a, λ j h k. absurd (omega arith)) },
      )
    ]

-- How `spawn` ends: no process number is left, there is no memory for a stack, or the lowest
-- inactive number above 0 has become a fresh process with a stack of its own.
pub data Spawned (name : Option (List ℕ)) (prog : ℕ) (t : Tasks) : ℤ × Tasks → Type 0 where
  table_full :
      ((j : ℕ) → 1 ≤ j → j < proc_limit → active_at t.proc_v j ≡ true)
      → Spawned name prog t (minus_one, t)
  no_stack :
      (pid : ℕ) (p : Proc) (memory : Memory)
      → get_elem? t.proc_v pid ≡ some p
      → p.active ≡ false
      → malloc stack_size t.memory ≡ ok (0, memory)
      → Spawned name prog t (
        minus_one,
        record t { proc_v = set t.proc_v pid (record p { stack = 0 }); memory = memory },
      )
  started :
      (pid : ℕ) (p : Proc) (stack : ℕ) (memory : Memory)
      → 1 ≤ pid
      → pid < proc_limit
      → get_elem? t.proc_v pid ≡ some p
      → p.active ≡ false
      → ((j : ℕ) → 1 ≤ j → j < pid → active_at t.proc_v j ≡ true)
      → malloc stack_size t.memory ≡ ok (stack, memory)
      → stack ≢ 0
      → Spawned name prog t (
        pos pid,
        record t {
          proc_v = set t.proc_v pid (fresh_proc p name prog stack t.def_regs);
          memory = memory;
        },
      )

module _ (name : Option (List ℕ)) (prog : ℕ) (t : Tasks) (pid : ℕ) (p : Proc) (memory : Memory)
    (inside : pid < length t.proc_v) (at : get_elem? t.proc_v pid ≡ some p) where
  spawn_at-no_stack :
      malloc stack_size t.memory ≡ ok (0, memory)
      → spawn_at pid name prog t
        ≡ ok (
          minus_one,
          record t { proc_v = set t.proc_v pid (record p { stack = 0 }); memory = memory },
        )
  unfolding spawn_at
  spawn_at-no_stack run =
      rw (
        run,
        load-get_elem? t.proc_v pid at,
        store-set t.proc_v pid (record p { stack = 0 }) inside,
      )

  spawn_at-started :
      (stack : ℕ)
      → malloc stack_size t.memory ≡ ok (stack, memory)
      → stack ≢ 0
      → spawn_at pid name prog t
        ≡ ok (
          pos pid,
          record t {
            proc_v = set t.proc_v pid (fresh_proc p name prog stack t.def_regs);
            memory = memory;
          },
        )
  unfolding spawn_at
  spawn_at-started stack run ne =
      let q = fresh_proc p name prog stack t.def_regs in
      ground (arith, run, load-get_elem? t.proc_v pid at, store-set t.proc_v pid q inside)

spawn_at-Spawned :
    (name : Option (List ℕ)) (prog : ℕ) {t : Tasks} (pid : ℕ)
    → IsTable t
    → 1 ≤ pid
    → pid < proc_limit
    → active_at t.proc_v pid ≡ false
    → ((j : ℕ) → 1 ≤ j → j < pid → active_at t.proc_v j ≡ true)
    → (r : ℤ × Tasks) × (spawn_at pid name prog t ≡ ok r) × Spawned name prog t r
spawn_at-Spawned name prog {t} pid v low top idle below =
    let inside : pid < length t.proc_v = omega (arith, v.size) in
    let (p, at) = get_elem?-some t.proc_v pid inside in
    let ((stack, memory), run, out) = malloc-Outcome stack_size v.memory (stack_Fits v) in
    let idle' : p.active ≡ false = sym (active_at_lem t.proc_v pid at) ∙ idle in
    elim (ℕ_discrete stack 0) [
      | yes z ↦
          let run' = subst (λ k. malloc stack_size t.memory ≡ ok (k, memory)) z run in
          (
            _,
            spawn_at-no_stack name prog t pid p memory inside at run',
            no_stack pid p memory at idle' run',
          )
      | no ne ↦ (
        _,
        spawn_at-started name prog t pid p memory inside at stack run ne,
        started pid p stack memory low top at idle' below run ne,
      )
    ]

-- `spawn` of a program that is not NULL, on an initialised table over a valid memory of at least
-- one block, returns in one of three ways: with -1 and nothing changed, as no number above 0 is
-- inactive; with -1 as there is no memory for a stack, which leaves a NULL stack in an inactive
-- process; or with the lowest inactive number above 0, which now holds a fresh process with a
-- stack from `malloc`.
pub spawn-Spawned :
    (name : Option (List ℕ)) (prog : ℕ) {t : Tasks}
    → IsTable t
    → prog ≢ 0
    → (r : ℤ × Tasks) × (spawn name prog t ≡ ok r) × Spawned name prog t r
unfolding spawn
spawn-Spawned name prog {t} v ne =
    let (pid, run, f) = find_inactive-Free t.proc_v 1 31 v.size refl in
    elim f.cases [
      | inl (z, all) ↦ ((minus_one, t), ground (arith, v.started, run), table_full all)
      | inr (low, top, idle, below) ↦
          let (r, run', s) = spawn_at-Spawned name prog pid v low top idle below in
          (r, ground (arith, v.started, run, run'), s)
    ]
