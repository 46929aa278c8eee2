-- ===== src/Multitask/Lifetime.antt =====
-- The life of a process of source/kernel/multitask.c: names, fresh processes and `kill`.
use deputy_kernel.Base.{
  ℕ, zero, suc, ◌+◌, ◌-◌, ◌^◌, ◌≤◌, ◌<◌, ◌≡◌, refl, sym, subst, ◌∙◌, ◌≢◌, true, false, List, [],
  ◌∷◌, ◌++◌, Option, none, some, arith, ok, fault, ok-injective, length, length-append,
  length-replicate, length-take, take, replicate, set, length-set, get_elem?, get_elem?-set_self,
  load-get_elem?, store-set, load-fault, ℤ, pos, negsuc, minus_one, within, ltb, if◌then◌else◌,
}
use deputy_kernel.Memory.{Memory, free}
use deputy_kernel.Memory.Lifecycle.{free-malloc}
use deputy_kernel.Multitask.{
  Tasks, Proc, proc_limit, name_limit, stack_size, zero_ctx, kill, overflows, name_buffer,
  fresh_proc, spawn,
}
use deputy_kernel.Multitask.Spawn.{
  IsTable, active_at, stack_Fits, Spawned, table_full, no_stack, started, spawn-Spawned,
}

padded-at :
    (xs : List ℕ) (n i : ℕ)
    → length xs ≤ i
    → i < length xs + n
    → get_elem? (xs ++ replicate n 0) i ≡ some 0
padded-at [] zero i h k = absurd (omega arith)
padded-at [] (suc n) zero h k = refl
padded-at [] (suc n) (suc i) h k = padded-at [] n i (omega arith) (omega arith)
padded-at (x ∷ xs) n zero h k = absurd (omega arith)
padded-at (x ∷ xs) n (suc i) h k = padded-at xs n i (omega arith) (omega arith)

padded :
    (xs : List ℕ)
    → length xs ≤ 15
    → (length (xs ++ replicate (16 - length xs) 0) ≡ 16)
      × (get_elem? (xs ++ replicate (16 - length xs) 0) 15 ≡ some 0)
padded xs h = (
  omega (
    arith,
    length-append xs (replicate (16 - length xs) 0),
    length-replicate (16 - length xs) zero,
  ),
  padded-at xs (16 - length xs) 15 h (omega arith),
)

-- Whatever name `spawn` is given, and without one, the name's 16 bytes are all written and the
-- last of them is 0.
pub name_buffer-terminated :
    (name : Option (List ℕ))
    → (length (name_buffer name) ≡ name_limit) × (get_elem? (name_buffer name) 15 ≡ some 0)
unfolding name_buffer
name_buffer-terminated none = (refl, refl)
name_buffer-terminated (some s) = padded kept (ground (arith, length-take 15 s))
  where
    kept : List ℕ
    kept = if ltb (length s) name_limit then s else take (name_limit - 1) s

-- A process that `spawn` has set up on a stack that ends below 2 ^ 32 is not one that the sentry
-- kills.
pub overflows-fresh_proc :
    (p : Proc) (name : Option (List ℕ)) (prog stack : ℕ) (t : Tasks)
    → stack + stack_size < 2 ^ 32
    → overflows (fresh_proc p name prog stack t.def_regs) ≡ false
unfolding overflows fresh_proc
overflows-fresh_proc p name prog stack t h = ground arith

pub kill_active :
    (t : Tasks) (pid : ℕ) {p : Proc} (memory : Memory)
    → t.init_lock ≡ true
    → pid < length t.proc_v
    → 1 ≤ pid
    → pid < proc_limit
    → get_elem? t.proc_v pid ≡ some p
    → p.active ≡ true
    → free p.stack t.memory ≡ ok memory
    → kill (pos pid) t
      ≡ ok (
        pos 0,
        record t {
          proc_v =
              set t.proc_v pid
                (record p { name = replicate name_limit 0; context = zero_ctx; active = false });
          memory = memory;
        },
      )
unfolding kill
kill_active t pid {p} memory lock inside low top at active freed = ground (
  arith,
  load-get_elem? t.proc_v pid at,
  store-set t.proc_v pid
      (record p { name = replicate name_limit 0; context = zero_ctx; active = false }) inside,
)

-- `kill` on an initialised table over a valid memory of at least one block, of a number that is
-- not from 0 to 31, reads outside the process table before it refuses the number.
pub kill-fault :
    {t : Tasks} (pid : ℤ) → IsTable t → within 0 proc_limit pid ≡ false → kill pid t ≡ fault
unfolding kill
kill-fault {t} (pos n) v h =
    ground (arith, v.started, load-fault t.proc_v n (ground (arith, v.size)))
kill-fault (negsuc n) v h = ground (arith, v.started)

-- Two writes to one entry that leave it inactive, as it was.
active_at-set-set :
    (v : List Proc) (pid i : ℕ) {p : Proc} (q q' : Proc)
    → get_elem? v pid ≡ some p
    → p.active ≡ q'.active
    → active_at (set (set v pid q) pid q') i ≡ active_at v i
unfolding active_at
active_at-set-set [] pid i q q' at e = refl
active_at-set-set (x ∷ v) zero zero q q' at e = ground arith
active_at-set-set (x ∷ v) zero (suc i) q q' at e = refl
active_at-set-set (x ∷ v) (suc pid) zero q q' at e = refl
active_at-set-set (x ∷ v) (suc pid) (suc i) q q' at e = active_at-set-set v pid i q q' at e

kill-started :
    {name : Option (List ℕ)} {prog : ℕ} {t : Tasks} {r : ℤ × Tasks}
    → IsTable t
    → Spawned name prog t r
    → r.0 ≢ minus_one
    → (t' : Tasks) × (kill r.0 r.1 ≡ ok (pos 0, t'))
      × (t'.memory ≡ t.memory)
      × ((i : ℕ) → active_at t'.proc_v i ≡ active_at t.proc_v i)
unfolding fresh_proc
kill-started v (table_full all) ne = absurd (ne refl)
kill-started v (no_stack pid p memory at idle run) ne = absurd (ne refl)
kill-started {name} {prog} {t} v (started pid p stack memory low top at idle below run ne') ne =
    let q = fresh_proc p name prog stack t.def_regs in
    let inside : pid < length t.proc_v = omega (arith, v.size) in
    let freed = free-malloc stack_size (stack, memory) v.memory (stack_Fits v) run ne' in
    (
      _,
      kill_active (record t { proc_v = set t.proc_v pid q; memory = memory }) pid t.memory v.started
          (omega (arith, length-set t.proc_v pid q)) low top
          (get_elem?-set_self t.proc_v pid q inside) refl freed,
      refl,
      λ i. active_at-set-set t.proc_v pid i q _ at idle,
    )

-- `kill` of the process that `spawn` started on an initialised table over a valid memory of at
-- least one block, from a program that is not NULL: it gives 0, the memory manager is in the
-- state before the spawn, and the same processes are active.
pub kill-spawn :
    (name : Option (List ℕ)) (prog : ℕ) {t : Tasks} (r : ℤ × Tasks)
    → IsTable t
    → prog ≢ 0
    → spawn name prog t ≡ ok r
    → r.0 ≢ minus_one
    → (t' : Tasks) × (kill r.0 r.1 ≡ ok (pos 0, t'))
      × (t'.memory ≡ t.memory)
      × ((i : ℕ) → active_at t'.proc_v i ≡ active_at t.proc_v i)
kill-spawn name prog {t} r v ne e ne' =
    let (s, run, o) = spawn-Spawned name prog v ne in
    kill-started v (subst (λ x. Spawned name prog t x) (ok-injective s r (sym run ∙ e)) o) ne'
