-- ===== src/Multitask/Exit.antt =====
-- `sentry` and `exit` of source/kernel/multitask.c: the ways in which a running process ends.
use deputy_kernel.Base.{
  ℕ, ◌≤◌, ◌<◌, ◌≡◌, refl, sym, subst, ap, ◌∙◌, ◌≢◌, true, false, List, none, some, arith, ok,
  length, replicate, set, length-set, get_elem?, get_elem?-set_self, get_elem?-set_ne,
  load-get_elem?, pos, if◌then◌else◌, ℕ_discrete,
}
use deputy_kernel.Memory.{Memory}
use deputy_kernel.Memory.Lifecycle.{free-IsValid}
use deputy_kernel.Memory.Malloc.{IsValid}
use deputy_kernel.Multitask.{
  Tasks, Proc, proc_limit, name_limit, zero_ctx, kill, overflows, sentry, exit,
}
use deputy_kernel.Multitask.Lifetime.{kill_active}
use deputy_kernel.Multitask.Schedule.{IsReady, focus_of_lem, Next, yield-Next}
use deputy_kernel.Multitask.Spawn.{active_at, active_at_lem}

-- The process and the state after a kill.
abbrev pub killed_proc : Proc → Proc
killed_proc p = record p { name = replicate name_limit 0; context = zero_ctx; active = false }

abbrev pub killed : Tasks → ℕ → Proc → Memory → Tasks
killed t pid p memory = record t { proc_v = set t.proc_v pid (killed_proc p); memory = memory }

-- `kill` of an active process always succeeds.
kill_lem :
    (t : Tasks) (pid : ℕ) {p : Proc}
    → t.init_lock ≡ true
    → length t.proc_v ≡ proc_limit
    → IsValid t.memory
    → 1 ≤ pid
    → pid < proc_limit
    → get_elem? t.proc_v pid ≡ some p
    → p.active ≡ true
    → (memory : Memory) × IsValid memory × (kill (pos pid) t ≡ ok (pos 0, killed t pid p memory))
kill_lem t pid {p} lock size valid low top at active =
    let (memory, freed, w) = free-IsValid p.stack valid in
    (memory, w, kill_active t pid memory lock (omega arith) low top at active freed)

inactive-killed :
    (v : List Proc) (pid : ℕ) (p : Proc)
    → pid < length v
    → active_at (set v pid (killed_proc p)) pid ≡ false
inactive-killed v pid p h =
    active_at_lem (set v pid (killed_proc p)) pid (get_elem?-set_self v pid (killed_proc p) h)

-- `sentry` on an active process of an initialised table over a valid memory kills it if its stack
-- pointer has left its stack, and else changes nothing: it never comes to freezing a process.
pub sentry-kill :
    (t : Tasks) (pid : ℕ) {p : Proc}
    → t.init_lock ≡ true
    → length t.proc_v ≡ proc_limit
    → IsValid t.memory
    → 1 ≤ pid
    → pid < proc_limit
    → get_elem? t.proc_v pid ≡ some p
    → p.active ≡ true
    → (memory : Memory) × IsValid memory
      × (sentry (pos pid) t ≡ ok (if overflows p then killed t pid p memory else t))
unfolding sentry
sentry-kill t pid {p} lock size valid low top at active =
    let (memory, w, run) = kill_lem t pid lock size valid low top at active in
    (memory, w, ground (arith, load-get_elem? t.proc_v pid at, run))

was_killed :
    (v : List Proc) (f i : ℕ) (p : Proc) {q : Proc}
    → f ≡ i
    → f < length v
    → get_elem? (set v f (killed_proc p)) i ≡ some q
    → q.active ≢ true
was_killed v f i p {q} e h at =
    let same =
      subst (λ k. get_elem? (set v f (killed_proc p)) k ≡ some (killed_proc p)) e
        (get_elem?-set_self v f (killed_proc p) h) in
    let one : some (killed_proc p) ≡ some q = sym same ∙ at in
    let inactive : false ≡ q.active = ap (λ o. elim o [ none ↦ false | some x ↦ x.active ]) one in
    λ a. ground (arith, inactive, a)

-- With the focus's process killed, the others are as healthy as before.
killed-IsReady :
    {t : Tasks} (f : ℕ) (p : Proc) (memory : Memory)
    → IsReady t f
    → IsReady (record (killed t f p memory) { focus = pos f }) f
killed-IsReady {t} f p memory v = record {
  started = v.started;
  size = length-set t.proc_v f (killed_proc p) ∙ v.size;
  focus = refl;
  in_range = v.in_range;
  healthy = λ i q at a. elim (ℕ_discrete f i) [
    | yes e ↦ absurd (was_killed t.proc_v f i p e (omega (arith, v.size, v.in_range)) at a)
    | no ne ↦ v.healthy i q (sym (get_elem?-set_ne t.proc_v f i (killed_proc p) ne) ∙ at) a
  ];
}

-- `exit` of the active process in focus, a number above 0, inside the stream, with the manager
-- initialised, all active processes on their stacks and a valid memory: it switches from that
-- process to the lowest one above it that can run, or to the kernel; the process is inactive and
-- no other entry of the table has changed.
pub exit-Next :
    {t : Tasks} (f : ℕ) {p : Proc}
    → IsReady t f
    → IsValid t.memory
    → f ≢ 0
    → t.in_stream ≡ true
    → get_elem? t.proc_v f ≡ some p
    → p.active ≡ true
    → (next : ℕ) × (t' : Tasks) × (exit t ≡ ok (some (f, next), t'))
      × Next t'.proc_v f next
      × (active_at t'.proc_v f ≡ false)
      × ((i : ℕ) → f ≢ i → get_elem? t'.proc_v i ≡ get_elem? t.proc_v i)
unfolding exit
exit-Next {t} f {p} v valid ne stream at active =
    let (memory, w, run) =
      kill_lem (record t { focus = pos f }) f v.started v.size valid (omega arith) v.in_range at
        active in
    let (next, s, run') = yield-Next f (killed-IsReady f p memory v) in
    (
      next,
      record (killed t f p memory) { in_stream = true; focus = pos next },
      ground (arith, focus_of_lem f v.in_range, v.focus, v.started, run, run'),
      s,
      inactive-killed t.proc_v f p (omega (arith, v.size, v.in_range)),
      λ i h. get_elem?-set_ne t.proc_v f i (killed_proc p) h,
    )
