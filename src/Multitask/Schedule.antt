-- ===== src/Multitask/Schedule.antt =====
-- `yield` of source/kernel/multitask.c: which process runs next, and that every process gets its turn.
use deputy_kernel.Base.{
  ℕ, zero, suc, ◌+◌, ◌-◌, ◌<◌, ◌≡◌, refl, ◌∙◌, ◌≢◌, ◌⊎◌, inl, inr, Bool, true, false, ◌&&◌, List,
  none, some, arith, ok, panic, length, get_elem?, get_elem?-some, load-get_elem?, pos, ◌==◌,
  if◌then◌else◌, Bool-cases, dec_lt,
}
use deputy_kernel.Multitask.{
  Tasks, Proc, proc_limit, runnable, overflows, sentry, find_next, choose_next, yield, focus_of,
}

unfoldable pub runnable_at : List Proc → ℕ → Bool
runnable_at v i = elim (get_elem? v i) [ none ↦ false | some p ↦ runnable p ]

-- The next process after `f`: the lowest above it that can run, and else the kernel, 0.
pub record Next (v : List Proc) (f next : ℕ) : Type 0 where
  pub above_or_kernel :
      ((next ≡ 0) × ((j : ℕ) → f < j → j < proc_limit → runnable_at v j ≡ false))
      ⊎ ((f < next)
          × (next < proc_limit)
          × (runnable_at v next ≡ true)
          × ((j : ℕ) → f < j → j < next → runnable_at v j ≡ false))

-- Processor 0 is the kernel; the manager is initialised, and no active process has left its stack.
pub record IsReady (t : Tasks) (f : ℕ) : Type 0 where
  pub started : t.init_lock ≡ true
  pub size : length t.proc_v ≡ proc_limit
  pub focus : t.focus ≡ pos f
  pub in_range : f < proc_limit
  pub healthy :
      (i : ℕ) (p : Proc) → get_elem? t.proc_v i ≡ some p → p.active ≡ true → overflows p ≡ false

runnable_at_lem :
    (v : List Proc) (i : ℕ) {p : Proc} → get_elem? v i ≡ some p → runnable_at v i ≡ runnable p
unfolding runnable_at
runnable_at_lem v i at = rw (at, runnable_at)

-- One more process that cannot run.
skip_one :
    (v : List Proc) (f i : ℕ)
    → runnable_at v i ≡ false
    → ((j : ℕ) → f < j → j < i → runnable_at v j ≡ false)
    → (j : ℕ) → f < j
    → j < suc i
    → runnable_at v j ≡ false
skip_one v f i here below j h k = elim (dec_lt j i) [
  | yes p ↦ below j h p
  | no p ↦ let e : j ≡ i = omega arith in rw e here
]

find_next-zero : (v : List Proc) (i : ℕ) → find_next v i zero ≡ ok 0
unfolding find_next
find_next-zero v i = refl

find_next-found :
    (v : List Proc) (i n : ℕ) {p : Proc}
    → get_elem? v i ≡ some p
    → runnable p ≡ true
    → find_next v i (suc n) ≡ ok i
unfolding find_next
find_next-found v i n at r = ground (arith, load-get_elem? v i at)

find_next-skip :
    (v : List Proc) (i n : ℕ) {p : Proc}
    → get_elem? v i ≡ some p
    → runnable p ≡ false
    → find_next v i (suc n) ≡ find_next v (suc i) n
unfolding find_next
find_next-skip v i n at r = ground (arith, load-get_elem? v i at)

find_next-Next :
    (v : List Proc) (f i n : ℕ)
    → length v ≡ proc_limit
    → f < i
    → i + n ≡ proc_limit
    → ((j : ℕ) → f < j → j < i → runnable_at v j ≡ false)
    → (next : ℕ) × (find_next v i n ≡ ok next) × Next v f next
find_next-Next v f i zero size h e below = (
  0,
  find_next-zero v i,
  record { above_or_kernel = inl (refl, λ j h' k'. below j h' (omega arith)) },
)
find_next-Next v f i (suc n) size h e below =
    let (p, at) = get_elem?-some v i (omega arith) in
    let here = runnable_at_lem v i at in
    elim (Bool-cases (runnable p)) [
      | inl r ↦ (
        i,
        find_next-found v i n at r,
        record { above_or_kernel = inr (h, omega arith, here ∙ r, below) },
      )
      | inr r ↦
          let (next, run, s) =
            find_next-Next v f (suc i) n size (omega arith) (omega arith)
              (skip_one v f i (here ∙ r) below) in
          (next, find_next-skip v i n at r ∙ run, s)
    ]

choose_next-Next :
    (v : List Proc) (f : ℕ)
    → length v ≡ proc_limit
    → f < proc_limit
    → (next : ℕ) × Next v f next
      × (choose_next f v ≡ (if f == 0 && next == 0 then panic else ok next))
unfolding choose_next
choose_next-Next v zero size h =
    let (next, run, s) =
      find_next-Next v 0 1 31 size (omega arith) refl (λ j h' k'. absurd (omega arith)) in
    (next, s, rw run (ground arith))
choose_next-Next v (suc f) size h =
    let (next, run, s) =
      find_next-Next v (suc f) (suc f + 1) (31 - suc f) size (omega arith) (omega arith)
        (λ j h' k'. absurd (omega arith)) in
    (next, s, rw run (ground arith))

-- The state in which `yield` looks for the next process.
abbrev resumed : Tasks → ℕ → Tasks
resumed t f = record t { in_stream = true; focus = pos f }

sentry-resumed : {t : Tasks} (f : ℕ) → IsReady t f → sentry (pos f) (resumed t f) ≡ ok (resumed t f)
unfolding sentry
sentry-resumed {t} f v =
    let (p, at) = get_elem?-some t.proc_v f (omega (arith, v.size, v.in_range)) in
    elim (Bool-cases p.active) [
      | inl a ↦ ground (arith, load-get_elem? t.proc_v f at, v.healthy f p at a)
      | inr a ↦ ground (arith, load-get_elem? t.proc_v f at)
    ]

pub focus_of_lem : (f : ℕ) → f < proc_limit → focus_of (pos f) ≡ f
unfolding focus_of
focus_of_lem f h = ground arith

Next-ne : {v : List Proc} {f next : ℕ} → Next v f next → f ≢ 0 → f ≢ next
Next-ne s h = ground (arith, s.above_or_kernel)

-- `yield` with the manager initialised, the focus in range and no active process outside its
-- stack: it switches from the process in focus to the lowest one above it that can run, and to
-- the kernel if there is none; if the kernel is in focus then, it panics.
pub yield-Next :
    {t : Tasks} (f : ℕ)
    → IsReady t f
    → (next : ℕ) × Next t.proc_v f next
      × (yield t ≡ (
          if f == 0 && next == 0
          then panic
          else ok (some (f, next), record t { in_stream = true; focus = pos next })))
unfolding yield
yield-Next {t} f v =
    let (next, s, run) = choose_next-Next t.proc_v f v.size v.in_range in
    let at_focus = focus_of_lem f v.in_range in
    let kept = sentry-resumed f v in
    (next, s, ground (arith, at_focus, kept, run, v.started, v.focus, Next-ne s))
