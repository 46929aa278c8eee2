-- ===== src/Multitask/Fairness.antt =====
-- Every process that can run gets its turn: repeated calls of `yield` of source/kernel/multitask.c.
use deputy_kernel.Base.{
  ℕ, zero, suc, ◌+◌, ◌≤◌, ◌<◌, ◌≡◌, refl, sym, subst, ◌∙◌, ◌≢◌, ◌⊎◌, inl, inr, true, false, ◌&&◌,
  some, arith, Run, ok, panic, ◌>>=◌, pos, ◌==◌, if◌then◌else◌, dec_lt,
}
use deputy_kernel.Multitask.{Tasks, proc_limit, yield}
use deputy_kernel.Multitask.Schedule.{IsReady, runnable_at, yield-Next}

-- `n` calls of `yield`, each by the process that the one before switched to.
unfoldable pub yields : ℕ → Tasks → Run Tasks
yields zero t = ok t
yields (suc n) t = do (_, t') ← yield t; yields n t'

-- The state with the process `f` in focus and all else as in `t`.
abbrev pub at_focus : Tasks → ℕ → Tasks
at_focus t f = record t { in_stream = true; focus = pos f }

at_focus-IsReady : {t : Tasks} (f g : ℕ) → IsReady t f → g < proc_limit → IsReady (at_focus t g) g
at_focus-IsReady f g v h = record {
  started = v.started;
  size = v.size;
  focus = refl;
  in_range = h;
  healthy = v.healthy;
}

-- `p` is in focus after some calls of `yield`, at most `n` of them.
pub record Reaches (t : Tasks) (p n : ℕ) : Type 0 where
  pub calls : ℕ
  pub bound : calls ≤ n
  pub run : yields calls t ≡ ok (at_focus t p)

Reaches-step :
    {t : Tasks} (f next p n : ℕ)
    → yield t ≡ ok (some (f, next), at_focus t next)
    → Reaches (at_focus t next) p n
    → Reaches t p (suc n)
unfolding yields
Reaches-step f next p n e r = record {
  calls = suc r.calls;
  bound = omega (arith, r.bound);
  run = rw e r.run;
}

Reaches-one :
    {t : Tasks} (f next n : ℕ)
    → yield t ≡ ok (some (f, next), at_focus t next)
    → Reaches t next (suc n)
unfolding yields
Reaches-one f next n e = record { calls = 1; bound = omega arith; run = rw e refl }

-- A switch to some process: not the kernel's panic.
switched :
    (t : Tasks) (f next : ℕ)
    → yield t ≡ (if f == 0 && next == 0 then panic else ok (some (f, next), at_focus t next))
    → (f ≢ 0) ⊎ (next ≢ 0)
    → yield t ≡ ok (some (f, next), at_focus t next)
switched t f next e h = ground arith

weaken : {t : Tasks} {p n : ℕ} (m : ℕ) → n ≤ m → Reaches t p n → Reaches t p m
weaken m h r = record { calls = r.calls; bound = omega (arith, r.bound); run = r.run }

upward :
    (n : ℕ) {t : Tasks} (f p : ℕ)
    → IsReady t f
    → f < p
    → p < proc_limit
    → p ≤ f + n
    → runnable_at t.proc_v p ≡ true
    → Reaches t p n
upward zero f p v h k b r = absurd (omega arith)
upward (suc n) {t} f p v h k b r =
    let (next, s, run) = yield-Next f v in
    elim s.above_or_kernel [
      | inl (z, none_runs) ↦ absurd (clash (sym (none_runs p h k) ∙ r))
      | inr (above, top, runs, below) ↦ elim (dec_lt next p) [
        | yes q ↦
            Reaches-step f next p n (switched t f next run (inr (omega arith)))
              (upward n next p (at_focus-IsReady f next v top) q k (omega arith) r)
        | no q ↦ elim (dec_lt p next) [
          | yes q' ↦ absurd (clash (sym (below p h q') ∙ r))
          | no q' ↦
              let e : next ≡ p = omega arith in
              subst (λ x. Reaches t x (suc n)) e
                (Reaches-one f next n (switched t f next run (inr (omega arith))))
        ]
      ]
    ]
  where
    clash : false ≡ true → ⊥
    clash e = cc

-- From `f` up to the last process and on to the kernel.
round :
    (n : ℕ) {t : Tasks} (f p : ℕ)
    → IsReady t f
    → 0 < p
    → p < proc_limit
    → p ≤ f
    → proc_limit ≤ f + n
    → runnable_at t.proc_v p ≡ true
    → Reaches t p (n + p)
round zero f p v h k q b r = absurd (omega (arith, v.in_range))
round (suc n) {t} f p v h k q b r =
    let (next, s, run) = yield-Next f v in
    elim s.above_or_kernel [
      | inl (z, none_runs) ↦ weaken (suc n + p) (omega arith) (
          Reaches-step f next p p (switched t f next run (inl (omega arith))) (
            upward p next p (at_focus-IsReady f next v (omega arith)) (omega arith) k (omega arith)
              r))
      | inr (above, top, runs, below) ↦ weaken (suc n + p) (omega arith) (
          Reaches-step f next p (n + p) (switched t f next run (inr (omega arith)))
            (round n next p (at_focus-IsReady f next v top) h k (omega arith) (omega arith) r))
    ]

-- Once the manager is initialised with a table of full size, the focus in range and no active
-- process outside its stack: a process that can run is in focus after at most 64 calls of
-- `yield`, whoever calls first, and nothing but the focus and the stream flag has changed by
-- then.
pub yields-Reaches :
    {t : Tasks} (f p : ℕ)
    → IsReady t f
    → 0 < p
    → p < proc_limit
    → runnable_at t.proc_v p ≡ true
    → Reaches t p (proc_limit + proc_limit)
yields-Reaches f p v h k r = elim (dec_lt f p) [
  | yes q ↦ weaken (proc_limit + proc_limit) (omega arith) (upward p f p v q k (omega arith) r)
  | no q ↦
      weaken (proc_limit + proc_limit) (omega arith)
        (round proc_limit f p v h k (omega arith) (omega arith) r)
]
