-- ===== src/Hw/Interrupts/Gate.antt =====
-- What a gate of source/hw/interrupts.c holds.
use deputy_kernel.Base.{
  ℕ, zero, suc, ◌+◌, ◌-◌, ◌*◌, ◌^◌, ◌<◌, ◌≤◌, refl, false, ◌==◌, if◌then◌else◌, Run, ◌≡◌, ◌≢◌, ◌∙◌,
  true, some, arith, length, length-set, set, get_elem?, get_elem?-set_self, get_elem?-set_ne, ok,
  store-set, pos,
}
use deputy_kernel.Hw.Interrupts.{IdtEntry, Idt, gate, set_gate, set_gates, interrupts_init}

-- The address that the processor jumps to.
abbrev pub offset : IdtEntry → ℕ
offset e = e.offset_high * 2 ^ 16 + e.offset_low

-- The table while the kernel runs.
pub record IsIdt (t : Idt) : Type 0 where
  pub started : t.init_lock ≡ true
  pub size : length t.entries ≡ 256

-- `interrupts_setGate` of a vector below 256 and of a 32-bit handler that is not NULL, on an
-- initialised table of 256 gates, keeps the table so: the gate of that vector leads to the
-- handler, and every other gate is as before.
pub set_gate-lem :
    (default_handler n handler : ℕ) {t : Idt}
    → IsIdt t
    → n < 256
    → handler < 2 ^ 32
    → handler ≢ 0
    → (t' : Idt) × (e : IdtEntry) × (set_gate default_handler (pos n) handler t ≡ ok t')
      × IsIdt t'
      × (get_elem? t'.entries n ≡ some e)
      × (offset e ≡ handler)
      × ((i : ℕ) → n ≢ i → get_elem? t'.entries i ≡ get_elem? t.entries i)
unfolding set_gate gate
set_gate-lem default_handler n handler {t} v h k ne =
    let e = gate handler in
    let low : n < length t.entries = omega (arith, v.size) in
    (
      record t { entries = set t.entries n e },
      e,
      ground (arith, v.started, store-set t.entries n e low),
      record { started = v.started; size = length-set t.entries n e ∙ v.size },
      get_elem?-set_self t.entries n e low,
      omega arith,
      λ i q. get_elem?-set_ne t.entries n i e q,
    )

set_gate-IsIdt :
    (default_handler n handler : ℕ) {t : Idt}
    → IsIdt t
    → n < 256
    → (t' : Idt) × (set_gate default_handler (pos n) handler t ≡ ok t') × IsIdt t'
unfolding set_gate
set_gate-IsIdt default_handler n handler {t} v h =
    let e = gate (if handler == 0 then default_handler else handler) in
    (
      record t { entries = set t.entries n e },
      ground (arith, v.started, store-set t.entries n e (omega (arith, v.size))),
      record { started = v.started; size = length-set t.entries n e ∙ v.size },
    )

set_gates-IsIdt :
    (default_handler i n : ℕ) {t : Idt}
    → IsIdt t
    → i + n ≤ 256
    → (t' : Idt) × (set_gates default_handler i n t ≡ ok t') × IsIdt t'
unfolding set_gates
set_gates-IsIdt default_handler i zero v h = (_, refl, v)
set_gates-IsIdt default_handler i (suc n) v h =
    let (t1, run, v1) = set_gate-IsIdt default_handler i default_handler v (omega arith) in
    let (t2, run', v2) = set_gates-IsIdt default_handler (suc i) n v1 (omega arith) in
    (t2, rw run run', v2)

-- `interrupts_init`, called first, sets the table up if the routine for the exceptions keeps it.
pub interrupts_init-IsIdt :
    (default_handler table : ℕ) (exceptions : Idt → Run Idt) (t : Idt)
    → t.init_lock ≡ false
    → length t.entries ≡ 256
    → ((u : Idt) → IsIdt u → (u' : Idt) × (exceptions u ≡ ok u') × IsIdt u')
    → (t' : Idt) × (interrupts_init default_handler table exceptions t ≡ ok t') × IsIdt t'
unfolding interrupts_init
interrupts_init-IsIdt default_handler table exceptions t fresh size keeps =
    let (t1, run, v1) =
      set_gates-IsIdt default_handler 0 256 {t = record t { init_lock = true }}
        (record { started = refl; size = size }) (omega arith) in
    let (t2, run', v2) = keeps t1 v1 in
    (
      record t2 { limit = 8 * 256 - 1; base = table },
      rw (fresh, run, run') refl,
      record { started = v2.started; size = v2.size },
    )
