-- ===== src/Input/Init/Log.antt =====
-- The reads of `i8042_PortErrorLog` in `i8042_init`.
use deputy_kernel.Base.{
  ℕ, ◌<◌, ◌≡◌, refl, sym, ◌∙◌, ◌↔◌, ◌⊎◌, inl, inr, arith, Bool, true, false, not, ◌&&◌, ltb,
  load-fault,
}
use deputy_kernel.Utils.Buffers.{Bytes}
use deputy_kernel.Hw.Acpi.{Acpi, boot_architecture_flags}
use deputy_kernel.Hw.Ports.{Ports, bit}
use deputy_kernel.Input.Init.{
  port_error_log, Flags, Stage, go, stop, outside, ◌then◌, clear_bit, write_config, command,
  read_answer, send_device, read_config, self_test, find_second, test_port, reset_device,
  reset_first, reset_second, test_ports, init_controller, i8042_init,
}

module _ {S : Type 0} where
  -- What a read outside the log implies.
  abbrev pub Outside : {A : Type 0} → Type 0 → Stage S A → Type 0
  Outside Q (go a c s) = Unit
  Outside Q (stop c s) = Unit
  Outside Q outside = Q

  Outside-then :
      {A B : Type 0} (Q : Type 0) (r : Stage S A) (f : A → Flags → S → Stage S B)
      → Outside Q r
      → ((a : A) (c : Flags) (s : S) → r ≡ go a c s → Outside Q (f a c s))
      → Outside Q (r then f)
  Outside-then Q (go a c s) f h k = k a c s refl
  Outside-then Q (stop c s) f h k = tt
  Outside-then Q outside f h k = h

  Outside-self : {A : Type 0} (Q : Type 0) (r : Stage S A) → Outside Q r → r ≡ outside → Q
  Outside-self Q (go a c s) h e = absurd (cc)
  Outside-self Q (stop c s) h e = absurd (cc)
  Outside-self Q outside h e = h

  -- The stage of two in which a read is outside the log.
  then-outside :
      {A B : Type 0} (r : Stage S A) (f : A → Flags → S → Stage S B)
      → (r then f) ≡ outside
      → (r ≡ outside) ⊎ ((a : A) × (c : Flags) × (s : S) × (r ≡ go a c s) × (f a c s ≡ outside))
  then-outside (go a c s) f e = inr (a, c, s, refl, e)
  then-outside (stop c s) f e = absurd (cc)
  then-outside outside f e = inl refl

  then_assoc :
      {A B C : Type 0} (r : Stage S A) (f : A → Flags → S → Stage S B)
      (g : B → Flags → S → Stage S C)
      → ((r then f) then g) ≡ (r then (λ a c s. f a c s then g))
  then_assoc (go a c s) f g = refl
  then_assoc (stop c s) f g = refl
  then_assoc outside f g = refl

  then_cong :
      {A B : Type 0} (r : Stage S A) (f g : A → Flags → S → Stage S B)
      → ((a : A) (c : Flags) (s : S) → f a c s ≡ g a c s)
      → (r then f) ≡ (r then g)
  then_cong (go a c s) f g h = h a c s
  then_cong (stop c s) f g h = refl
  then_cong outside f g h = refl

module _ {S : Type 0} (p : Ports S) where
  -- The command that tests a port the controller supports is answered in time, by a byte over 4.
  abbrev pub BadAnswer : (cmd : ℕ) (supported : Bool) → Flags → S → Type 0
  BadAnswer cmd supported c s =
      (supported ≡ true)
      × ((b : ℕ) × (d : Flags) × (t : S) × (read_answer p c (command p cmd s) ≡ go b d t) × (4 < b))

  -- One of the two tests ends so, the second after the first has not.
  abbrev pub BadTest : Flags → S → Type 0
  BadTest c s =
      BadAnswer 171 c.first c s
      ⊎ ((works : Bool) × (d : Flags) × (t : S) × (test_port p 171 c.first c s ≡ go works d t)
          × BadAnswer 169 d.second (record d { first = works }) t)

  -- What `i8042_init` does before it tests the ports.
  abbrev pub before_tests : Flags → S → Stage S (Unit {0})
  before_tests c s = read_config p c s then λ cfg c s. self_test p c s then λ _ c s.
      let cfg = clear_bit 4 (clear_bit 6 (clear_bit 0 cfg)) in
      find_second p cfg c (write_config p cfg s)

  abbrev after_tests : Unit {0} → Flags → S → Stage S (Unit {0})
  after_tests _ c s =
      reset_first p c (command p 168 (command p 174 s)) then λ _ c s. reset_second p c s

  read_answer-Outside : (Q : Type 0) (c : Flags) (s : S) → Outside Q (read_answer p c s)
  unfolding read_answer
  read_answer-Outside Q c s = ground arith

  send_device-Outside : (Q : Type 0) (b : ℕ) (c : Flags) (s : S) → Outside Q (send_device p b c s)
  unfolding send_device
  send_device-Outside Q b c s = ground arith

  reset_device-Outside : (Q : Type 0) (c : Flags) (s : S) → Outside Q (reset_device p c s)
  unfolding reset_device
  reset_device-Outside Q c s =
      Outside-then Q (send_device p 255 c s) _ (send_device-Outside Q 255 c s)
        (λ _ d t e. ground arith)

  self_test-Outside : (Q : Type 0) (c : Flags) (s : S) → Outside Q (self_test p c s)
  unfolding self_test
  self_test-Outside Q c s =
      Outside-then Q (read_answer p c (command p 170 s)) _ (read_answer-Outside Q c _)
        (λ b d t e. ground arith)

  find_second-Outside :
      (Q : Type 0) (cfg : ℕ) (c : Flags) (s : S) → Outside Q (find_second p cfg c s)
  unfolding find_second
  find_second-Outside Q cfg c s =
      Outside-then Q (read_answer p c (command p 32 (command p 168 s))) _
        (read_answer-Outside Q c _) (λ b d t e. tt)

  reset_first-Outside : (Q : Type 0) (c : Flags) (s : S) → Outside Q (reset_first p c s)
  unfolding reset_first
  reset_first-Outside Q c s = ground (
    arith,
    Outside-then Q (reset_device p c s) (λ works d t. go tt (record d { first = works }) t)
        (reset_device-Outside Q c s) (λ works d t e. tt),
  )

  reset_second-Outside : (Q : Type 0) (c : Flags) (s : S) → Outside Q (reset_second p c s)
  unfolding reset_second
  reset_second-Outside Q c s = ground (
    arith,
    Outside-then Q (reset_device p c (command p 212 s))
        (λ works d t. send_device p 244 (record d { second = works }) (command p 212 t))
        (reset_device-Outside Q c (command p 212 s))
        (λ works d t e. send_device-Outside Q 244 (record d { second = works }) (command p 212 t)),
  )

  answered :
      (cmd b : ℕ) (c d : Flags) (s t : S)
      → read_answer p c (command p cmd s) ≡ go b d t
      → 4 < b
      → test_port p cmd true c s ≡ outside
  unfolding test_port
  answered cmd b c d s t e over =
      rw e (ground (arith, over, load-fault port_error_log b (omega (arith, over))))

  test_port-outside :
      (cmd : ℕ) (supported : Bool) (c : Flags) (s : S)
      → (test_port p cmd supported c s ≡ outside) ↔ BadAnswer cmd supported c s
  unfolding test_port
  test_port-outside cmd false c s = (λ e. absurd (cc), λ (e, h). absurd (cc))
  test_port-outside cmd true c s = (
    λ e. elim (then-outside (read_answer p c (command p cmd s)) _ e) [
      | inl out ↦ absurd (
          Outside-self ⊥ (read_answer p c (command p cmd s))
            (read_answer-Outside ⊥ c (command p cmd s)) out)
      | inr (b, d, t, run, out) ↦ (refl, (b, d, t, run, ground (arith, out)))
    ],
    λ (e, (b, d, t, run, over)). answered cmd b c d s t run over,
  )

  test_ports-outside : (c : Flags) (s : S) → (test_ports p c s ≡ outside) ↔ BadTest c s
  unfolding test_ports
  test_ports-outside c s = (
    λ e. elim (then-outside (test_port p 171 c.first c s) _ e) [
      | inl out ↦ inl ((test_port-outside 171 c.first c s).0 out)
      | inr (works, d, t, run, out) ↦ inr (
        works,
        d,
        t,
        run,
        elim (then-outside (test_port p 169 d.second (record d { first = works }) t) _ out) [
          | inl out' ↦ (test_port-outside 169 d.second (record d { first = works }) t).0 out'
          | inr (works', d', t', run', out') ↦ absurd (cc)
        ],
      )
    ],
    λ h. elim h [
      | inl bad ↦ rw ((test_port-outside 171 c.first c s).1 bad) refl
      | inr (works, d, t, run, bad) ↦
          rw (run, (test_port-outside 169 d.second (record d { first = works }) t).1 bad) refl
    ],
  )

  before_tests-Outside : (c : Flags) (s : S) → Outside ⊥ (before_tests c s)
  unfolding read_config
  before_tests-Outside c s =
      Outside-then ⊥ (read_config p c s) _ (read_answer-Outside ⊥ c _) (λ cfg c s e.
        Outside-then ⊥ (self_test p c s) _ (self_test-Outside ⊥ c s)
          (λ _ c s e. find_second-Outside ⊥ (clear_bit 4 (clear_bit 6 (clear_bit 0 cfg))) c _))

  after_tests-Outside : (c : Flags) (s : S) → Outside ⊥ (after_tests tt c s)
  after_tests-Outside c s =
      Outside-then ⊥ (reset_first p c (command p 168 (command p 174 s))) _
        (reset_first-Outside ⊥ c _) (λ _ c s e. reset_second-Outside ⊥ c s)

  -- The controller is set up in these three steps.
  init_controller-steps :
      (c : Flags) (s : S)
      → init_controller p c s ≡ (before_tests c s then λ _ c s. test_ports p c s then after_tests)
  unfolding init_controller
  init_controller-steps c s = sym (
      then_assoc (read_config p c s) _ _
      ∙ then_cong (read_config p c s) _ _ (λ cfg c s. then_assoc (self_test p c s) _ _))

  init_controller-outside :
      (c : Flags) (s : S)
      → (init_controller p c s ≡ outside)
        ↔ ((d : Flags) × (t : S) × (before_tests c s ≡ go tt d t) × BadTest d t)
  init_controller-outside c s = (
    λ e.
        elim (then-outside (before_tests c s) (λ _ c s. test_ports p c s then after_tests)
          (sym (init_controller-steps c s) ∙ e)) [
            | inl out ↦ absurd (Outside-self ⊥ (before_tests c s) (before_tests-Outside c s) out)
            | inr (_, d, t, run, out) ↦ (
              d,
              t,
              run,
              elim (then-outside (test_ports p d t) after_tests out) [
                | inl out' ↦ (test_ports-outside d t).0 out'
                | inr (_, d', t', run', out') ↦
                    absurd (Outside-self ⊥ (after_tests tt d' t') (after_tests-Outside d' t') out')
              ],
            )
          ],
    λ (d, t, run, bad). init_controller-steps c s ∙ rw (run, (test_ports-outside d t).1 bad) refl,
  )

  -- For a call of `i8042_init` that finds its lock unset and a controller that ACPI does not rule
  -- out: it reads outside `i8042_PortErrorLog` exactly if the run reaches the tests of the ports,
  -- and from the state it has there, the test of the first port, if that is supported, is
  -- answered in time by a byte above 4, or the first test ends without that, and the test of the
  -- second port is answered so.
  pub i8042_init-outside :
      (acpi : Acpi) (mem : Bytes) (c : Flags) (s : S)
      → c.init_lock ≡ false
      → (acpi.support && ltb 0 acpi.revision && not (bit 1 (boot_architecture_flags mem acpi.fadt)))
        ≡ false
      → (i8042_init p acpi mem c s ≡ outside) ↔ (
          (d : Flags) × (t : S) × (before_tests (record c { init_lock = true; first = true }) s
            ≡ go tt d t)
          × BadTest d t)
  unfolding i8042_init
  i8042_init-outside acpi mem c s lock present =
      rw (lock, present) (init_controller-outside (record c { init_lock = true; first = true }) s)
