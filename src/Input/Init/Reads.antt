-- ===== src/Input/Init/Reads.antt =====
-- How the stages of `i8042_init` end, and the bytes that each reads.
use deputy_kernel.Base.{
  ℕ, zero, suc, ◌+◌, ◌*◌, ◌^◌, ◌≤◌, ◌≡◌, refl, arith, Bool, true, false, if◌then◌else◌, ◌==◌,
}
use deputy_kernel.Hw.Ports.{Ports, port_inb, port_outb}
use deputy_kernel.Input.Controller.{output_full, input_empty, wait, wait_for}
use deputy_kernel.Input.Init.{
  Flags, Stage, go, stop, outside, ◌then◌, read_answer, send_device, read_config, self_test,
  find_second, test_port, clear_bit, reset_device,
}

-- The most bytes that one reset can read, and the whole function.
abbrev pub reset_reads : ℕ
reset_reads = 2 ^ 32 + 50_100_005

abbrev pub most_reads : ℕ
most_reads = 2 * 2 ^ 32 + 100_800_022

module _ {S : Type 0} where
  -- What holds of the flags and the machine however a stage ends.
  abbrev pub Holds : {A : Type 0} → (Flags → S → Type 0) → Stage S A → Type 0
  Holds P (go a c s) = P c s
  Holds P (stop c s) = P c s
  Holds P outside = Unit

  pub Holds-then :
      {A B : Type 0} (P Q : Flags → S → Type 0) (r : Stage S A) (f : A → Flags → S → Stage S B)
      → Holds P r
      → ((c : Flags) (s : S) → P c s → Q c s)
      → ((a : A) (c : Flags) (s : S) → P c s → Holds Q (f a c s))
      → Holds Q (r then f)
  Holds-then P Q (go a c s) f h w k = k a c s h
  Holds-then P Q (stop c s) f h w k = w c s h
  Holds-then P Q outside f h w k = tt

  pub Holds-map :
      {A : Type 0} (P Q : Flags → S → Type 0) (r : Stage S A)
      → ((c : Flags) (s : S) → P c s → Q c s)
      → Holds P r
      → Holds Q r
  Holds-map P Q (go a c s) f h = f c s h
  Holds-map P Q (stop c s) f h = f c s h
  Holds-map P Q outside f h = tt

  pub Holds-if :
      {A : Type 0} (P : Flags → S → Type 0) (b : Bool) (x y : Stage S A)
      → Holds P x
      → Holds P y
      → Holds P (if b then x else y)
  Holds-if P true x y hx hy = hx
  Holds-if P false x y hx hy = hy

  -- The lock is set, and at most `n` bytes have been read in all.
  abbrev pub Within : (reads : S → ℕ) → ℕ → Flags → S → Type 0
  Within reads n c t = (c.init_lock ≡ true) × (reads t ≤ n)

  -- A stage within `m` reads and what follows it, within `k` reads.
  pub then-Within :
      {A B : Type 0} (reads : S → ℕ) (m k : ℕ) (r : Stage S A) (f : A → Flags → S → Stage S B)
      → m ≤ k
      → Holds (Within reads m) r
      → ((a : A) (c : Flags) (s : S) → Within reads m c s → Holds (Within reads k) (f a c s))
      → Holds (Within reads k) (r then f)
  then-Within reads m k r f le h g =
      Holds-then (Within reads m) (Within reads k) r f h (λ c s w. (w.0, omega arith)) g

  pub Holds-weaken :
      {A : Type 0} (reads : S → ℕ) (m k : ℕ) (r : Stage S A)
      → m ≤ k
      → Holds (Within reads m) r
      → Holds (Within reads k) r
  Holds-weaken reads m k r le h =
      Holds-map (Within reads m) (Within reads k) r (λ c s w. (w.0, omega arith)) h

module _ {S : Type 0} (p : Ports S) (reads : S → ℕ)
    (reads-input : (width port : ℕ) (s : S) → reads (p.input width port s).1 ≡ reads s + 1)
    (reads-output : (width port v : ℕ) (s : S) → reads (p.output width port v s) ≡ reads s) where
  pub reads-inb : (port : ℕ) (s : S) → reads (port_inb p port s).1 ≡ reads s + 1
  unfolding port_inb
  reads-inb port s = reads-input 8 port s

  pub reads-outb : (port v : ℕ) (s : S) → reads (port_outb p port v s) ≡ reads s
  unfolding port_outb
  reads-outb port v s = reads-output 8 port _ s

  pub wait-reads :
      (ready : ℕ → Bool) (n : ℕ) (s : S) → reads (wait p ready (λ u. u) n s).1 ≤ reads s + n
  unfolding wait
  wait-reads ready zero s = omega arith
  wait-reads ready (suc n) s =
      ground (arith, reads-inb 100 s, wait-reads ready n (port_inb p 100 s).1)

  pub wait_for-reads :
      (ready : ℕ → Bool) (n : ℕ) (s : S) → reads (wait_for p ready (λ u. u) n s).1 ≤ reads s + n + 1
  unfolding wait_for
  wait_for-reads ready n s =
      ground (arith, wait-reads ready n s, reads-inb 100 (wait p ready (λ u. u) n s).1)

  pub read_answer-Within :
      (n : ℕ) (c : Flags) (s : S)
      → Within reads n c s
      → Holds (Within reads (n + 100_002)) (read_answer p c s)
  unfolding read_answer
  read_answer-Within n c s h = ground (
    arith,
    wait_for-reads output_full 100_000 s,
    reads-inb 96 (wait_for p output_full (λ u. u) 100_000 s).1,
  )

  pub send_device-Within :
      (b n : ℕ) (c : Flags) (s : S)
      → Within reads n c s
      → Holds (Within reads (n + 100_001)) (send_device p b c s)
  unfolding send_device
  send_device-Within b n c s h = ground (
    arith,
    wait_for-reads input_empty 100_000 s,
    reads-outb 96 b (wait_for p input_empty (λ u. u) 100_000 s).1,
  )

  pub read_config-Within :
      (n : ℕ) (c : Flags) (s : S)
      → Within reads n c s
      → Holds (Within reads (n + 100_003)) (read_config p c s)
  unfolding read_config
  read_config-Within n c s h = ground (
    arith,
    reads-outb 100 173 s,
    reads-outb 100 167 (port_outb p 100 173 s),
    reads-inb 96 (port_outb p 100 167 (port_outb p 100 173 s)),
    reads-outb 100 32 (port_inb p 96 (port_outb p 100 167 (port_outb p 100 173 s))).1,
    read_answer-Within (n + 1) c
        (port_outb p 100 32 (port_inb p 96 (port_outb p 100 167 (port_outb p 100 173 s))).1),
  )

  -- A command, its answer, and what depends on it without reading.
  pub answer-Within :
      {A : Type 0} (cmd n : ℕ) (c : Flags) (s : S) (f : ℕ → Flags → S → Stage S A)
      → Within reads n c s
      → ((b m : ℕ) (d : Flags) (t : S) → Within reads m d t → Holds (Within reads m) (f b d t))
      → Holds (Within reads (n + 100_002)) (read_answer p c (port_outb p 100 cmd s) then f)
  answer-Within cmd n c s f h k =
      Holds-then (Within reads (n + 100_002)) (Within reads (n + 100_002))
        (read_answer p c (port_outb p 100 cmd s)) f
        (read_answer-Within n c (port_outb p 100 cmd s) (ground (arith, reads-outb 100 cmd s)))
        (λ d t g. g) (λ b d t g. k b (n + 100_002) d t g)

  pub self_test-Within :
      (n : ℕ) (c : Flags) (s : S)
      → Within reads n c s
      → Holds (Within reads (n + 100_002)) (self_test p c s)
  unfolding self_test
  self_test-Within n c s h = answer-Within 170 n c s _ h (λ b m d t g. ground arith)

  pub find_second-Within :
      (cfg n : ℕ) (c : Flags) (s : S)
      → Within reads n c s
      → Holds (Within reads (n + 100_002)) (find_second p cfg c s)
  unfolding find_second
  find_second-Within cfg n c s h =
      answer-Within 32 n c (port_outb p 100 168 s) _ (ground (arith, reads-outb 100 168 s))
        (λ b m d t g. ground (
          arith,
          reads-outb 100 167 t,
          reads-outb 100 96 (port_outb p 100 167 t),
          reads-outb 96 (clear_bit 5 (clear_bit 1 cfg))
              (port_outb p 100 96 (port_outb p 100 167 t)),
        ))

  pub test_port-Within :
      (cmd : ℕ) (supported : Bool) (n : ℕ) (c : Flags) (s : S)
      → Within reads n c s
      → Holds (Within reads (n + 100_002)) (test_port p cmd supported c s)
  unfolding test_port
  test_port-Within cmd false n c s h = (h.0, omega arith)
  test_port-Within cmd true n c s h = answer-Within cmd n c s _ h (λ b m d t g. ground arith)

  -- The second half of a reset, with the command sent.
  pub reset_wait-reads :
      (n left : ℕ) (t u w : S)
      → u ≡ (port_inb p 100 (wait p output_full (λ x. x) 50_000_000 t).1).1
      → w
        ≡ (wait_for p output_full
            (λ x. x)
            (if left == 0 then 2 ^ 32 else left)
            (port_inb p 96 u).1).1
      → left ≤ 50_000_000
      → reads t ≤ n
      → (reads u ≤ n + 50_000_001)
        × (reads w ≤ n + 50_000_003 + 2 ^ 32)
        × (reads (port_inb p 96 w).1 ≤ n + 50_000_004 + 2 ^ 32)
  reset_wait-reads n left t u w eu ew hl h = ground (
    arith,
    wait-reads output_full 50_000_000 t,
    reads-inb 100 (wait p output_full (λ x. x) 50_000_000 t).1,
    reads-inb 96 u,
    wait_for-reads output_full (if left == 0 then 2 ^ 32 else left) (port_inb p 96 u).1,
    reads-inb 96 w,
  )

  pub wait-le : (ready : ℕ → Bool) (n : ℕ) (s : S) → (wait p ready (λ u. u) n s).0 ≤ n
  unfolding wait
  wait-le ready zero s = omega arith
  wait-le ready (suc n) s = ground (arith, wait-le ready n (port_inb p 100 s).1)

  pub reset_device-Within :
      (n : ℕ) (c : Flags) (s : S)
      → Within reads n c s
      → Holds (Within reads (n + reset_reads)) (reset_device p c s)
  unfolding reset_device
  reset_device-Within n c s h =
      Holds-then (Within reads (n + 100_001)) _ (send_device p 255 c s) _
        (send_device-Within 255 n c s h) (λ d t g. (g.0, omega arith))
        (λ _ d t g. ground (
          arith,
          wait-le output_full 50_000_000 t,
          reset_wait-reads (n + 100_001) (wait p output_full (λ x. x) 50_000_000 t).0 t _ _ refl
              refl,
        ))
