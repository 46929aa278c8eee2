-- ===== src/Hw/Ports.antt =====
-- Port input and output, source/hw/port.c. What a port answers is the hardware's: `Ports` is that
-- of a machine with states in `S`.
use deputy_kernel.Base.{ℕ, ◌%◌, ◌^◌, ◌/◌, Bool, ◌==◌}

-- An `in` and an `out` instruction of each width, and the time that passes in a delay.
pub record Ports (S : Type 0) : Type 0 where
  pub input : (width port : ℕ) → S → ℕ × S
  pub output : (width port value : ℕ) → S → S
  pub pause : S → S

-- `(v >> k) & 1`, as a test.
abbrev pub bit : ℕ → ℕ → Bool
bit k v = v / 2 ^ k % 2 == 1

module _ {S : Type 0} (p : Ports S) where
  unfoldable pub port_inb : ℕ → S → ℕ × S
  port_inb port s = let (v, t) = p.input 8 port s in (v % 2 ^ 8, t)

  unfoldable pub port_inw : ℕ → S → ℕ × S
  port_inw port s = let (v, t) = p.input 16 port s in (v % 2 ^ 16, t)

  unfoldable pub port_inl : ℕ → S → ℕ × S
  port_inl port s = let (v, t) = p.input 32 port s in (v % 2 ^ 32, t)

  unfoldable pub port_outb : (port value : ℕ) → S → S
  port_outb port value s = p.output 8 port (value % 2 ^ 8) s

  unfoldable pub port_outl : (port value : ℕ) → S → S
  port_outl port value s = p.output 32 port (value % 2 ^ 32) s
