-- ===== src/Input/Init.antt =====
-- `i8042_init` of source/hw/i8042.c, in stages. A status that does not come in time and a self test
-- that fails end it with -1, which is `stop`; at its end it returns no value, which is `go`.
pub mod Log
pub mod Once
pub mod Reads
use Prim.Native.String.{String}
use deputy_kernel.Base.{
  ℕ, ◌-◌, ◌^◌, Bool, true, false, not, ◌&&◌, List, [], ◌∷◌, ◌==◌, ltb, if◌then◌else◌, ok, fault,
  panic, load,
}
use deputy_kernel.Utils.Buffers.{Bytes}
use deputy_kernel.Hw.Acpi.{Acpi, boot_architecture_flags}
use deputy_kernel.Hw.Ports.{Ports, bit, port_inb, port_outb}
use deputy_kernel.Input.Controller.{index_port, data_port, output_full, input_empty, wait, wait_for}

-- `i8042_InitLock`, `i8042_1stPortSupport` and `i8042_2ndPortSupport`.
pub record Flags : Type 0 where
  pub init_lock : Bool
  pub first : Bool
  pub second : Bool

-- `i8042_PortErrorLog`
abbrev pub port_error_log : List String
port_error_log =
    "Test passed somehow" ∷ "Clock line stuck low" ∷ "Clock line stuck high" ∷ "Data line stuck low"
    ∷ "Data line stuck high" ∷ []

-- How a stage ends: it goes on with a value, the function returns -1, or it has read outside
-- `i8042_PortErrorLog`.
pub data Stage (S A : Type 0) : Type 0 where
  go : A → Flags → S → Stage S A
  stop : Flags → S → Stage S A
  outside : Stage S A

infixl 5 ◌then◌
abbrev pub ◌then◌ : {S A B : Type 0} → Stage S A → (A → Flags → S → Stage S B) → Stage S B
go a c s then f = f a c s
stop c s then f = stop c s
outside then f = outside

-- `v &= ~(1 << k)`
abbrev pub clear_bit : ℕ → ℕ → ℕ
clear_bit k v = if bit k v then v - 2 ^ k else v

module _ {S : Type 0} (p : Ports S) where
  abbrev pub command : ℕ → S → S
  command cmd s = port_outb p index_port cmd s

  -- The answer to a command, waited for `100000` times.
  unfoldable pub read_answer : Flags → S → Stage S ℕ
  read_answer c s =
      let (full, t) = wait_for p output_full (λ u. u) 100_000 s in
      let (b, u) = port_inb p data_port t in if full then go b c u else stop c t

  -- A byte to a device once the controller has taken the last one.
  unfoldable pub send_device : ℕ → Flags → S → Stage S (Unit {0})
  send_device b c s =
      let (empty, t) = wait_for p input_empty (λ u. u) 100_000 s in
      if empty then go tt c (port_outb p data_port b t) else stop c t

  unfoldable pub read_config : Flags → S → Stage S ℕ
  read_config c s =
      read_answer c (command 32 (port_inb p data_port (command 167 (command 173 s))).1)

  unfoldable pub self_test : Flags → S → Stage S (Unit {0})
  self_test c s =
      read_answer c (command 170 s) then λ b c t. if b == 85 then go tt c t else stop c t

  abbrev pub write_config : ℕ → S → S
  write_config cfg s = port_outb p data_port cfg (command 96 s)

  -- Are there two channels?
  unfoldable pub find_second : ℕ → Flags → S → Stage S (Unit {0})
  find_second cfg c s = read_answer c (command 32 (command 168 s)) then λ b c t.
      go tt (record c { second = not (bit 5 b) })
        (write_config (clear_bit 5 (clear_bit 1 cfg)) (command 167 t))

  -- The test of one port: does the controller support it after that?
  unfoldable pub test_port : ℕ → Bool → Flags → S → Stage S Bool
  test_port cmd false c s = go false c s
  test_port cmd true c s = read_answer c (command cmd s) then λ result c t.
      if result == 0
      then go true c t
      else if ltb 4 result
      then elim (load port_error_log result) [
        | ok text ↦ go false c t
        | fault ↦ outside
        | panic ↦ outside
      ]
      else go false c t

  -- The reset of one device. Both waits count down one timeout, which wraps if it starts at 0.
  unfoldable pub reset_device : Flags → S → Stage S Bool
  reset_device c s = send_device 255 c s then λ _ c t.
      let (left, u) = wait p output_full (λ u. u) 50_000_000 t in
      let (v, u) = port_inb p index_port u in
      let (full, w) =
        wait_for p output_full (λ u. u) (if left == 0 then 2 ^ 32 else left)
          (port_inb p data_port u).1 in
      let (result, x) = port_inb p data_port w in
      if not (output_full v)
      then go false c u
      else if not full
      then go false c w
      else go (result == 170) c x

  unfoldable pub reset_first : Flags → S → Stage S (Unit {0})
  reset_first c s =
      if not c.first
      then go tt c s
      else reset_device c s then λ works c t. go tt (record c { first = works }) t

  unfoldable pub reset_second : Flags → S → Stage S (Unit {0})
  reset_second c s =
      if not c.second
      then go tt c s
      else reset_device c (command 212 s) then λ works c t.
          send_device 244 (record c { second = works }) (command 212 t)

  unfoldable pub test_ports : Flags → S → Stage S (Unit {0})
  test_ports c s = test_port 171 c.first c s then λ works c t.
      test_port 169 c.second (record c { first = works }) t then λ works c u.
      go tt (record c { second = works }) u

  -- Everything after the check of the ACPI flags.
  unfoldable pub init_controller : Flags → S → Stage S (Unit {0})
  init_controller c s = read_config c s then λ cfg c s. self_test c s then λ _ c s.
      let cfg = clear_bit 4 (clear_bit 6 (clear_bit 0 cfg)) in
      find_second cfg c (write_config cfg s) then λ _ c s. test_ports c s then λ _ c s.
      reset_first c (command 168 (command 174 s)) then λ _ c s. reset_second c s

  unfoldable pub i8042_init : Acpi → Bytes → Flags → S → Stage S (Unit {0})
  i8042_init acpi mem c s =
      let c' = record c { init_lock = true } in
      if c.init_lock
      then stop c s
      else if acpi.support
          && ltb 0 acpi.revision
          && not (bit 1 (boot_architecture_flags mem acpi.fadt))
      then stop c' s
      else init_controller (record c' { first = true }) s
