-- ===== src/Hw/Devbus/Scan.antt =====
-- `devbus_init` of source/hw/devbus.c: the choice of a bus, and the scan over its devices. `load` is
-- the driver loader that the scan calls.
use deputy_kernel.Base.{
  ℕ, zero, suc, ◌+◌, ◌-◌, ◌%◌, ◌^◌, true, false, not, ◌==◌, if◌then◌else◌, none, some, Run, ok,
  panic, ◌>>=◌,
}
use deputy_kernel.Utils.Buffers.{Bytes}
use deputy_kernel.Hw.Acpi.{Acpi, word32}
use deputy_kernel.Hw.Ports.{Ports}
use deputy_kernel.Hw.Devbus.{
  Mmio, Bus, Device, max_buses, max_slots, max_funcs, ones, devbus_read, devbus_get,
}

-- `acpiTable.mcfg->pciebase`, cut to 32 bits.
unfoldable pub pciebase : Bytes → ℕ → ℕ
pciebase mem mcfg = word32 mem (mcfg + 44)

module _ {S : Type 0} (p : Ports S) (m : Mmio S) (load : Device → S → S) where
  -- What `devbus_get` leaves in the variable `dev`.
  unfoldable pub get_into : Bus → Device → (bus slot func : ℕ) → S → Device × S
  get_into b dev bus slot func s =
      let (got, t) = devbus_get p m b (some dev) bus slot func s in
      elim got [ none ↦ (dev, t) | some d ↦ (d, t) ]

  unfoldable pub scan_func : Bus → (bus slot func : ℕ) → Device → S → Device × S
  scan_func b bus slot func dev s =
      let (d, t) = get_into b dev bus slot func s in
      if d.vendor == 0xFFFF then (d, t) else (d, load d t)

  -- The three loops, each with its rounds left.
  unfoldable pub scan_funcs : Bus → (bus slot left : ℕ) → Device → S → Device × S
  scan_funcs b bus slot zero dev s = (dev, s)
  scan_funcs b bus slot (suc n) dev s =
      let (d, t) = scan_func b bus slot (max_funcs - suc n) dev s in scan_funcs b bus slot n d t

  unfoldable pub scan_slots : Bus → (bus left : ℕ) → Device → S → Device × S
  scan_slots b bus zero dev s = (dev, s)
  scan_slots b bus (suc n) dev s =
      let (d, t) = scan_funcs b bus (max_slots - suc n) max_funcs dev s in scan_slots b bus n d t

  unfoldable pub scan_buses : Bus → (left : ℕ) → Device → S → Device × S
  scan_buses b zero dev s = (dev, s)
  scan_buses b (suc n) dev s =
      let (d, t) = scan_slots b (max_buses - suc n) max_slots dev s in scan_buses b n d t

  -- The bus to use: PCI Express, PCI, or none, which gives the lock back.
  unfoldable pub choose_bus : Acpi → Bytes → Bus → S → Run (Bus × S)
  choose_bus acpi mem b s =
      if not (acpi.mcfg == 0)
      then (let base = pciebase mem acpi.mcfg in
          let (vendor, t) = m.load 16 base s in
          if vendor % 2 ^ 16 == 0xFFFF then panic else ok (record b { pcie_base = base }, t))
      else (let (root, t) = devbus_read p m b 0 0 0 0 s in
          if root == ones
          then ok (record b { init_lock = false }, t)
          else ok (record b { pcie_base = 0 }, t))

  -- `dev` is what the uninitialised variable of that name holds.
  unfoldable pub devbus_init : Acpi → Bytes → Device → Bus → S → Run (Bus × S)
  devbus_init acpi mem dev b s = if b.init_lock then ok (b, s) else do
    (c, t) ← choose_bus acpi mem (record b { init_lock = true }) s
    ok (c, (scan_buses c max_buses dev t).1)
