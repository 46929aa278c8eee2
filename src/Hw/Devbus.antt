-- ===== src/Hw/Devbus.antt =====
-- The device bus, source/hw/devbus.c: configuration space through the ports of PCI or through the
-- memory of PCI Express. An argument of type `uint8_t` is a number below 256.
pub mod Address
pub mod Fields
pub mod Scan
mod Tests
use deputy_kernel.Base.{
  ℕ, zero, suc, ◌+◌, ◌-◌, ◌*◌, ◌/◌, ◌%◌, ◌^◌, bit_or, Bool, true, false, not, ◌&&◌, ◌||◌, ◌==◌, ltb,
  leb, if◌then◌else◌, Option, none, some, Run, ok, panic,
}
use deputy_kernel.Utils.Buffers.{Bytes}
use deputy_kernel.Hw.Acpi.{Acpi, word32}
use deputy_kernel.Hw.Ports.{Ports, port_inl, port_outl}

-- Registers that are mapped into memory.
pub record Mmio (S : Type 0) : Type 0 where
  pub load : (width addr : ℕ) → S → ℕ × S
  pub store : (width addr value : ℕ) → S → S

-- `devbus_InitLock` and `devbus_PCIeBase`, 0 for NULL.
pub record Bus : Type 0 where
  pub init_lock : Bool
  pub pcie_base : ℕ

pub record Bar : Type 0 where
  pub addr : ℕ
  pub type : ℕ
  pub prefetch : Bool

pub record Device : Type 0 where
  pub bus : ℕ
  pub slot : ℕ
  pub func : ℕ
  pub vendor : ℕ
  pub device : ℕ
  pub revision : ℕ
  pub interface : ℕ
  pub subclass : ℕ
  pub class : ℕ

abbrev pub max_buses : ℕ
max_buses = 256

abbrev pub max_slots : ℕ
max_slots = 32

abbrev pub max_funcs : ℕ
max_funcs = 8

abbrev pub bartype_mm : ℕ
bartype_mm = 0

abbrev pub bartype_io : ℕ
bartype_io = 1

abbrev pub index_port : ℕ
index_port = 3320

abbrev pub data_port : ℕ
data_port = 3324

-- All bits of a `uint32_t`, the value -1.
abbrev pub ones : ℕ
ones = 2 ^ 32 - 1

-- The address of a register in the memory of PCI Express.
unfoldable pub pcie_address : (base bus slot func reg : ℕ) → ℕ
pcie_address base bus slot func reg =
    (base + bit_or (bit_or (bus * 2 ^ 20) (slot * 2 ^ 15)) (func * 2 ^ 12) + reg * 4) % 2 ^ 32

-- What the index port of PCI is given.
unfoldable pub pci_address : (bus slot func reg : ℕ) → ℕ
pci_address bus slot func reg =
    bit_or
      (bit_or (bit_or (bit_or (bus * 2 ^ 16) (slot * 2 ^ 11)) (func * 2 ^ 8)) (reg * 4 % 2 ^ 8))
      (2 ^ 31)

-- The fields that two registers hold.
unfoldable pub device_of : (bus slot func reg0 reg2 : ℕ) → Device
device_of bus slot func reg0 reg2 = record {
  bus = bus;
  slot = slot;
  func = func;
  vendor = reg0 % 2 ^ 16;
  device = reg0 / 2 ^ 16 % 2 ^ 16;
  revision = reg2 % 2 ^ 8;
  interface = reg2 / 2 ^ 8 % 2 ^ 8;
  subclass = reg2 / 2 ^ 16 % 2 ^ 8;
  class = reg2 / 2 ^ 24 % 2 ^ 8;
}

module _ {S : Type 0} (p : Ports S) (m : Mmio S) where
  unfoldable pub devbus_read : Bus → (bus slot func reg : ℕ) → S → ℕ × S
  devbus_read b bus slot func reg s =
      if not b.init_lock
      then (ones, s)
      else if not (b.pcie_base == 0)
      then (let (v, t) = m.load 32 (pcie_address b.pcie_base bus slot func reg) s in
          (v % 2 ^ 32, t))
      else port_inl p data_port (port_outl p index_port (pci_address bus slot func reg) s)

  unfoldable pub devbus_write : Bus → (bus slot func reg value : ℕ) → S → S
  devbus_write b bus slot func reg value s =
      if not b.init_lock
      then s
      else if not (b.pcie_base == 0)
      then m.store 32 (pcie_address b.pcie_base bus slot func reg) value s
      else port_outl p data_port value (port_outl p index_port (pci_address bus slot func reg) s)

  -- The address in a base address register of memory. In the 64-bit mode the upper half is read
  -- and lost in the cast to `size_t`; `none` is the return without an address.
  unfoldable pub memory_bar : Bus → (bus slot func num base : ℕ) → S → Option ℕ × S
  memory_bar b bus slot func num base s =
      let mode = base / 2 % 4 in
      let (low, t) = devbus_read b bus slot func (4 + num) s in
      let (high, u) = devbus_read b bus slot func (4 + num + 1) s in
      let (wide, w) = devbus_read b bus slot func (4 + num) u in
      if mode == 0 || mode == 1
      then (some low, t)
      else if mode == 2
      then (if leb 5 num then (none, s) else (some ((high * 2 ^ 32 + wide) % 2 ^ 32), w))
      else (some 0, s)

  -- `bar` is `none` for NULL.
  unfoldable pub devbus_get_bar : Bus → Option Bar → (bus slot func num : ℕ) → S → Option Bar × S
  devbus_get_bar b none bus slot func num s = (none, s)
  devbus_get_bar b (some bar) bus slot func num s =
      let (header, t) = devbus_read b bus slot func 3 s in
      let htype = header / 2 ^ 16 % 2 ^ 7 in
      let (base, u) = devbus_read b bus slot func (4 + num) t in
      let (found, w) = memory_bar b bus slot func num base u in
      if not b.init_lock || leb 6 num
      then (some bar, s)
      else if leb 6 (num + 4 * htype)
      then (some bar, t)
      else if base % 2 == 1
      then (some (record { addr = base / 4 * 4; type = bartype_io; prefetch = false }), u)
      else elim found [
        | none ↦ (some (record { addr = 0; type = bartype_mm; prefetch = false }), w)
        | some a ↦ (some (record { addr = a / 16 * 16; type = bartype_mm; prefetch = false }), w)
      ]

  -- `dev` is `none` for NULL.
  unfoldable pub devbus_get : Bus → Option Device → (bus slot func : ℕ) → S → Option Device × S
  devbus_get b none bus slot func s = (none, s)
  devbus_get b (some dev) bus slot func s =
      let (reg0, t) = devbus_read b bus slot func 0 s in
      let (reg2, u) = devbus_read b bus slot func 2 t in
      if not b.init_lock then (some dev, s) else (some (device_of bus slot func reg0 reg2), u)
