-- ===== src/Hw/Devbus/Address.antt =====
-- The addresses of configuration registers.
use deputy_kernel.Base.{ℕ, ◌+◌, ◌*◌, ◌%◌, ◌^◌, ◌<◌, ◌≡◌, sym, ◌∙◌, arith, bit_or}
use deputy_kernel.Base.Bits.{bit_or-add, add-bit_or, IsPower-8, IsPower-11, IsPower-16, IsPower-31}
use deputy_kernel.Hw.Devbus.{pci_address, max_slots, max_funcs}

bus_slot :
    (bus slot : ℕ)
    → slot < max_slots
    → bit_or (bus * 2 ^ 16) (slot * 2 ^ 11) ≡ (bus * 32 + slot) * 2 ^ 11
bus_slot bus slot h =
    omega (arith, bit_or-add (2 ^ 16) bus (slot * 2 ^ 11) IsPower-16 (omega arith))

bus_slot_func :
    (a func : ℕ) → func < max_funcs → bit_or (a * 2 ^ 11) (func * 2 ^ 8) ≡ (a * 8 + func) * 2 ^ 8
bus_slot_func a func h =
    omega (arith, bit_or-add (2 ^ 11) a (func * 2 ^ 8) IsPower-11 (omega arith))

pub pci_address-sum :
    (bus slot func reg : ℕ)
    → bus < 256
    → slot < max_slots
    → func < max_funcs
    → reg < 64
    → pci_address bus slot func reg ≡ 2 ^ 31 + bus * 2 ^ 16 + slot * 2 ^ 11 + func * 2 ^ 8 + reg * 4
unfolding pci_address
pci_address-sum bus slot func reg hb hs hf hr =
    rw
      (
        bus_slot bus slot hs,
        bus_slot_func (bus * 32 + slot) func hf,
        bit_or-add (2 ^ 8) ((bus * 32 + slot) * 8 + func) (reg * 4 % 2 ^ 8) IsPower-8 (omega arith),
      )
      (omega (
        arith,
        add-bit_or (2 ^ 31) 1 (((bus * 32 + slot) * 8 + func) * 2 ^ 8 + reg * 4 % 2 ^ 8) IsPower-31
            (omega arith),
      ))

-- Two registers, each of a bus below 256, a slot and a function below their limits and with an
-- index below 64, that have the same address on the index port are the same register of the same
-- device.
pub pci_address-injective :
    (bus slot func reg bus' slot' func' reg' : ℕ)
    → bus < 256
    → slot < max_slots
    → func < max_funcs
    → reg < 64
    → bus' < 256
    → slot' < max_slots
    → func' < max_funcs
    → reg' < 64
    → pci_address bus slot func reg ≡ pci_address bus' slot' func' reg'
    → (bus ≡ bus') × (slot ≡ slot') × (func ≡ func') × (reg ≡ reg')
pci_address-injective bus slot func reg bus' slot' func' reg' hb hs hf hr hb' hs' hf' hr' e =
    let a = pci_address-sum bus slot func reg hb hs hf hr in
    let b = pci_address-sum bus' slot' func' reg' hb' hs' hf' hr' in
    let same : 2 ^ 31 + bus * 2 ^ 16 + slot * 2 ^ 11 + func * 2 ^ 8 + reg * 4
        ≡ 2 ^ 31 + bus' * 2 ^ 16 + slot' * 2 ^ 11 + func' * 2 ^ 8 + reg' * 4 =
      sym a ∙ e ∙ b in
    (omega arith, omega arith, omega arith, omega arith)
