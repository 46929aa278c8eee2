-- ===== src/Hw/Devbus/Tests.antt =====
-- Two registers, and a driver that fails before one that works.
use deputy_kernel.Base.{
  ℕ, ◌+◌, ◌*◌, ◌^◌, ◌↔◌, true, ◌≡◌, refl, arith, [], ◌∷◌, List, some, pos, minus_one,
}
use deputy_kernel.Hw.Ports.{Ports}
use deputy_kernel.Hw.Devbus.{Mmio, Bus, Device, devbus_read, devbus_get}
use deputy_kernel.Hw.Devbus.Fields.{IsTyped, devbus_get-IsTyped}
use deputy_kernel.Hw.Devbus.Address.{pci_address-injective}
use deputy_kernel.Hw.Drivers.{Driver, any8, any16, drivers_load}
use deputy_kernel.Hw.Drivers.Chosen.{Loads, drivers_load-Loads}

pci_address-injective_example :
    (◌≡◌ {A = ℕ} 2 2) × (◌≡◌ {A = ℕ} 31 31) × (◌≡◌ {A = ℕ} 7 7) × (◌≡◌ {A = ℕ} 4 4)
pci_address-injective_example =
    pci_address-injective 2 31 7 4 2 31 7 4 (omega arith) (omega arith) (omega arith) (omega arith)
      (omega arith) (omega arith) (omega arith) (omega arith) refl

abbrev host : Device
host = record {
  bus = 0;
  slot = 4;
  func = 0;
  vendor = 0x1033;
  device = 0x194;
  revision = 3;
  interface = 0x30;
  subclass = 3;
  class = 12;
}

-- Both match; the state is the list of those that were tried.
abbrev drivers : List (Driver (List ℕ))
drivers =
    record {
      vendor = any16;
      device = any16;
      class = 12;
      subclass = 3;
      interface = any8;
      revision = any8;
      init = some (λ dev s. (minus_one, 1 ∷ s));
    }
    ∷ record {
      vendor = any16;
      device = any16;
      class = 12;
      subclass = any8;
      interface = any8;
      revision = any8;
      init = some (λ dev s. (pos 0, 2 ∷ s));
    }
    ∷ []

-- The first fails, the second succeeds.
drivers_load-Loads_example :
    (drivers_load drivers host [] ≡ 2 ∷ 1 ∷ []) ↔ Loads host drivers [] (2 ∷ 1 ∷ [])
drivers_load-Loads_example = drivers_load-Loads drivers host [] (2 ∷ 1 ∷ [])

-- Every register of the bus reads the same.
abbrev ports : Ports ℕ
ports = record {
  input = λ width port s. (0x0C033001, s + 1);
  output = λ width port v s. s;
  pause = λ s. s;
}

abbrev mmio : Mmio ℕ
mmio = record { load = λ width a s. (0, s); store = λ width a v s. s }

abbrev bus : Bus
bus = record { init_lock = true; pcie_base = 0 }

devbus_get-IsTyped_example :
    (d : Device) × ((devbus_get ports mmio bus (some host) 0 4 0 0).0 ≡ some d)
    × IsTyped d
    × ((devbus_read ports mmio bus 0 4 0 0 0).0 ≡ d.vendor + d.device * 2 ^ 16)
    × ((devbus_read ports mmio bus 0 4 0 2 (devbus_read ports mmio bus 0 4 0 0 0).1).0
        ≡ d.revision + d.interface * 2 ^ 8 + d.subclass * 2 ^ 16 + d.class * 2 ^ 24)
devbus_get-IsTyped_example =
    devbus_get-IsTyped ports mmio bus host 0 4 0 0 refl (omega arith) (omega arith) (omega arith)
