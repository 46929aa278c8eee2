-- ===== src/Hw/Devbus/Fields.antt =====
-- What `devbus_get` reads of a device.
use deputy_kernel.Base.{ℕ, ◌+◌, ◌*◌, ◌^◌, ◌<◌, ◌≡◌, arith, true, some}
use deputy_kernel.Hw.Ports.{Ports, port_inl}
use deputy_kernel.Hw.Devbus.{Mmio, Bus, Device, device_of, devbus_read, devbus_get}

-- Every field is a value of its C type.
pub record IsTyped (d : Device) : Type 0 where
  pub bus : d.bus < 2 ^ 8
  pub slot : d.slot < 2 ^ 8
  pub func : d.func < 2 ^ 8
  pub vendor : d.vendor < 2 ^ 16
  pub device : d.device < 2 ^ 16
  pub revision : d.revision < 2 ^ 8
  pub interface : d.interface < 2 ^ 8
  pub subclass : d.subclass < 2 ^ 8
  pub class : d.class < 2 ^ 8

device_of-IsTyped :
    (bus slot func r0 r2 : ℕ)
    → bus < 2 ^ 8
    → slot < 2 ^ 8
    → func < 2 ^ 8
    → r0 < 2 ^ 32
    → r2 < 2 ^ 32
    → IsTyped (device_of bus slot func r0 r2)
      × (r0
          ≡ (device_of bus slot func r0 r2).vendor
            + (device_of bus slot func r0 r2).device * 2 ^ 16)
      × (r2
          ≡ (device_of bus slot func r0 r2).revision
            + (device_of bus slot func r0 r2).interface * 2 ^ 8
            + (device_of bus slot func r0 r2).subclass * 2 ^ 16
            + (device_of bus slot func r0 r2).class * 2 ^ 24)
unfolding device_of
device_of-IsTyped bus slot func r0 r2 hb hs hf h k = (
  record {
    bus = hb;
    slot = hs;
    func = hf;
    vendor = omega arith;
    device = omega arith;
    revision = omega arith;
    interface = omega arith;
    subclass = omega arith;
    class = omega arith;
  },
  omega arith,
  omega arith,
)

module _ {S : Type 0} (p : Ports S) (m : Mmio S) where
  devbus_read-lt :
      (b : Bus) (bus slot func reg : ℕ) (s : S) → (devbus_read p m b bus slot func reg s).0 < 2 ^ 32
  unfolding devbus_read port_inl
  devbus_read-lt b bus slot func reg s = ground arith

  -- On an initialised bus and for a location of three bytes, `devbus_get` gives a device whose
  -- every field is a value of its C type, and whose fields put together are the two registers
  -- that were read.
  pub devbus_get-IsTyped :
      (b : Bus) (dev : Device) (bus slot func : ℕ) (s : S)
      → b.init_lock ≡ true
      → bus < 2 ^ 8
      → slot < 2 ^ 8
      → func < 2 ^ 8
      → (d : Device) × ((devbus_get p m b (some dev) bus slot func s).0 ≡ some d)
        × IsTyped d
        × ((devbus_read p m b bus slot func 0 s).0 ≡ d.vendor + d.device * 2 ^ 16)
        × ((devbus_read p m b bus slot func 2 (devbus_read p m b bus slot func 0 s).1).0
            ≡ d.revision + d.interface * 2 ^ 8 + d.subclass * 2 ^ 16 + d.class * 2 ^ 24)
  unfolding devbus_get
  devbus_get-IsTyped b dev bus slot func s h hb hs hf =
      let r0 = devbus_read p m b bus slot func 0 s in
      let r2 = devbus_read p m b bus slot func 2 r0.1 in
      let (t, e0, e2) =
        device_of-IsTyped bus slot func r0.0 r2.0 hb hs hf (devbus_read-lt b bus slot func 0 s)
          (devbus_read-lt b bus slot func 2 r0.1) in
      (device_of bus slot func r0.0 r2.0, ground arith, t, e0, e2)
