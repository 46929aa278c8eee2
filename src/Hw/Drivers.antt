-- ===== src/Hw/Drivers.antt =====
-- The driver loader, source/kernel/drivers.c.
pub mod Chosen
use deputy_kernel.Base.{
  ℕ, Bool, false, not, ◌&&◌, ◌||◌, List, [], ◌∷◌, ◌==◌, if◌then◌else◌, Option, none, some, ℤ, pos,
  negsuc,
}
use deputy_kernel.Hw.Devbus.{Device}

-- `drivers_List_t`. An initializer gives a status, and is `none` for NULL.
pub record Driver (S : Type 0) : Type 0 where
  pub vendor : ℕ
  pub device : ℕ
  pub class : ℕ
  pub subclass : ℕ
  pub interface : ℕ
  pub revision : ℕ
  pub init : Option (Device → S → ℤ × S)

-- `(uint16_t)-1` and `(uint8_t)-1`, which match anything.
abbrev pub any16 : ℕ
any16 = 65_535

abbrev pub any8 : ℕ
any8 = 255

-- A field of the entry that does not rule the device out.
abbrev pub admits : (any want have : ℕ) → Bool
admits any want have = want == any || have == want

abbrev pub succeeds : ℤ → Bool
succeeds status = elim status [ pos n ↦ n == 0 | negsuc n ↦ false ]

module _ {S : Type 0} where
  unfoldable pub matches : Driver S → Device → Bool
  matches d dev =
      admits any16 d.vendor dev.vendor
      && admits any16 d.device dev.device
      && admits any8 d.class dev.class
      && admits any8 d.subclass dev.subclass
      && admits any8 d.interface dev.interface
      && admits any8 d.revision dev.revision

  -- The list, whose one driver is that of USB hosts.
  unfoldable pub drivers_list : (usb_init : Device → S → ℤ × S) → List (Driver S)
  drivers_list usb_init =
      record {
        vendor = any16;
        device = any16;
        class = 12;
        subclass = 3;
        interface = any8;
        revision = any8;
        init = some usb_init;
      }
      ∷ []

  unfoldable pub drivers_load : List (Driver S) → Device → S → S
  drivers_load [] dev s = s
  drivers_load (d ∷ ds) dev s =
      let skipped = drivers_load ds dev s in
      if not (matches d dev) then skipped else elim d.init [
        | none ↦ drivers_load ds dev s
        | some init ↦
            let (status, t) = init dev s in
            let failed = drivers_load ds dev t in if succeeds status then t else failed
      ]
