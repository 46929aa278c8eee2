-- ===== src/Hw/Drivers/Chosen.antt =====
-- Which drivers of source/kernel/drivers.c are asked for a device, told without the loop.
use deputy_kernel.Base.{
  ℕ, ◌≡◌, ◌≢◌, refl, sym, ◌∙◌, ◌↔◌, subst, ◌⊎◌, inl, inr, arith, Bool, true, false, List, [], ◌∷◌,
  if◌then◌else◌, none, some, ℤ, pos, negsuc, Bool-cases, Option-cases,
}
use deputy_kernel.Hw.Devbus.{Device}
use deputy_kernel.Hw.Drivers.{Driver, admits, matches, succeeds, drivers_load}

-- A field of a driver is all ones, or it is the device's.
abbrev pub Suits : (ones want have : ℕ) → Type 0
Suits ones want have = (want ≡ ones) ⊎ (want ≡ have)

admits-Suits : (ones want have : ℕ) → admits ones want have ≡ true → Suits ones want have
admits-Suits ones want have h = ground (arith, h)

Suits-admits : (ones want have : ℕ) → Suits ones want have → admits ones want have ≡ true
Suits-admits ones want have (inl e) = ground (arith, e)
Suits-admits ones want have (inr e) = ground (arith, e)

succeeds-zero : (z : ℤ) → succeeds z ≡ true → z ≡ pos 0
succeeds-zero (pos n) h = ground (arith, h)
succeeds-zero (negsuc n) h = absurd (cc)

succeeds-other : (z : ℤ) → succeeds z ≡ false → z ≢ pos 0
succeeds-other (pos n) h e = ground (arith, h, e)
succeeds-other (negsuc n) h e = absurd (cc)

other-succeeds : (z : ℤ) → z ≢ pos 0 → succeeds z ≡ false
other-succeeds z ne = elim (Bool-cases (succeeds z)) [
  | inl h ↦ absurd (ne (succeeds-zero z h))
  | inr h ↦ h
]

clash : ◌≢◌ {A = Bool} false true
clash e = cc

module _ {S : Type 0} where
  pub record IsFor (d : Driver S) (dev : Device) : Type 0 where
    pub vendor : Suits 0xFFFF d.vendor dev.vendor
    pub device : Suits 0xFFFF d.device dev.device
    pub class : Suits 0xFF d.class dev.class
    pub subclass : Suits 0xFF d.subclass dev.subclass
    pub interface : Suits 0xFF d.interface dev.interface
    pub revision : Suits 0xFF d.revision dev.revision

  -- A driver that is passed over: it is for another device, or has no initializer.
  abbrev pub Passed : Driver S → Device → Type 0
  Passed d dev = (¬ IsFor d dev) ⊎ (d.init ≡ none)

  -- The calls that a device leads to, from the machine `s` to the machine `t`.
  pub data Loads (dev : Device) : List (Driver S) → (s t : S) → Type 0 where
    nobody : {s : S} → Loads dev [] s s
    pass :
        {d : Driver S} {ds : List (Driver S)} {s t : S}
        → Passed d dev
        → Loads dev ds s t
        → Loads dev (d ∷ ds) s t
    failed :
        {d : Driver S} {ds : List (Driver S)} {s t : S} (init : Device → S → ℤ × S)
        → IsFor d dev
        → d.init ≡ some init
        → (init dev s).0 ≢ pos 0
        → Loads dev ds (init dev s).1 t
        → Loads dev (d ∷ ds) s t
    loaded :
        {d : Driver S} {ds : List (Driver S)} {s : S} (init : Device → S → ℤ × S)
        → IsFor d dev
        → d.init ≡ some init
        → (init dev s).0 ≡ pos 0
        → Loads dev (d ∷ ds) s (init dev s).1

  matches-IsFor : (d : Driver S) (dev : Device) → matches d dev ≡ true → IsFor d dev
  unfolding matches
  matches-IsFor d dev h = record {
    vendor = ground (arith, h);
    device = ground (arith, h);
    class = ground (arith, h);
    subclass = ground (arith, h);
    interface = ground (arith, h);
    revision = ground (arith, h);
  }

  IsFor-matches : (d : Driver S) (dev : Device) → IsFor d dev → matches d dev ≡ true
  unfolding matches
  IsFor-matches d dev f =
      rw
        (
          Suits-admits 0xFFFF d.vendor dev.vendor f.vendor,
          Suits-admits 0xFFFF d.device dev.device f.device,
          Suits-admits 0xFF d.class dev.class f.class,
          Suits-admits 0xFF d.subclass dev.subclass f.subclass,
          Suits-admits 0xFF d.interface dev.interface f.interface,
          Suits-admits 0xFF d.revision dev.revision f.revision,
        )
        refl

  pass_over :
      (d : Driver S) (ds : List (Driver S)) (dev : Device) (s : S)
      → (matches d dev ≡ false) ⊎ (d.init ≡ none)
      → drivers_load (d ∷ ds) dev s ≡ drivers_load ds dev s
  unfolding drivers_load
  pass_over d ds dev s (inl h) = rw h refl
  pass_over d ds dev s (inr h) = ground (arith, h)

  ask :
      (d : Driver S) (ds : List (Driver S)) (dev : Device) (s : S) (init : Device → S → ℤ × S)
      → matches d dev ≡ true
      → d.init ≡ some init
      → drivers_load (d ∷ ds) dev s
        ≡ (if succeeds (init dev s).0 then (init dev s).1 else drivers_load ds dev (init dev s).1)
  unfolding drivers_load
  ask d ds dev s init h e = rw (h, e) refl

  nobody_left : (dev : Device) (s : S) → Loads dev [] s (drivers_load [] dev s)
  unfolding drivers_load
  nobody_left dev s = nobody

  drivers_load-run :
      (ds : List (Driver S)) (dev : Device) (s : S) → Loads dev ds s (drivers_load ds dev s)
  drivers_load-run [] dev s = nobody_left dev s
  drivers_load-run (d ∷ ds) dev s = elim (Bool-cases (matches d dev)) [
    | inr h ↦
        subst (λ t. Loads dev (d ∷ ds) s t) (sym (pass_over d ds dev s (inl h)))
          (pass (inl (λ f. clash (sym h ∙ IsFor-matches d dev f))) (drivers_load-run ds dev s))
    | inl h ↦ elim (Option-cases d.init) [
      | inl e ↦
          subst (λ t. Loads dev (d ∷ ds) s t) (sym (pass_over d ds dev s (inr e)))
            (pass (inr e) (drivers_load-run ds dev s))
      | inr (init, e) ↦ elim (Bool-cases (succeeds (init dev s).0)) [
        | inl z ↦
            subst (λ t. Loads dev (d ∷ ds) s t) (sym (ask d ds dev s init h e ∙ rw z refl))
              (loaded init (matches-IsFor d dev h) e (succeeds-zero (init dev s).0 z))
        | inr z ↦
            subst (λ t. Loads dev (d ∷ ds) s t) (sym (ask d ds dev s init h e ∙ rw z refl))
              (failed init (matches-IsFor d dev h) e (succeeds-other (init dev s).0 z)
                (drivers_load-run ds dev (init dev s).1))
      ]
    ]
  ]

  Passed-test :
      (d : Driver S) (dev : Device) → Passed d dev → (matches d dev ≡ false) ⊎ (d.init ≡ none)
  Passed-test d dev (inr e) = inr e
  Passed-test d dev (inl h) = elim (Bool-cases (matches d dev)) [
    | inl m ↦ absurd (h (matches-IsFor d dev m))
    | inr m ↦ inl m
  ]

  Loads-result :
      {dev : Device} {ds : List (Driver S)} {s t : S} → Loads dev ds s t → drivers_load ds dev s ≡ t
  unfolding drivers_load
  Loads-result nobody = refl
  Loads-result {dev} {ds = d ∷ ds} {s} (pass p l) =
      pass_over d ds dev s (Passed-test d dev p) ∙ Loads-result l
  Loads-result {dev} {ds = d ∷ ds} {s} (failed init f e z l) =
      ask d ds dev s init (IsFor-matches d dev f) e
      ∙ rw (other-succeeds (init dev s).0 z) (Loads-result l)
  Loads-result {dev} {ds = d ∷ ds} {s} (loaded init f e z) =
      ask d ds dev s init (IsFor-matches d dev f) e ∙ rw z refl

  -- `drivers_load` leaves the machine in a state exactly if that state comes from calls in the
  -- order of the list: a driver is called if it has an initializer and each of its six fields is
  -- all ones or the device's, every other driver is passed over, a call whose status is not 0 is
  -- followed by the next driver, and the first call whose status is 0 is the last.
  pub drivers_load-Loads :
      (ds : List (Driver S)) (dev : Device) (s t : S)
      → (drivers_load ds dev s ≡ t) ↔ Loads dev ds s t
  drivers_load-Loads ds dev s t =
      (λ e. subst (λ u. Loads dev ds s u) e (drivers_load-run ds dev s), Loads-result)
