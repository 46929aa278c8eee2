-- ===== src/Mount/Slots.antt =====
-- Handing out and giving back mount slots.
use deputy_kernel.Base.{
  ℕ, zero, suc, ◌+◌, ◌<◌, ◌≤◌, ◌≡◌, refl, sym, ap, ◌∙◌, ◌≢◌, inl, inr, true, false, List, [], ◌∷◌,
  some, arith, ok, fault, length, set, get_elem?, get_elem?-some, length-set, load-get_elem?,
  store-set, load-fault, ℤ, pos, negsuc, within, subst, ok-injective, minus_one, ◌==◌, Bool-cases,
  get_elem?-set_self,
}
use deputy_kernel.Mount.{Mounts, mount_limit, get_slot, get_slot_from, free_slot}

-- The manager after `mountmgr_init`: a full-size table. NULL is 0.
pub record IsReady (m : Mounts) : Type 0 where
  pub started : m.init_lock ≡ true
  pub size : length m.mount_v ≡ mount_limit

-- How a request ends: the lowest empty slot now holds the pointer, or there is none.
pub data Slot (p : ℕ) (m : Mounts) (from : ℕ) : ℤ × Mounts → Type 0 where
  full :
      ((j : ℕ) → from ≤ j → j < mount_limit → get_elem? m.mount_v j ≢ some 0)
      → Slot p m from (minus_one, m)
  taken :
      (i : ℕ)
      → from ≤ i
      → i < mount_limit
      → get_elem? m.mount_v i ≡ some 0
      → ((j : ℕ) → from ≤ j → j < i → get_elem? m.mount_v j ≢ some 0)
      → Slot p m from (pos i, record m { mount_v = set m.mount_v i p })

later :
    (v : List ℕ) (i j : ℕ)
    → (get_elem? v i ≢ some 0)
    → i ≤ j
    → (suc i ≤ j → get_elem? v j ≢ some 0)
    → get_elem? v j ≢ some 0
later v i j here h rest = elim (Bool-cases (i == j)) [
  | inl e ↦ rw (sym (eq_of i j e)) here
  | inr e ↦ rest (ground arith)
]
  where
    eq_of : (a b : ℕ) → (a == b) ≡ true → a ≡ b
    eq_of a b e = ground arith

Slot-suc :
    {p : ℕ} {m : Mounts} (i : ℕ) {r : ℤ × Mounts}
    → get_elem? m.mount_v i ≢ some 0
    → Slot p m (suc i) r
    → Slot p m i r
Slot-suc {m = m} i here (full none_empty) =
    full λ j h k. later m.mount_v i j here h λ h'. none_empty j h' k
Slot-suc {m = m} i here (taken j h k e first) =
    taken j (omega arith) k e λ l h' k'. later m.mount_v i l here h' λ h''. first l h'' k'

get_slot_from-Slot :
    (p i n : ℕ) {m : Mounts}
    → IsReady m
    → i + n ≡ mount_limit
    → (r : ℤ × Mounts) × (get_slot_from p i n m ≡ ok r) × Slot p m i r
unfolding get_slot_from
get_slot_from-Slot p i zero {m} v e = ((minus_one, m), refl, full λ j h k. absurd (omega arith))
get_slot_from-Slot p i (suc n) {m} v e =
    let inside : i < length m.mount_v = omega (arith, v.size) in
    let (old, at) = get_elem?-some m.mount_v i inside in
    elim (Bool-cases (old == 0)) [
      | inl z ↦ (
        (pos i, record m { mount_v = set m.mount_v i p }),
        ground (arith, load-get_elem? m.mount_v i at, store-set m.mount_v i p inside),
        taken i (omega arith) (omega arith) (ground arith) (λ j h k. absurd (omega arith)),
      )
      | inr z ↦
          let (r, run, s) = get_slot_from-Slot p (suc i) n v (omega arith) in
          (r, ground (arith, load-get_elem? m.mount_v i at), Slot-suc i (ground arith) s)
    ]

-- `mountmgr_getSlot` of a pointer that is not NULL, on an initialised table of full size,
-- returns: the lowest empty slot, which now holds the pointer, or -1 and the table unchanged if
-- no slot is empty.
pub get_slot-Slot :
    (p : ℕ) {m : Mounts}
    → IsReady m
    → p ≢ 0
    → (r : ℤ × Mounts) × (get_slot p m ≡ ok r) × Slot p m 0 r
unfolding get_slot
get_slot-Slot p {m} v ne =
    let (r, run, s) = get_slot_from-Slot p 0 mount_limit v refl in (r, ground (arith, v.started), s)

set-set : {A : Type 0} (xs : List A) (i : ℕ) (a b : A) → set (set xs i a) i b ≡ set xs i b
set-set [] i a b = refl
set-set (x ∷ xs) zero a b = refl
set-set (x ∷ xs) (suc i) a b = ap (λ t. x ∷ t) (set-set xs i a b)

set_same : {A : Type 0} (xs : List A) (i : ℕ) {a : A} → get_elem? xs i ≡ some a → set xs i a ≡ xs
set_same [] i e = refl
set_same (x ∷ xs) zero e = ground arith
set_same (x ∷ xs) (suc i) e = ap (λ t. x ∷ t) (set_same xs i e)

free_taken :
    (p i : ℕ) {m : Mounts}
    → IsReady m
    → p ≢ 0
    → i < mount_limit
    → get_elem? m.mount_v i ≡ some 0
    → free_slot (pos i) (record m { mount_v = set m.mount_v i p }) ≡ ok (pos 0, m)
unfolding free_slot
free_taken p i {m} v ne h e =
    let inside : i < length m.mount_v = omega (arith, v.size) in
    let held = load-get_elem? (set m.mount_v i p) i (get_elem?-set_self m.mount_v i p inside) in
    let cleared = store-set (set m.mount_v i p) i 0 (omega (arith, length-set m.mount_v i p)) in
    ground (arith, held, cleared, v.started, set-set m.mount_v i p 0, set_same m.mount_v i e)

free_Slot :
    {p : ℕ} {m : Mounts} {r : ℤ × Mounts}
    → IsReady m
    → p ≢ 0
    → Slot p m 0 r
    → r.0 ≢ minus_one
    → free_slot r.0 r.1 ≡ ok (pos 0, m)
free_Slot v ne (full none_empty) h = absurd (h refl)
free_Slot {p} v ne (taken i low high e first) h = free_taken p i v ne high e

-- `mountmgr_freeSlot` of the slot that `mountmgr_getSlot` gave, on an initialised table of full
-- size and for a pointer that is not NULL, brings back the table before.
pub free_slot-get_slot :
    (p : ℕ) {m : Mounts} (r : ℤ × Mounts)
    → IsReady m
    → p ≢ 0
    → get_slot p m ≡ ok r
    → r.0 ≢ minus_one
    → free_slot r.0 r.1 ≡ ok (pos 0, m)
free_slot-get_slot p {m} r v ne e h =
    let (s, run, t) = get_slot-Slot p v ne in
    free_Slot v ne (subst (λ x. Slot p m 0 x) (ok-injective s r (sym run ∙ e)) t) h

-- `mountmgr_freeSlot` on an initialised table of full size, of a slot that is not from 0 to 1023,
-- reads outside the table before it refuses the slot.
pub free_slot-fault :
    (slot : ℤ) {m : Mounts}
    → IsReady m
    → within 0 mount_limit slot ≡ false
    → free_slot slot m ≡ fault
unfolding free_slot
free_slot-fault (pos n) {m} v h =
    ground (arith, v.started, load-fault m.mount_v n (ground (arith, v.size)))
free_slot-fault (negsuc n) v h = ground (arith, v.started)
