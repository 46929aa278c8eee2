-- ===== src/Base/Lists.antt =====
-- C arrays as lists measured and indexed by native numbers, under the library's names.
use Prim.Native.Nat.{ℕ, zero, suc, ◌+◌, ◌<◌, ◌≤◌, min}
use mathlib.Core.Path.{◌≡◌, refl, ap}
use mathlib.Core.Logic.{◌≢◌}
use mathlib.Core.List.{List, [], ◌∷◌, ◌++◌}
use mathlib.Core.Option.{Option, none, some}
use native.Mathlib.Omega.{arith}

module _ {ℓ} {A : Type ℓ} where
  abbrev pub length : List A → ℕ
  length [] = 0
  length (x ∷ xs) = suc (length xs)

  abbrev pub get_elem? : List A → ℕ → Option A
  get_elem? [] i = none
  get_elem? (x ∷ xs) zero = some x
  get_elem? (x ∷ xs) (suc i) = get_elem? xs i

  -- A write out of bounds changes nothing.
  abbrev pub set : List A → ℕ → A → List A
  set [] i v = []
  set (x ∷ xs) zero v = v ∷ xs
  set (x ∷ xs) (suc i) v = x ∷ set xs i v

  abbrev pub get_or : List A → ℕ → A → A
  get_or [] i d = d
  get_or (x ∷ xs) zero d = x
  get_or (x ∷ xs) (suc i) d = get_or xs i d

  abbrev pub take : ℕ → List A → List A
  take zero xs = []
  take (suc n) [] = []
  take (suc n) (x ∷ xs) = x ∷ take n xs

  abbrev pub drop : ℕ → List A → List A
  drop zero xs = xs
  drop (suc n) [] = []
  drop (suc n) (x ∷ xs) = drop n xs

  abbrev pub replicate : ℕ → A → List A
  replicate zero a = []
  replicate (suc n) a = a ∷ replicate n a

  pub length-append : (xs ys : List A) → length (xs ++ ys) ≡ length xs + length ys
  length-append [] ys = omega arith
  length-append (x ∷ xs) ys = omega (arith, length-append xs ys)

  pub length-set : (xs : List A) (i : ℕ) (v : A) → length (set xs i v) ≡ length xs
  length-set [] i v = refl
  length-set (x ∷ xs) zero v = refl
  length-set (x ∷ xs) (suc i) v = ap suc (length-set xs i v)

  pub length-replicate : (n : ℕ) (a : A) → length (replicate n a) ≡ n
  length-replicate zero a = refl
  length-replicate (suc n) a = ap suc (length-replicate n a)

  pub length-take : (n : ℕ) (xs : List A) → length (take n xs) ≡ min n (length xs)
  length-take zero xs = omega arith
  length-take (suc n) [] = omega arith
  length-take (suc n) (x ∷ xs) = omega (arith, length-take n xs)

  pub get_elem?-set_self :
      (xs : List A) (i : ℕ) (v : A) → i < length xs → get_elem? (set xs i v) i ≡ some v
  get_elem?-set_self [] i v h = elim h [ ]
  get_elem?-set_self (x ∷ xs) zero v h = refl
  get_elem?-set_self (x ∷ xs) (suc i) v h = get_elem?-set_self xs i v (omega arith)

  pub get_elem?-set_ne :
      (xs : List A) (i j : ℕ) (v : A) → i ≢ j → get_elem? (set xs i v) j ≡ get_elem? xs j
  get_elem?-set_ne [] i j v h = refl
  get_elem?-set_ne (x ∷ xs) zero zero v h = absurd (h refl)
  get_elem?-set_ne (x ∷ xs) zero (suc j) v h = refl
  get_elem?-set_ne (x ∷ xs) (suc i) zero v h = refl
  get_elem?-set_ne (x ∷ xs) (suc i) (suc j) v h = get_elem?-set_ne xs i j v (λ e. h (ap suc e))

  pub get_elem?-some : (xs : List A) (i : ℕ) → i < length xs → (a : A) × (get_elem? xs i ≡ some a)
  get_elem?-some [] i h = elim h [ ]
  get_elem?-some (x ∷ xs) zero h = (x, refl)
  get_elem?-some (x ∷ xs) (suc i) h = get_elem?-some xs i (omega arith)

  pub lt-length_of_get_elem? :
      (xs : List A) (i : ℕ) {a : A} → get_elem? xs i ≡ some a → i < length xs
  lt-length_of_get_elem? [] i h = absurd (cc)
  lt-length_of_get_elem? (x ∷ xs) zero h = omega arith
  lt-length_of_get_elem? (x ∷ xs) (suc i) h = omega (arith, lt-length_of_get_elem? xs i h)

  pub append-snoc : (xs : List A) (y : A) (ys : List A) → (xs ++ y ∷ []) ++ ys ≡ xs ++ y ∷ ys
  append-snoc [] y ys = refl
  append-snoc (x ∷ xs) y ys = ap (λ t. x ∷ t) (append-snoc xs y ys)

  pub set-append :
      (xs : List A) (y z : A) (ys : List A) → set (xs ++ y ∷ ys) (length xs) z ≡ xs ++ z ∷ ys
  set-append [] y z ys = refl
  set-append (x ∷ xs) y z ys = ap (λ t. x ∷ t) (set-append xs y z ys)

  pub get_elem?-append :
      (xs : List A) (y : A) (ys : List A) → get_elem? (xs ++ y ∷ ys) (length xs) ≡ some y
  get_elem?-append [] y ys = refl
  get_elem?-append (x ∷ xs) y ys = get_elem?-append xs y ys

  pub take-append : (xs ys : List A) (n : ℕ) → n ≡ length xs → take n (xs ++ ys) ≡ xs
  take-append [] ys zero e = refl
  take-append [] ys (suc n) e = absurd (omega arith)
  take-append (x ∷ xs) ys zero e = absurd (omega arith)
  take-append (x ∷ xs) ys (suc n) e = ap (λ t. x ∷ t) (take-append xs ys n (omega arith))

  pub take_all : (xs : List A) (n : ℕ) → length xs ≤ n → take n xs ≡ xs
  take_all [] zero e = refl
  take_all [] (suc n) e = refl
  take_all (x ∷ xs) zero e = absurd (omega arith)
  take_all (x ∷ xs) (suc n) e = ap (λ t. x ∷ t) (take_all xs n (omega arith))

  -- One more element, which the prefix takes if it has room.
  pub take-snoc :
      (xs : List A) (y : A) (n : ℕ) → length xs < n → take n (xs ++ y ∷ []) ≡ take n xs ++ y ∷ []
  take-snoc [] y zero e = absurd (omega arith)
  take-snoc [] y (suc n) e = ap (λ t. y ∷ t) (take_all [] n (omega arith))
  take-snoc (x ∷ xs) y zero e = absurd (omega arith)
  take-snoc (x ∷ xs) y (suc n) e = ap (λ t. x ∷ t) (take-snoc xs y n (omega arith))

  pub take-snoc_full :
      (xs : List A) (y : A) (n : ℕ) → n ≤ length xs → take n (xs ++ y ∷ []) ≡ take n xs
  take-snoc_full xs y zero e = refl
  take-snoc_full [] y (suc n) e = absurd (omega arith)
  take-snoc_full (x ∷ xs) y (suc n) e = ap (λ t. x ∷ t) (take-snoc_full xs y n (omega arith))
