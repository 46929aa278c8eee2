-- ===== src/Base/Outcome.antt =====
-- What a C function does besides returning: an access outside an array is a fault, and PANIC of
-- include/kernel.h halts the machine.
use Prim.Native.Nat.{ℕ, zero, suc, ◌<◌}
use mathlib.Core.Path.{◌≡◌, refl}
use mathlib.Core.List.{List, [], ◌∷◌}
use mathlib.Core.Option.{some}
use native.Mathlib.Omega.{arith}
use deputy_kernel.Base.Lists.{length, get_elem?, set}

pub data Run {ℓ} (A : Type ℓ) : Type ℓ where
  ok : A → Run A
  fault : Run A
  panic : Run A

infixl 5 ◌>>=◌ ◌>>◌
abbrev pub ◌>>=◌ {ℓ κ} : {A : Type ℓ} {B : Type κ} → Run A → (A → Run B) → Run B
ok a >>= f = f a
fault >>= f = fault
panic >>= f = panic

abbrev pub ◌>>◌ {ℓ} : {B : Type ℓ} → Run (Unit {0}) → Run B → Run B
m >> k = m >>= λ _. k

pub ok-injective {ℓ} : {A : Type ℓ} (a b : A) → ok a ≡ ok b → a ≡ b
ok-injective a b e = cc

-- The first step of a run that returns.
pub bind-ok {ℓ κ} :
    {A : Type ℓ} {B : Type κ} (r : Run A) (f : A → Run B) (b : B)
    → ◌>>=◌ {B = B} r f ≡ ok b
    → (a : A) × (r ≡ ok a) × (f a ≡ ok b)
bind-ok (ok a) f b e = (a, refl, e)
bind-ok fault f b e = absurd (cc)
bind-ok panic f b e = absurd (cc)

module _ {ℓ} {A : Type ℓ} where
  -- `v[i]`, read and written.
  unfoldable pub load : List A → ℕ → Run A
  load [] i = fault
  load (x ∷ xs) zero = ok x
  load (x ∷ xs) (suc i) = load xs i

  unfoldable pub store : List A → ℕ → A → Run (List A)
  store [] i v = fault
  store (x ∷ xs) zero v = ok (v ∷ xs)
  store (x ∷ xs) (suc i) v = store xs i v >>= λ ys. ok (x ∷ ys)

  pub load-get_elem? : (xs : List A) (i : ℕ) {a : A} → get_elem? xs i ≡ some a → load xs i ≡ ok a
  unfolding load
  load-get_elem? [] i h = cc
  load-get_elem? (x ∷ xs) zero h = cc
  load-get_elem? (x ∷ xs) (suc i) h = load-get_elem? xs i h

  pub load-ok : (xs : List A) (i : ℕ) → i < length xs → (a : A) × (load xs i ≡ ok a)
  unfolding load
  load-ok [] i h = elim h [ ]
  load-ok (x ∷ xs) zero h = (x, refl)
  load-ok (x ∷ xs) (suc i) h = load-ok xs i (omega arith)

  pub store-set : (xs : List A) (i : ℕ) (v : A) → i < length xs → store xs i v ≡ ok (set xs i v)
  unfolding store
  store-set [] i v h = elim h [ ]
  store-set (x ∷ xs) zero v h = refl
  store-set (x ∷ xs) (suc i) v h = rw (store-set xs i v (omega arith))

  -- An index outside the array faults.
  pub load-fault : (xs : List A) (i : ℕ) → length xs < suc i → load xs i ≡ fault
  unfolding load
  load-fault [] i h = refl
  load-fault (x ∷ xs) zero h = absurd (omega arith)
  load-fault (x ∷ xs) (suc i) h = load-fault xs i (omega arith)
