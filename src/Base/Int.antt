-- ===== src/Base/Int.antt =====
-- The C type `int`: its values, and arrays indexed by them.
use Prim.Native.Nat.{ℕ, ◌-◌}
use mathlib.Core.Bool.{Bool, false, ◌&&◌}
use mathlib.Core.List.{List}
use deputy_kernel.Base.Outcome.{Run, fault, load, store}
use deputy_kernel.Base.Tests.{ltb, leb, if◌then◌else◌}

-- `negsuc n` is -(n + 1).
pub data ℤ : Type 0 where
  pos : ℕ → ℤ
  negsuc : ℕ → ℤ

-- The status -1.
abbrev pub minus_one : ℤ
minus_one = negsuc 0

-- The difference of two values that are not negative.
abbrev pub difference : ℕ → ℕ → ℤ
difference a b = if leb b a then pos (a - b) else negsuc (b - a - 1)

-- `lo <= i && i < hi`
abbrev pub within : ℕ → ℕ → ℤ → Bool
within lo hi (pos n) = leb lo n && ltb n hi
within lo hi (negsuc n) = false

module _ {ℓ} {A : Type ℓ} where
  -- An access at a negative index is outside the array.
  abbrev pub load_at : List A → ℤ → Run A
  load_at xs (pos n) = load xs n
  load_at xs (negsuc n) = fault

  abbrev pub store_at : List A → ℤ → A → Run (List A)
  store_at xs (pos n) v = store xs n v
  store_at xs (negsuc n) v = fault
