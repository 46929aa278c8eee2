-- ===== src/Utils/Strings.antt =====
-- `length`, `copy` and `compare` of source/kernel/utils.c over NUL-terminated buffers. A buffer is
-- the list of the bytes from the pointer to the end of its object; to read or write on is a fault.
pub mod Laws
pub mod Split
mod Tests
use deputy_kernel.Base.{
  ℕ, suc, true, false, not, ◌&&◌, List, [], ◌∷◌, ◌==◌, Run, ok, fault, ◌>>=◌, ℤ, difference,
}

unfoldable pub string_length : List ℕ → Run ℕ
string_length [] = fault
string_length (c ∷ str) = elim (c == 0) [
  | true ↦ ok 0
  | false ↦ (do len ← string_length str; ok (suc len))
]

-- The destination afterwards.
unfoldable pub copy : List ℕ → List ℕ → Run (List ℕ)
copy [] src = fault
copy (d ∷ dest) [] = fault
copy (d ∷ dest) (c ∷ src) = elim (c == 0) [
  | true ↦ ok (0 ∷ dest)
  | false ↦ (do rest ← copy dest src; ok (c ∷ rest))
]

unfoldable pub compare : List ℕ → List ℕ → Run ℤ
compare [] str2 = fault
compare (a ∷ str1) [] = fault
compare (a ∷ str1) (b ∷ str2) = elim (not (a == 0) && a == b) [
  | true ↦ compare str1 str2
  | false ↦ ok (difference a b)
]
