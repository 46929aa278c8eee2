-- ===== src/Utils/Strings/Laws.antt =====
-- What the string functions do with a text, the bytes before the NUL.
use deputy_kernel.Base.{
  ℕ, suc, ◌<◌, ◌≤◌, ◌≡◌, ◌≢◌, ◌↔◌, refl, List, [], ◌∷◌, ◌++◌, arith, length, drop, ok, fault, ℤ,
  pos, difference, ℕ_discrete,
}
use deputy_kernel.Utils.Strings.{string_length, copy, compare}

-- No byte of the text is NUL.
unfoldable pub IsText : List ℕ → Type 0
IsText [] = Unit {0}
IsText (c ∷ s) = (c ≢ 0) × IsText s

-- The buffer that holds a text and `rest` behind its NUL.
abbrev pub terminated : List ℕ → List ℕ → List ℕ
terminated s rest = s ++ 0 ∷ rest

pub string_length-terminated :
    (s rest : List ℕ) → IsText s → string_length (terminated s rest) ≡ ok (length s)
unfolding string_length IsText
string_length-terminated [] rest h = refl
string_length-terminated (c ∷ s) rest (ne, h) =
    ground (arith, ne, string_length-terminated s rest h)

-- `copy` of a NUL-terminated text to a longer destination writes the text and a NUL, and leaves
-- the rest of the destination.
pub copy-terminated :
    (dest s rest : List ℕ)
    → IsText s
    → length s < length dest
    → copy dest (terminated s rest) ≡ ok (terminated s (drop (suc (length s)) dest))
unfolding copy IsText
copy-terminated [] s rest h k = absurd (omega arith)
copy-terminated (d ∷ dest) [] rest h k = refl
copy-terminated (d ∷ dest) (c ∷ s) rest (ne, h) k =
    ground (arith, ne, copy-terminated dest s rest h (omega arith))

-- A text that is as long as the destination is copied past its end.
pub copy-fault :
    (dest s rest : List ℕ)
    → IsText s
    → length dest ≤ length s
    → copy dest (terminated s rest) ≡ fault
unfolding copy IsText
copy-fault [] s rest h k = refl
copy-fault (d ∷ dest) [] rest h k = absurd (omega arith)
copy-fault (d ∷ dest) (c ∷ s) rest (ne, h) k =
    ground (arith, ne, copy-fault dest s rest h (omega arith))

tail_of : {a b : ℕ} {s t : List ℕ} → a ≡ b → ((a ∷ s) ≡ (b ∷ t)) ↔ (s ≡ t)
tail_of e = ground (arith, e)

-- `compare` of two NUL-terminated texts returns, and gives 0 exactly if the texts are equal,
-- whatever is behind their NULs.
pub compare-terminated :
    (s t rest rest' : List ℕ)
    → IsText s
    → IsText t
    → (z : ℤ) × (compare (terminated s rest) (terminated t rest') ≡ ok z) × ((z ≡ pos 0) ↔ (s ≡ t))
unfolding compare IsText
compare-terminated [] [] rest rest' h k = (pos 0, refl, (λ e. refl, λ e. refl))
compare-terminated [] (b ∷ t) rest rest' h (ne, k) = (
  difference 0 b,
  ground arith,
  (λ e. absurd (ground (arith, ne)), λ e. absurd (ground (arith, e))),
)
compare-terminated (a ∷ s) [] rest rest' (ne, h) k = (
  difference a 0,
  ground (arith, ne),
  (λ e. absurd (ground (arith, ne)), λ e. absurd (ground (arith, e))),
)
compare-terminated (a ∷ s) (b ∷ t) rest rest' (ne, h) (ne', k) = elim (ℕ_discrete a b) [
  | yes e ↦
      let (z, run, (to, from)) = compare-terminated s t rest rest' h k in
      (z, ground (arith, ne, e), (λ q. ground (arith, to q, e), λ q. from (ground (arith, q))))
  | no d ↦ (
    difference a b,
    ground (arith, d),
    (λ q. absurd (ground (arith, d)), λ q. absurd (ground (arith, d, q))),
  )
]
