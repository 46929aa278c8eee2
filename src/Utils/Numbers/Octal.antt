-- ===== src/Utils/Numbers/Octal.antt =====
-- `utils_oct2bin` and `utils_bcd2dec` read what they are documented to read.
use native.Mathlib.Numerals.{unary_clauses}
use deputy_kernel.Base.{
  ℕ, zero, suc, ◌+◌, ◌*◌, ◌/◌, ◌%◌, ◌^◌, ◌<◌, ◌≡◌, refl, ap, ◌∙◌, List, [], ◌∷◌, ◌++◌, arith, ok,
  append-snoc,
}
use deputy_kernel.Utils.Numbers.{oct2bin_from, oct2bin, bcd2dec}

-- The last `k` octal digits, as characters.
unfoldable pub octal_digits : ℕ → ℕ → List ℕ
octal_digits zero num = []
octal_digits (suc k) num = octal_digits k (num / 8) ++ (48 + num % 8) ∷ []

pow-suc : (k : ℕ) → 8 ^ suc k ≡ 8 ^ k * 8
pow-suc k = simp unary_clauses refl

-- After the digits of a number the loop has that number.
pub oct2bin_from-digits :
    (k l num : ℕ) (rest : List ℕ)
    → num < 8 ^ k
    → num < 2 ^ 32
    → oct2bin_from (octal_digits k num ++ rest) (k + l) 0 ≡ oct2bin_from rest l num
unfolding octal_digits oct2bin_from
oct2bin_from-digits zero l num rest h b =
    let e : num ≡ 0 = omega arith in rw e (ap (λ t. oct2bin_from rest t 0) (omega arith))
oct2bin_from-digits (suc k) l num rest h b =
    let next =
      oct2bin_from-digits k (suc l) (num / 8) ((48 + num % 8) ∷ rest) (omega (arith, pow-suc k))
        (omega arith) in
    let size : suc k + l ≡ k + suc l = omega arith in
    rw (size, append-snoc (octal_digits k (num / 8)) (48 + num % 8) rest)
      (next ∙ ap (λ t. oct2bin_from rest l t) (ground arith))

-- `utils_oct2bin` of the last k octal digits of a number below 8 ^ k and 2 ^ 32 gives the number.
pub oct2bin-octal_digits :
    (k num : ℕ) (rest : List ℕ)
    → num < 8 ^ k
    → num < 2 ^ 32
    → oct2bin (octal_digits k num ++ rest) k ≡ ok num
unfolding oct2bin oct2bin_from
oct2bin-octal_digits k num rest h b =
    let e : k ≡ k + 0 = omega arith in
    ap (λ l. oct2bin_from (octal_digits k num ++ rest) l 0) e
    ∙ oct2bin_from-digits k 0 num rest h b
    ∙ refl

-- Two decimal digits in a byte.
pub bcd2dec-bcd :
    (tens ones : ℕ) → tens < 10 → ones < 10 → bcd2dec (tens * 16 + ones) ≡ tens * 10 + ones
unfolding bcd2dec
bcd2dec-bcd tens ones h k = omega arith
