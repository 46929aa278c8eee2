-- ===== src/Utils/Numbers/Tests.antt =====
-- Runs of the number formats, and their theorems at concrete numbers.
use deputy_kernel.Base.{
  ℕ, ◌≡◌, refl, List, ◌∷◌, arith, ok, replicate, negsuc, load, store, ◌^◌, ◌-◌,
}
use deputy_kernel.Utils.Numbers.{
  itoa, itoa_parts, count_digits, write_digits, xtoa, write_hex, swap_from, atoi,
}
use deputy_kernel.Utils.Numbers.Decimal.{IsInt, atoi-itoa}

itoa_runs : itoa (negsuc 41) ≡ ok (0x2D ∷ 52 ∷ 50 ∷ replicate 61 0)
unfolding itoa itoa_parts count_digits write_digits store
itoa_runs = refl

-- 0x1A2F
xtoa_runs : xtoa 6703 ≡ ok (49 ∷ 65 ∷ 50 ∷ 70 ∷ replicate 60 0)
unfolding xtoa write_hex swap_from load store
xtoa_runs = refl

-- The smallest number has characters below '0' for digits.
itoa_int_min_runs :
    itoa (negsuc (2 ^ 31 - 1))
    ≡ ok (0x2D ∷ 46 ∷ 47 ∷ 44 ∷ 41 ∷ 44 ∷ 40 ∷ 45 ∷ 42 ∷ 44 ∷ 40 ∷ replicate 53 0)
unfolding itoa itoa_parts count_digits write_digits store
itoa_int_min_runs = refl

atoi-itoa_example :
    (buffer : List ℕ) × (itoa (negsuc 41) ≡ ok buffer) × (atoi buffer ≡ ok (negsuc 41))
unfolding IsInt
atoi-itoa_example = atoi-itoa (negsuc 41) (omega arith)
