-- ===== src/Base/Bits.antt =====
-- `|` on numbers that share no binary digit is a sum.
use Prim.Native.Nat.{
  ℕ, zero, suc, ◌+◌, ◌*◌, ◌/◌, ◌%◌, ◌^◌, ◌≤◌, ◌<◌, max, bit_or, digits, bit_or-bitwise,
}
use mathlib.Core.Path.{◌≡◌, refl, ap}
use native.Mathlib.Omega.{arith}

abbrev or_digits : ℕ → ℕ → ℕ → ℕ
or_digits n a b = digits (λ b. b) max n a b

or_digits_fuel : (n m a b : ℕ) → a ≤ n → a ≤ m → or_digits n a b ≡ or_digits m a b
or_digits_fuel zero zero a b p q = refl
or_digits_fuel zero (suc m) zero b p q = refl
or_digits_fuel zero (suc m) (suc a) b p q = absurd (omega arith)
or_digits_fuel (suc n) zero zero b p q = refl
or_digits_fuel (suc n) zero (suc a) b p q = absurd (omega arith)
or_digits_fuel (suc n) (suc m) zero b p q = refl
or_digits_fuel (suc n) (suc m) (suc a) b p q =
    omega (arith, or_digits_fuel n m (suc a / 2) (b / 2) (omega arith) (omega arith))

zero-bit_or : (b : ℕ) → bit_or 0 b ≡ b
zero-bit_or b = bit_or-bitwise 0 b

bit_or_step : (a b : ℕ) → bit_or a b ≡ bit_or (a / 2) (b / 2) * 2 + max (a % 2) (b % 2)
bit_or_step zero b = omega (arith, zero-bit_or b, zero-bit_or (b / 2))
bit_or_step (suc a) b = omega (
  arith,
  bit_or-bitwise (suc a) b,
  bit_or-bitwise (suc a / 2) (b / 2),
  or_digits_fuel a (suc a / 2) (suc a / 2) (b / 2) (omega arith) (omega arith),
)

bit_or-zero_fuel : (n a : ℕ) → a ≤ n → bit_or a 0 ≡ a
bit_or-zero_fuel n zero h = zero-bit_or 0
bit_or-zero_fuel zero (suc a) h = absurd (omega arith)
bit_or-zero_fuel (suc n) (suc a) h =
    omega (arith, bit_or_step (suc a) 0, bit_or-zero_fuel n (suc a / 2) (omega arith))

bit_or-zero : (a : ℕ) → bit_or a 0 ≡ a
bit_or-zero a = bit_or-zero_fuel a a (omega arith)

-- The powers of two, by doubling.
pub data IsPower : ℕ → Type 0 where
  one : IsPower 1
  double : (m : ℕ) → IsPower m → IsPower (m * 2)

bit_or-double : (y x : ℕ) → bit_or y (x / 2) ≡ y + x / 2 → bit_or (y * 2) x ≡ y * 2 + x
bit_or-double y x h =
    let e : y * 2 / 2 ≡ y = omega arith in
    omega (arith, bit_or_step (y * 2) x, ap (λ z. bit_or z (x / 2)) e)

double-bit_or : (y x : ℕ) → bit_or (x / 2) y ≡ y + x / 2 → bit_or x (y * 2) ≡ y * 2 + x
double-bit_or y x h =
    let e : y * 2 / 2 ≡ y = omega arith in
    omega (arith, bit_or_step x (y * 2), ap (λ z. bit_or (x / 2) z) e)

-- A number below a power of two, in the digits that a multiple of it leaves free.
pub bit_or-add : (m a x : ℕ) → IsPower m → x < m → bit_or (a * m) x ≡ a * m + x
bit_or-add _ a x one h = ground (arith, bit_or-zero a)
bit_or-add _ a x (double m p) h =
    let e : a * (m * 2) ≡ a * m * 2 = omega arith in
    rw e (bit_or-double (a * m) x (bit_or-add m a (x / 2) p (omega arith)))

pub add-bit_or : (m a x : ℕ) → IsPower m → x < m → bit_or x (a * m) ≡ a * m + x
add-bit_or _ a x one h = let e : x ≡ 0 = omega arith in rw e (ground (arith, zero-bit_or (a * 1)))
add-bit_or _ a x (double m p) h =
    let e : a * (m * 2) ≡ a * m * 2 = omega arith in
    rw e (double-bit_or (a * m) x (add-bit_or m a (x / 2) p (omega arith)))

-- The powers of two up to 2 ^ 31.
pub IsPower-8 : IsPower (2 ^ 8)
IsPower-8 =
    search
      (one, double 1, double 2, double 4, double 8, double 16, double 32, double 64, double 128)

pub IsPower-11 : IsPower (2 ^ 11)
IsPower-11 = double 1024 (double 512 (double 256 IsPower-8))

pub IsPower-16 : IsPower (2 ^ 16)
IsPower-16 = double 32768 (double 16384 (double 8192 (double 4096 (double 2048 IsPower-11))))

pub IsPower-20 : IsPower (2 ^ 20)
IsPower-20 = double 524288 (double 262144 (double 131072 (double 65536 IsPower-16)))

pub IsPower-31 : IsPower (2 ^ 31)
IsPower-31 = double (2 ^ 30) (
    double (2 ^ 29) (
      double (2 ^ 28) (
        double (2 ^ 27) (
          double (2 ^ 26) (
            double (2 ^ 25) (
              double (2 ^ 24) (
                double (2 ^ 23)
                  (double (2 ^ 22) (double (2 ^ 21) (double (2 ^ 20) IsPower-20))))))))))
