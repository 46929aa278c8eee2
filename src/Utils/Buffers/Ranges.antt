-- ===== src/Utils/Buffers/Ranges.antt =====
-- Ranges of memory as lists.
use deputy_kernel.Base.{ℕ, zero, suc, ◌+◌, ◌<◌, ◌≡◌, refl, ap, ap₂, arith, ◌∷◌, ◌++◌, length}
use deputy_kernel.Utils.Buffers.{Bytes, range_bytes}

pub range_bytes-agree :
    (n a b : ℕ) (mem mem' : Bytes)
    → ((i : ℕ) → i < n → mem (a + i) ≡ mem' (b + i))
    → range_bytes mem a n ≡ range_bytes mem' b n
unfolding range_bytes
range_bytes-agree zero a b mem mem' h = refl
range_bytes-agree (suc n) a b mem mem' h =
    ap₂ (λ x xs. x ∷ xs) (first (h 0 (omega arith)))
      (range_bytes-agree n (suc a) (suc b) mem mem'
        (λ i lt. shift i (h (suc i) (omega (arith, lt)))))
  where
    first : mem (a + 0) ≡ mem' (b + 0) → mem a ≡ mem' b
    first e = let p : a ≡ a + 0 = omega arith in let q : b ≡ b + 0 = omega arith in rw (p, q) e

    shift : (i : ℕ) → mem (a + suc i) ≡ mem' (b + suc i) → mem (suc a + i) ≡ mem' (suc b + i)
    shift i e =
        let p : suc a + i ≡ a + suc i = omega arith in
        let q : suc b + i ≡ b + suc i = omega arith in rw (p, q) e

pub range_bytes-length : (mem : Bytes) (a n : ℕ) → length (range_bytes mem a n) ≡ n
unfolding range_bytes
range_bytes-length mem a zero = refl
range_bytes-length mem a (suc n) = ap suc (range_bytes-length mem (suc a) n)

-- A range is the range of its first part and that of the rest.
pub range_bytes-add :
    (mem : Bytes) (a m n : ℕ)
    → range_bytes mem a (m + n) ≡ range_bytes mem a m ++ range_bytes mem (a + m) n
unfolding range_bytes
range_bytes-add mem a zero n =
    let p : 0 + n ≡ n = omega arith in let q : a + 0 ≡ a = omega arith in rw (p, q) refl
range_bytes-add mem a (suc m) n =
    let p : suc m + n ≡ suc (m + n) = omega arith in
    let q : a + suc m ≡ suc a + m = omega arith in
    rw (p, q) (ap (λ xs. mem a ∷ xs) (range_bytes-add mem (suc a) m n))
