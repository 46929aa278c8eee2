-- ===== src/Utils/Numbers/Decimal.antt =====
-- `utils_itoa` and `atoi` are inverse to each other.
use native.Mathlib.Numerals.{unary_clauses}
use deputy_kernel.Base.{
  ℕ, zero, suc, ◌+◌, ◌-◌, ◌*◌, ◌/◌, ◌%◌, ◌^◌, ◌<◌, ◌≤◌, ◌≡◌, ◌≢◌, refl, ap, sym, ◌∙◌, true, false,
  List, [], ◌∷◌, ◌++◌, arith, length, drop, set, replicate, ok, store-set, append-snoc, ℤ, pos,
  negsuc, ℕ_discrete, length-set,
}
use deputy_kernel.Utils.Numbers.{
  count_digits, write_digits, itoa_parts, itoa, skip_spaces, atoi_digits, atoi_signed, atoi, to_int,
}

-- The last `k` decimal digits, as characters.
unfoldable pub digits : ℕ → ℕ → List ℕ
digits zero num = []
digits (suc k) num = digits k (num / 10) ++ (48 + num % 10) ∷ []

pow-suc : (k : ℕ) → 10 ^ suc k ≡ 10 ^ k * 10
pow-suc k = simp unary_clauses refl

drop-set : (xs : List ℕ) (i x : ℕ) → i < length xs → drop i (set xs i x) ≡ x ∷ drop (suc i) xs
drop-set [] i x h = absurd (omega arith)
drop-set (y ∷ xs) zero x h = refl
drop-set (y ∷ xs) (suc i) x h = drop-set xs i x (omega arith)

write_digits-digits :
    (k num : ℕ) (buffer : List ℕ)
    → k ≤ length buffer
    → write_digits false false k num buffer ≡ ok (digits k num ++ drop k buffer)
unfolding write_digits digits
write_digits-digits zero num buffer h = refl
write_digits-digits (suc i) num buffer h =
    let next =
      write_digits-digits i (num / 10) (set buffer i (48 + num % 10))
        (omega (arith, length-set buffer i (48 + num % 10))) in
    rw (store-set buffer i (48 + num % 10) (omega arith)) (
      next
      ∙ rw (drop-set buffer i (48 + num % 10) (omega arith))
          (ap ok (sym (append-snoc (digits i (num / 10)) (48 + num % 10) (drop (suc i) buffer)))))

write_digits-minus :
    (k num : ℕ) (buffer : List ℕ)
    → suc k ≤ length buffer
    → write_digits true false (suc k) num buffer ≡ ok (0x2D ∷ digits k num ++ drop (suc k) buffer)
unfolding write_digits digits
write_digits-minus zero num [] h = absurd (omega arith)
write_digits-minus zero num (x ∷ buffer) h = rw (store-set (x ∷ buffer) 0 0x2D (omega arith)) refl
write_digits-minus (suc i) num buffer h =
    let c = 48 + num % 10 in
    let next =
      write_digits-minus i (num / 10) (set buffer (suc i) c)
        (omega (arith, length-set buffer (suc i) c)) in
    let last = drop-set buffer (suc i) c (omega arith) in
    ground (
      arith,
      store-set buffer (suc i) c (omega arith),
      next,
      last,
      append-snoc (digits i (num / 10)) c (drop (suc (suc i)) buffer),
    )

count_digits-bound : (n temp : ℕ) → count_digits n temp ≤ n
unfolding count_digits
count_digits-bound zero temp = omega arith
count_digits-bound (suc n) temp = ground (arith, count_digits-bound n (temp / 10))

count_digits-zero : (temp : ℕ) → count_digits 0 temp ≡ 0
unfolding count_digits
count_digits-zero temp = refl

count_digits-one : (n temp : ℕ) → temp / 10 ≡ 0 → count_digits (suc n) temp ≡ 1
unfolding count_digits
count_digits-one n temp e = ground (arith, e)

count_digits-more :
    (n temp : ℕ) → temp / 10 ≢ 0 → count_digits (suc n) temp ≡ suc (count_digits n (temp / 10))
unfolding count_digits
count_digits-more n temp e = ground (arith, e)

-- The counted digits are enough.
count_digits-enough : (n temp : ℕ) → temp < 10 ^ n → temp < 10 ^ count_digits n temp
count_digits-enough zero temp h = rw (count_digits-zero temp) h
count_digits-enough (suc n) temp h = elim (ℕ_discrete (temp / 10) 0) [
  | yes e ↦ rw (count_digits-one n temp e) (omega arith)
  | no ne ↦ rw (count_digits-more n temp ne) (
      omega (
        arith,
        pow-suc (count_digits n (temp / 10)),
        count_digits-enough n (temp / 10) (omega (arith, pow-suc n)),
      ))
]

atoi_digits-stop : (rest : List ℕ) (num : ℕ) → atoi_digits (0 ∷ rest) num ≡ ok num
unfolding atoi_digits
atoi_digits-stop rest num = refl

-- Reading the digits back, with the value so far at 0.
atoi_digits-digits :
    (k num : ℕ) (rest : List ℕ)
    → num < 10 ^ k
    → num < 2 ^ 32
    → atoi_digits (digits k num ++ rest) 0 ≡ atoi_digits rest num
unfolding digits atoi_digits
atoi_digits-digits zero num rest h b = let e : num ≡ 0 = omega arith in rw e refl
atoi_digits-digits (suc k) num rest h b =
    let next =
      atoi_digits-digits k (num / 10) ((48 + num % 10) ∷ rest) (omega (arith, pow-suc k))
        (omega arith) in
    rw (append-snoc (digits k (num / 10)) (48 + num % 10) rest) (next ∙ ground arith)

-- A number that has a digit begins with one.
record Begins (xs : List ℕ) : Type 0 where
  head : ℕ
  tail : List ℕ
  low : 48 ≤ head
  high : head ≤ 57
  split : xs ≡ head ∷ tail

digits-Begins : (k num : ℕ) (rest : List ℕ) → Begins (digits (suc k) num ++ rest)
unfolding digits
digits-Begins zero num rest = record {
  head = 48 + num % 10;
  tail = rest;
  low = omega arith;
  high = omega arith;
  split = refl;
}
digits-Begins (suc k) num rest =
    let b = digits-Begins k (num / 10) ((48 + num % 10) ∷ rest) in
    record {
      head = b.head;
      tail = b.tail;
      low = b.low;
      high = b.high;
      split = append-snoc (digits (suc k) (num / 10)) (48 + num % 10) rest ∙ b.split;
    }

atoi-plain :
    (c : ℕ) (t : List ℕ) (result : ℕ)
    → 48 ≤ c
    → c ≤ 57
    → atoi_digits (c ∷ t) 0 ≡ ok result
    → atoi (c ∷ t) ≡ ok (to_int result)
unfolding atoi skip_spaces atoi_signed
atoi-plain c t result h k e = ground (arith, e)

atoi-minus :
    (t : List ℕ) (result : ℕ)
    → atoi_digits t 0 ≡ ok result
    → atoi (0x2D ∷ t) ≡ ok (to_int ((2 ^ 32 - result) % 2 ^ 32))
unfolding atoi skip_spaces atoi_signed
atoi-minus t result e = rw e refl

-- The digits of a number and a NUL are read as the number.
read_back :
    (num : ℕ) (rest : List ℕ)
    → num < 2 ^ 32
    → atoi_digits (digits (count_digits 10 num) num ++ 0 ∷ rest) 0 ≡ ok num
read_back num rest h =
    atoi_digits-digits (count_digits 10 num) num (0 ∷ rest)
      (count_digits-enough 10 num (omega arith)) h
    ∙ atoi_digits-stop rest num

-- The buffer that `utils_itoa` writes, for a number that is not negative.
itoa_parts-pos :
    (num dc : ℕ)
    → count_digits 10 num ≡ dc
    → itoa_parts false num ≡ ok (digits dc num ++ 0 ∷ drop (suc dc) (set (replicate 64 0) dc 0))
unfolding itoa_parts
itoa_parts-pos num dc e =
    let small : dc < length (replicate 64 zero) = omega (arith, count_digits-bound 10 num, e) in
    let zeros = set (replicate 64 zero) dc 0 in
    let written =
      write_digits-digits dc num zeros (omega (arith, length-set (replicate 64 zero) dc 0)) in
    ground (
      arith,
      store-set (replicate 64 zero) dc 0 small,
      written,
      drop-set (replicate 64 zero) dc 0 small,
    )

itoa_parts-neg :
    (num dc : ℕ)
    → count_digits 10 num ≡ dc
    → num ≢ 2 ^ 31
    → itoa_parts true num ≡ ok (0x2D ∷ digits dc num ++ 0 ∷ drop (suc (suc dc)) (replicate 64 0))
unfolding itoa_parts
itoa_parts-neg num dc e ne =
    let at : dc + 1 ≡ suc dc = omega arith in
    let small : suc dc < length (replicate 64 zero) = omega (arith, count_digits-bound 10 num, e) in
    let zeros = set (replicate 64 zero) (suc dc) 0 in
    let written =
      write_digits-minus dc num zeros (omega (arith, length-set (replicate 64 zero) (suc dc) 0)) in
    ground (
      arith,
      at,
      store-set (replicate 64 zero) (suc dc) 0 small,
      written,
      drop-set (replicate 64 zero) (suc dc) 0 small,
    )

count_digits-positive : (n temp : ℕ) → 1 ≤ count_digits (suc n) temp
unfolding count_digits
count_digits-positive n temp = ground arith

atoi_digits-atoi :
    (num k : ℕ) (rest : List ℕ)
    → 1 ≤ k
    → atoi_digits (digits k num ++ 0 ∷ rest) 0 ≡ ok num
    → atoi (digits k num ++ 0 ∷ rest) ≡ ok (to_int num)
atoi_digits-atoi num zero rest h e = absurd (omega arith)
atoi_digits-atoi num (suc k) rest h e =
    let b = digits-Begins k num (0 ∷ rest) in
    rw b.split
      (atoi-plain b.head b.tail num b.low b.high (ap (λ t. atoi_digits t 0) (sym b.split) ∙ e))

-- The numbers from -(2 ^ 31 - 1) to 2 ^ 31 - 1.
unfoldable pub IsInt : ℤ → Type 0
IsInt (pos n) = n < 2 ^ 31
IsInt (negsuc n) = n + 1 < 2 ^ 31

to_int-neg : (n : ℕ) → n + 1 < 2 ^ 31 → to_int ((2 ^ 32 - (n + 1)) % 2 ^ 32) ≡ negsuc n
to_int-neg n h = ground arith

to_int-pos : (n : ℕ) → n < 2 ^ 31 → to_int n ≡ pos n
to_int-pos n h = ground arith

-- For every `int` but INT_MIN, `utils_itoa` returns without leaving its buffer, and `atoi` reads
-- the number back from it.
pub atoi-itoa : (z : ℤ) → IsInt z → (buffer : List ℕ) × (itoa z ≡ ok buffer) × (atoi buffer ≡ ok z)
unfolding itoa IsInt
atoi-itoa (pos n) h =
    let k = count_digits 10 n in
    let rest : List ℕ = drop (suc k) (set (replicate 64 0) k 0) in
    let e = read_back n rest (omega arith) in
    (
      digits k n ++ 0 ∷ rest,
      itoa_parts-pos n k refl,
      atoi_digits-atoi n k rest (count_digits-positive 9 n) e ∙ ap ok (to_int-pos n h),
    )
atoi-itoa (negsuc n) h =
    let k = count_digits 10 (n + 1) in
    let rest : List ℕ = drop (suc (suc k)) (replicate 64 0) in
    let e = read_back (n + 1) rest (omega arith) in
    (
      0x2D ∷ digits k (n + 1) ++ 0 ∷ rest,
      itoa_parts-neg (n + 1) k refl (omega arith),
      atoi-minus (digits k (n + 1) ++ 0 ∷ rest) (n + 1) e ∙ ap ok (to_int-neg n h),
    )
