-- ===== src/Memory/Table/Search.antt =====
-- The search of `malloc` for a free region: the first one that fits, if there is one.
use deputy_kernel.Base.{
  ℕ, zero, suc, ◌+◌, ◌≤◌, ◌<◌, ◌≡◌, refl, ◌⊎◌, inr, true, false, List, [], ◌∷◌, Option, none, some,
  arith, length, if◌then◌else◌, ok, fault, load, load-fault, dec_lt,
}
use deputy_kernel.Memory.{Block, is_free, find_base}
use deputy_kernel.Memory.Table.{window_free, is_free-window_free, is_free-cons}

unfoldable pub first_window : List Block → ℕ → ℕ → ℕ → Option ℕ
first_window v c i zero = none
first_window v c i (suc r) =
    let rest = first_window v c (suc i) r in if window_free v i c then some i else rest

-- While every window that is looked at lies in the table, the outer loop computes `first_window`.
pub find_base-first_window :
    (v : List Block) (c i r : ℕ)
    → i + r + c ≤ suc (length v)
    → find_base v c i r ≡ ok (first_window v c i r)
unfolding find_base first_window
find_base-first_window v c i zero h = refl
find_base-first_window v c i (suc r) h = ground (
  arith,
  is_free-window_free v i c (omega arith),
  find_base-first_window v c (suc i) r (omega arith),
)

pub first_window-free :
    (v : List Block) (c i r b : ℕ)
    → first_window v c i r ≡ some b
    → (window_free v b c ≡ true) × (i ≤ b) × (b < i + r)
unfolding first_window
first_window-free v c i zero b e = absurd (cc)
first_window-free v c i (suc r) b e = ground (arith, first_window-free v c (suc i) r b)

pub first_window-first :
    (v : List Block) (c i r b j : ℕ)
    → first_window v c i r ≡ some b
    → i ≤ j
    → j < b
    → window_free v j c ≡ false
unfolding first_window
first_window-first v c i zero b j e h k = absurd (cc)
first_window-first v c i (suc r) b j e h k = ground (arith, first_window-first v c (suc i) r b j)

pub first_window-none :
    (v : List Block) (c i r j : ℕ)
    → first_window v c i r ≡ none
    → i ≤ j
    → j < i + r
    → window_free v j c ≡ false
unfolding first_window
first_window-none v c i zero j e h k = absurd (omega arith)
first_window-none v c i (suc r) j e h k = ground (arith, first_window-none v c (suc i) r j)

pub window_free-lt :
    (v : List Block) (k n : ℕ) → window_free v k (suc n) ≡ true → k + suc n ≤ length v
unfolding window_free
window_free-lt [] k n h = absurd (cc)
window_free-lt (b ∷ v) (suc k) n h = omega (arith, window_free-lt v k n h)
window_free-lt (b ∷ v) zero zero h = omega arith
window_free-lt (b ∷ v) zero (suc n) h = ground (arith, window_free-lt v zero n)

is_free-past_end : (v : List Block) (k n : ℕ) → length v ≤ k → is_free v k (suc n) ≡ fault
unfolding is_free
is_free-past_end v k n h = rw (load-fault v k (omega arith))

is_free_head :
    (b : Block) (v : List Block) (n : ℕ)
    → is_free (b ∷ v) 0 (suc n) ≡ (if b.allocated then ok false else is_free (b ∷ v) 1 n)
unfolding is_free load
is_free_head b v n = ground arith

-- A window that ends past the table is never called free: the loop finds an allocated block, or
-- it reads outside the table.
is_free-outside :
    (v : List Block) (k n : ℕ)
    → length v < k + suc n
    → (is_free v k (suc n) ≡ ok false) ⊎ (is_free v k (suc n) ≡ fault)
is_free-outside [] k n h = inr (is_free-past_end [] k n (omega arith))
is_free-outside (b ∷ v) (suc k) n h =
    rw (is_free-cons b v k (suc n)) (is_free-outside v k n (omega arith))
is_free-outside (b ∷ v) zero zero h = absurd (omega arith)
is_free-outside (b ∷ v) zero (suc n) h =
    ground (arith, is_free_head b v (suc n), is_free-cons b v 0 (suc n), is_free-outside v 0 n)

-- A request for more blocks than the table has reads outside it, whatever the table holds.
pub find_base-fault :
    (v : List Block) (n i r : ℕ)
    → length v < suc n
    → i ≤ length v
    → length v < i + r
    → find_base v (suc n) i r ≡ fault
unfolding find_base
find_base-fault v n i zero big h k = absurd (omega arith)
find_base-fault v n i (suc r) big h k = elim (dec_lt i (length v)) [
  | yes p ↦ ground (arith, is_free-outside v i n (omega arith), find_base-fault v n (suc i) r big p)
  | no p ↦ rw (is_free-past_end v i n (omega arith))
]
