-- ===== src/Memory/Table.antt =====
-- The loops of memory.c over the block table, as pure functions of the table.
pub mod Search
use deputy_kernel.Base.{
  ℕ, zero, suc, ◌+◌, ◌≤◌, ◌<◌, ◌≡◌, refl, ap, ◌∙◌, Bool, true, false, List, [], ◌∷◌, Option, none,
  some, arith, length, get_elem?, if◌then◌else◌, Run, ok, fault, panic, ◌>>=◌, load, store,
  store-set, Bool-cases,
}
use deputy_kernel.Memory.{Block, unused, inner, is_free, write_blocks}

-- Whether the `n` blocks from index `k` on exist and are free.
unfoldable pub window_free : List Block → ℕ → ℕ → Bool
window_free [] k zero = true
window_free [] k (suc n) = false
window_free (b ∷ v) (suc k) n = window_free v k n
window_free (b ∷ v) zero zero = true
window_free (b ∷ v) zero (suc n) = if b.allocated then false else window_free v zero n

-- The table with `n` entries from index `k` on replaced by `b`.
unfoldable pub put_range : List Block → ℕ → ℕ → Block → List Block
put_range [] k n b = []
put_range (a ∷ v) (suc k) n b = a ∷ put_range v k n b
put_range (a ∷ v) zero zero b = a ∷ v
put_range (a ∷ v) zero (suc n) b = b ∷ put_range v zero n b

-- How many blocks are free.
unfoldable pub free_count : List Block → ℕ
free_count [] = 0
free_count (b ∷ v) = if b.allocated then free_count v else suc (free_count v)

pub is_free-cons :
    (b : Block) (v : List Block) (k n : ℕ) → is_free (b ∷ v) (suc k) n ≡ is_free v k n
unfolding is_free load
is_free-cons b v k zero = refl
is_free-cons b v k (suc n) = ground (arith, is_free-cons b v (suc k) n)

-- Inside the table the inner loop of `malloc` computes `window_free`.
pub is_free-window_free :
    (v : List Block) (k n : ℕ) → k + n ≤ length v → is_free v k n ≡ ok (window_free v k n)
unfolding is_free window_free load
is_free-window_free [] k zero h = refl
is_free-window_free [] k (suc n) h = absurd (omega arith)
is_free-window_free (b ∷ v) (suc k) n h =
    is_free-cons b v k n ∙ is_free-window_free v k n (omega arith)
is_free-window_free (b ∷ v) zero zero h = refl
is_free-window_free (b ∷ v) zero (suc n) h =
    ground (arith, is_free-cons b v zero n, is_free-window_free v zero n (omega arith))

write_blocks-cons :
    (a b : Block) (v : List Block) (n k : ℕ)
    → write_blocks b n (suc k) (a ∷ v) ≡ (write_blocks b n k v >>= λ w. ok (a ∷ w))
unfolding write_blocks store
write_blocks-cons a b v zero k = refl
write_blocks-cons a b v (suc n) k =
    elim (store v k b)
      as (λ r.
        ((r >>= λ ys. ok (a ∷ ys)) >>= λ w. write_blocks b n (suc (suc k)) w)
        ≡ ((r >>= λ w. write_blocks b n (suc k) w) >>= λ w. ok (a ∷ w))) [
          | ok w ↦ write_blocks-cons a b w n (suc k)
          | fault ↦ refl
          | panic ↦ refl
        ]

-- The marking loops compute `put_range`, and stay inside the table.
pub write_blocks-put_range :
    (b : Block) (v : List Block) (k n : ℕ)
    → k + n ≤ length v
    → write_blocks b n k v ≡ ok (put_range v k n b)
unfolding write_blocks put_range store
write_blocks-put_range b [] k zero h = refl
write_blocks-put_range b [] k (suc n) h = absurd (omega arith)
write_blocks-put_range b (a ∷ v) (suc k) n h =
    rw (write_blocks-cons a b v n k, write_blocks-put_range b v k n (omega arith))
write_blocks-put_range b (a ∷ v) zero zero h = refl
write_blocks-put_range b (a ∷ v) zero (suc n) h =
    rw (write_blocks-cons b b v n zero, write_blocks-put_range b v zero n (omega arith))

pub length-put_range :
    (v : List Block) (k n : ℕ) (b : Block) → length (put_range v k n b) ≡ length v
unfolding put_range
length-put_range [] k n b = refl
length-put_range (a ∷ v) (suc k) n b = ap suc (length-put_range v k n b)
length-put_range (a ∷ v) zero zero b = refl
length-put_range (a ∷ v) zero (suc n) b = ap suc (length-put_range v zero n b)

pub put_range-put_range :
    (v : List Block) (k n : ℕ) (a b : Block)
    → put_range (put_range v k n a) k n b ≡ put_range v k n b
unfolding put_range
put_range-put_range [] k n a b = refl
put_range-put_range (c ∷ v) (suc k) n a b = ap (λ t. c ∷ t) (put_range-put_range v k n a b)
put_range-put_range (c ∷ v) zero zero a b = refl
put_range-put_range (c ∷ v) zero (suc n) a b = ap (λ t. b ∷ t) (put_range-put_range v zero n a b)

-- The entries of a replaced range, and those outside it.
pub get_elem?-put_range :
    (v : List Block) (k n : ℕ) (b : Block)
    → k < length v
    → get_elem? (put_range v k (suc n) b) k ≡ some b
unfolding put_range
get_elem?-put_range [] k n b h = elim h [ ]
get_elem?-put_range (a ∷ v) zero n b h = refl
get_elem?-put_range (a ∷ v) (suc k) n b h = get_elem?-put_range v k n b (omega arith)
