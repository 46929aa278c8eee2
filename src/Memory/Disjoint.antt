-- ===== src/Memory/Disjoint.antt =====
-- Where the regions of `malloc` lie: inside the managed space, and apart from one another.
use deputy_kernel.Base.{
  ℕ, zero, suc, ◌+◌, ◌*◌, ◌%◌, ◌≤◌, ◌<◌, ◌≡◌, refl, ◌≢◌, subst, ◌⊎◌, inl, inr, Bool, true, false,
  List, [], ◌∷◌, arith, length, set, ok, dec_lt,
}
use deputy_kernel.Memory.{Memory, Block, inner, owner, blk_size, malloc}
use deputy_kernel.Memory.Layout.{take_range}
use deputy_kernel.Memory.Lifecycle.{malloc-inv, malloc-IsValid}
use deputy_kernel.Memory.Malloc.{IsValid, Fits, Outcome, full, given, take_region, block_count-suc}
use deputy_kernel.Memory.Table.{window_free, put_range}

allocated_at : List Block → ℕ → Bool
allocated_at [] i = false
allocated_at (b ∷ v) zero = b.allocated
allocated_at (b ∷ v) (suc i) = allocated_at v i

window_free-allocated_at :
    (v : List Block) (k n i : ℕ)
    → window_free v k n ≡ true
    → k ≤ i
    → i < k + n
    → allocated_at v i ≡ false
unfolding window_free allocated_at
window_free-allocated_at [] k n i h p q = refl
window_free-allocated_at (b ∷ v) zero zero i h p q = absurd (omega arith)
window_free-allocated_at (b ∷ v) zero (suc n) zero h p q = ground arith
window_free-allocated_at (b ∷ v) zero (suc n) (suc i) h p q =
    ground (arith, window_free-allocated_at v zero n i)
window_free-allocated_at (b ∷ v) (suc k) n zero h p q = absurd (omega arith)
window_free-allocated_at (b ∷ v) (suc k) n (suc i) h p q =
    window_free-allocated_at v k n i h (omega arith) (omega arith)

put_range-allocated_at :
    (v : List Block) (k n i : ℕ)
    → k + n ≤ length v
    → k ≤ i
    → i < k + n
    → allocated_at (put_range v k n inner) i ≡ true
unfolding put_range allocated_at
put_range-allocated_at [] k n i h p q = absurd (omega arith)
put_range-allocated_at (b ∷ v) zero zero i h p q = absurd (omega arith)
put_range-allocated_at (b ∷ v) zero (suc n) zero h p q = refl
put_range-allocated_at (b ∷ v) zero (suc n) (suc i) h p q =
    put_range-allocated_at v zero n i (omega arith) (omega arith) (omega arith)
put_range-allocated_at (b ∷ v) (suc k) n zero h p q = absurd (omega arith)
put_range-allocated_at (b ∷ v) (suc k) n (suc i) h p q =
    put_range-allocated_at v k n i (omega arith) (omega arith) (omega arith)

set-allocated_at :
    (v : List Block) (k n i : ℕ)
    → allocated_at v i ≡ true
    → allocated_at (set v k (owner n)) i ≡ true
unfolding allocated_at
set-allocated_at [] k n i h = h
set-allocated_at (b ∷ v) zero n zero h = refl
set-allocated_at (b ∷ v) zero n (suc i) h = h
set-allocated_at (b ∷ v) (suc k) n zero h = h
set-allocated_at (b ∷ v) (suc k) n (suc i) h = set-allocated_at v k n i h

-- A block is not both in a region and in a free window.
clash :
    (v : List Block) (k n j l i : ℕ)
    → k + n ≤ length v
    → window_free (take_range v k n) j l ≡ true
    → k ≤ i
    → i < k + n
    → j ≤ i
    → i < j + l
    → ⊥
unfolding take_range
clash v k n j l i fits h p q p' q' = ground (
  arith,
  set-allocated_at (put_range v k n inner) k n i (put_range-allocated_at v k n i fits p q),
  window_free-allocated_at (set (put_range v k n inner) k (owner n)) j l i h p' q',
)

apart :
    (v : List Block) (k n j l : ℕ)
    → k + suc n ≤ length v
    → window_free (take_range v k (suc n)) j (suc l) ≡ true
    → (k + suc n ≤ j) ⊎ (j + suc l ≤ k)
apart v k n j l fits h = elim (dec_lt j (k + suc n)) [
  | no p ↦ inl (omega arith)
  | yes p ↦ elim (dec_lt k (j + suc l)) [
    | no q ↦ inr (omega arith)
    | yes q ↦ elim (dec_lt k j) [
      | yes s ↦
          absurd (clash v k (suc n) j (suc l) j fits h (omega arith) p (omega arith) (omega arith))
      | no s ↦
          absurd (clash v k (suc n) j (suc l) k fits h (omega arith) (omega arith) (omega arith) q)
    ]
  ]
]

-- The bytes of a region that was handed out lie in the managed space, from a block boundary on.
record InSpace (m : Memory) (size blk : ℕ) : Type 0 where
  low : m.space ≤ blk
  high : blk + size ≤ m.limit
  aligned : blk % blk_size ≡ 0

Outcome-InSpace :
    {m : Memory} (n size : ℕ) {r : ℕ × Memory}
    → IsValid m
    → Outcome m (suc n) r
    → size ≤ suc n * blk_size
    → r.0 ≢ 0
    → InSpace m size r.0
Outcome-InSpace n size v (full none_free) h ne = absurd (ne refl)
Outcome-InSpace n size v (given base inside free_here first) h ne = record {
  low = omega arith;
  high = omega (arith, v.end);
  aligned = omega (arith, v.aligned);
}

-- A block that `malloc` returns from a valid state for a size that fits is aligned to the block
-- size, and its bytes lie between the base and the limit of the managed space.
pub malloc-InSpace :
    {m : Memory} (size : ℕ) (r : ℕ × Memory)
    → IsValid m
    → Fits m size
    → malloc size m ≡ ok r
    → r.0 ≢ 0
    → (m.space ≤ r.0) × (r.0 + size ≤ m.limit) × (r.0 % blk_size ≡ 0)
malloc-InSpace {m} size r v f e ne =
    let (n, s, low, high) = block_count-suc size f.positive f.no_wrap in
    let h =
      Outcome-InSpace n size v (subst (λ k. Outcome m k r) s (malloc-inv size r v f e)) high ne in
    (h.low, h.high, h.aligned)

-- The two outcomes in blocks, then in bytes.
Outcome-apart :
    {m : Memory} (n l size size' : ℕ) {r : ℕ × Memory} (r' : ℕ × Memory)
    → IsValid m
    → Outcome m (suc n) r
    → Outcome r.1 (suc l) r'
    → size ≤ suc n * blk_size
    → size' ≤ suc l * blk_size
    → r.0 ≢ 0
    → r'.0 ≢ 0
    → (r.0 + size ≤ r'.0) ⊎ (r'.0 + size' ≤ r.0)
Outcome-apart n l size size' r' v (full none_free) o h h' ne ne' = absurd (ne refl)
Outcome-apart {m} n l size size' r' v (given base inside free_here first) o h h' ne ne' =
    second r' o ne'
  where
    second :
        (r' : ℕ × Memory)
        → Outcome (take_region m base (suc n)) (suc l) r'
        → r'.0 ≢ 0
        → (m.space + base * blk_size + size ≤ r'.0) ⊎ (r'.0 + size' ≤ m.space + base * blk_size)
    second r' (full none_free') ne' = absurd (ne' refl)
    second r' (given base' inside' free_here' first') ne' =
        elim (apart m.block_v base n base' l (omega (arith, v.table)) free_here') [
          | inl p ↦ inl (omega arith)
          | inr p ↦ inr (omega arith)
        ]

-- Two blocks that `malloc` returns one after the other from a valid state, for sizes that fit,
-- share no byte.
pub malloc-malloc :
    {m : Memory} (size size' : ℕ) (r r' : ℕ × Memory)
    → IsValid m
    → Fits m size
    → Fits r.1 size'
    → malloc size m ≡ ok r
    → malloc size' r.1 ≡ ok r'
    → r.0 ≢ 0
    → r'.0 ≢ 0
    → (r.0 + size ≤ r'.0) ⊎ (r'.0 + size' ≤ r.0)
malloc-malloc {m} size size' r r' v f f' e e' ne ne' =
    let (n, s, low, high) = block_count-suc size f.positive f.no_wrap in
    let (l, s', low', high') = block_count-suc size' f'.positive f'.no_wrap in
    Outcome-apart n l size size' r' v (subst (λ k. Outcome m k r) s (malloc-inv size r v f e))
      (subst (λ k. Outcome r.1 k r') s'
        (malloc-inv size' r' (malloc-IsValid size r v f.no_wrap e) f' e'))
      high high' ne ne'
