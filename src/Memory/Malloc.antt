-- ===== src/Memory/Malloc.antt =====
-- `malloc` of source/kernel/memory.c on a valid state.
pub mod Overflow
use deputy_kernel.Base.{
  ℕ, zero, suc, ◌+◌, ◌-◌, ◌*◌, ◌/◌, ◌%◌, ◌^◌, ◌≤◌, ◌<◌, ◌≡◌, refl, ap, ◌∙◌, ◌⊎◌, inl, inr, Bool,
  true, false, List, Option, none, some, arith, length, set, get_elem?, get_elem?-set_self, Run, ok,
  ◌>>=◌, load, store, Option-cases, Bool-cases, dec_lt, store-set, load-get_elem?, length-set,
}
use deputy_kernel.Memory.{
  Memory, Block, sub_size, inner, owner, blk_size, block_count, write_blocks, find_base, set_count,
  take_blocks, malloc,
}
use deputy_kernel.Memory.Layout.{Layout, take_range, take_range-Layout}
use deputy_kernel.Memory.Table.{
  window_free, put_range, write_blocks-put_range, length-put_range, get_elem?-put_range,
}
use deputy_kernel.Memory.Table.Search.{
  first_window, find_base-first_window, first_window-free, first_window-first, first_window-none,
  window_free-lt,
}

-- What `memory_init` establishes and every later call relies on.
pub record IsValid (m : Memory) : Type 0 where
  pub started : m.init_lock ≡ true
  pub table : length m.block_v ≡ m.block_c
  pub above_null : 0 < m.space
  pub aligned : m.space % blk_size ≡ 0
  pub end : m.limit ≡ m.space + m.block_c * blk_size
  pub fits : m.limit < 2 ^ 32
  pub layout : Layout m.block_v

-- The state after the region of `n` blocks at index `base` was handed out.
abbrev pub take_region : Memory → ℕ → ℕ → Memory
take_region m base n = record m { block_v = take_range m.block_v base n }

-- A request that is not empty, whose rounding up does not wrap, and that the table could hold.
pub record Fits (m : Memory) (size : ℕ) : Type 0 where
  pub positive : 0 < size
  pub no_wrap : size + blk_size ≤ 2 ^ 32
  pub small : block_count size ≤ m.block_c

pub block_count-suc :
    (size : ℕ)
    → 0 < size
    → size + blk_size ≤ 2 ^ 32
    → (n : ℕ) × (block_count size ≡ suc n) × (n * blk_size < size) × (size ≤ suc n * blk_size)
unfolding block_count
block_count-suc size h k = ((size - 1) / blk_size, omega arith, omega arith, omega arith)

set_count-set :
    (v : List Block) (k n : ℕ)
    → k < length v
    → set_count (put_range v k (suc n) inner) k (suc n) ≡ ok (take_range v k (suc n))
unfolding set_count take_range
set_count-set v k n h =
    let e = get_elem?-put_range v k n inner h in
    rw (load-get_elem? (put_range v k (suc n) inner) k e) (
      store-set (put_range v k (suc n) inner) k (owner (suc n))
        (omega (arith, length-put_range v k (suc n) inner)))

take_blocks-take_region :
    {m : Memory} (base n : ℕ)
    → IsValid m
    → base + suc n ≤ m.block_c
    → take_blocks m (suc n) base ≡ ok (m.space + base * blk_size, take_region m base (suc n))
unfolding take_blocks
take_blocks-take_region {m} base n v h = ground (
  arith,
  write_blocks-put_range inner m.block_v base (suc n) (omega arith),
  set_count-set m.block_v base n (omega arith),
)

-- How a request that fits ends: with NULL and nothing changed, if no free region is large enough,
-- or with the lowest free region, now marked.
pub data Outcome (m : Memory) (n : ℕ) : ℕ × Memory → Type 0 where
  full : ((k : ℕ) → window_free m.block_v k n ≡ false) → Outcome m n (0, m)
  given :
      (base : ℕ)
      → base + n ≤ m.block_c
      → window_free m.block_v base n ≡ true
      → ((k : ℕ) → k < base → window_free m.block_v k n ≡ false)
      → Outcome m n (m.space + base * blk_size, take_region m base n)

window_free-outside :
    (v : List Block) (k n : ℕ) → length v < k + suc n → window_free v k (suc n) ≡ false
window_free-outside v k n h = elim (Bool-cases (window_free v k (suc n))) [
  | inl t ↦ absurd (omega (arith, window_free-lt v k n t))
  | inr f ↦ f
]

module _ {m : Memory} (v : IsValid m) (n : ℕ) (small : suc n ≤ m.block_c) where
  abbrev rounds : ℕ
  rounds = suc (sub_size m.block_c (suc n))

  rounds_lem : rounds + suc n ≡ suc m.block_c
  rounds_lem = omega (arith, v.end, v.fits)

  -- Looking at every window of the table is looking at every window.
  none_free :
      first_window m.block_v (suc n) 0 rounds ≡ none
      → (k : ℕ) → window_free m.block_v k (suc n) ≡ false
  none_free e k = elim (dec_lt k rounds) [
    | yes p ↦ first_window-none m.block_v (suc n) 0 rounds k e (omega arith) (omega arith)
    | no p ↦ window_free-outside m.block_v k n (omega (arith, v.table, rounds_lem))
  ]

  choose :
      (found : Option ℕ)
      → first_window m.block_v (suc n) 0 rounds ≡ found
      → (r : ℕ × Memory) × (elim found [ none ↦ ok (0, m) | some base ↦ take_blocks m (suc n) base ]
          ≡ ok r)
        × Outcome m (suc n) r
  choose none e = ((0, m), refl, full (none_free e))
  choose (some base) e =
      let f = first_window-free m.block_v (suc n) 0 rounds base e in
      let inside : base + suc n ≤ m.block_c = omega (arith, rounds_lem, f.2) in
      (
        _,
        take_blocks-take_region base n v inside,
        given base inside f.0
            λ k h. first_window-first m.block_v (suc n) 0 rounds base k e (omega arith) h,
      )

  searched : find_base m.block_v (suc n) 0 rounds ≡ ok (first_window m.block_v (suc n) 0 rounds)
  searched = find_base-first_window m.block_v (suc n) 0 rounds (omega (arith, v.table, rounds_lem))

-- Past the guards, for the number of blocks as a variable.
pub malloc-search :
    (m : Memory) (size n : ℕ)
    → m.init_lock ≡ true
    → 0 < size
    → block_count size ≡ n
    → malloc size m ≡ (
        find_base m.block_v n 0 (suc (sub_size m.block_c n)) >>= λ found. elim found [
          | none ↦ ok (0, m)
          | some base ↦ take_blocks m n base
        ])
unfolding malloc
malloc-search m size n started positive e = ground arith

-- `malloc` on a valid state, for a size that is not 0, whose rounding up to blocks does not wrap,
-- and that the whole table could hold: it returns, and it is first fit. Either no window of the
-- block table is free and it gives NULL with the state unchanged, or it gives the address of the
-- lowest free window and marks just that window.
pub malloc-Outcome :
    {m : Memory} (size : ℕ)
    → IsValid m
    → Fits m size
    → (r : ℕ × Memory) × (malloc size m ≡ ok r) × Outcome m (block_count size) r
malloc-Outcome {m} size v f =
    let (n, e, low, high) = block_count-suc size f.positive f.no_wrap in
    let small : suc n ≤ m.block_c = omega (arith, f.small, e) in
    let (r, run, out) =
      choose v n small (first_window m.block_v (suc n) 0 (rounds v n small)) refl in
    rw e (r, malloc-search m size (suc n) v.started f.positive e ∙ rw (searched v n small) run, out)
