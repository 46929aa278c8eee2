-- ===== src/Memory/Malloc/Overflow.antt =====
-- Requests whose size arithmetic wraps in source/kernel/memory.c.
use deputy_kernel.Base.{
  ℕ, suc, ◌+◌, ◌*◌, ◌%◌, ◌^◌, ◌<◌, ◌≡◌, ◌∙◌, none, some, arith, set, ok, ◌>>=◌, store-set,
  lt-length_of_get_elem?, load-get_elem?, get_elem?,
}
use deputy_kernel.Memory.{
  Memory, Block, blk_size, block_count, malloc, calloc, is_free, find_base, take_blocks, set_count,
  write_blocks, sub_size,
}
use deputy_kernel.Memory.Malloc.{IsValid, malloc-search}

block_count-wrap : (size : ℕ) → 2 ^ 32 < size + blk_size → size < 2 ^ 32 → block_count size ≡ 0
unfolding block_count
block_count-wrap size h k = omega arith

-- A request of zero blocks is always granted at index 0.
grant_empty :
    (m : Memory) (b : Block)
    → get_elem? m.block_v 0 ≡ some b
    → m.space < 2 ^ 32
    → ◌>>=◌ {B = ℕ × Memory}
        (find_base m.block_v 0 0 (suc (sub_size m.block_c 0)))
        (λ found. elim found [ none ↦ ok (0, m) | some base ↦ take_blocks m 0 base ])
      ≡ ok (m.space, record m { block_v = set m.block_v 0 (record b { count = 0 }) })
unfolding find_base is_free take_blocks write_blocks set_count
grant_empty m b e h = ground (
  arith,
  load-get_elem? m.block_v 0 e,
  store-set m.block_v 0 (record b { count = 0 }) (lt-length_of_get_elem? m.block_v 0 e),
)

-- `malloc` from a valid state, of a 32-bit size above 2 ^ 32 - 4096, returns the first block of
-- the space, allocated or not, and sets the count of its region to 0.
pub malloc_wrap :
    {m : Memory} (size : ℕ) {b : Block}
    → IsValid m
    → get_elem? m.block_v 0 ≡ some b
    → 2 ^ 32 < size + blk_size
    → size < 2 ^ 32
    → malloc size m ≡ ok (m.space, record m { block_v = set m.block_v 0 (record b { count = 0 }) })
malloc_wrap {m} size {b} v e h k =
    malloc-search m size 0 v.started (omega arith) (block_count-wrap size h k)
    ∙ grant_empty m b e (omega (arith, v.end, v.fits))

-- `calloc` never refuses a product of 2 ^ 32 or more: it is the `calloc` of one element of the
-- size that is left of the product modulo 2 ^ 32.
pub calloc_wrap :
    (nmemb size : ℕ) (m : Memory) → calloc nmemb size m ≡ calloc 1 (nmemb * size % 2 ^ 32) m
unfolding calloc
calloc_wrap nmemb size m =
    let e : 1 * (nmemb * size % 2 ^ 32) % 2 ^ 32 ≡ nmemb * size % 2 ^ 32 = omega arith in
    rw (e, calloc)
