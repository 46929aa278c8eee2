-- ===== src/Memory.antt =====
-- The block allocator of source/kernel/memory.c, in the order of that file. A function returns its
-- result beside the new state; NULL is the address 0. The block table is a list, and an access
-- outside it is a fault.
pub mod Disjoint
pub mod Init
pub mod Contents
pub mod Layout
pub mod Lifecycle
pub mod Malloc
pub mod Release
pub mod Table
mod Tests
use deputy_kernel.Base.{
  ℕ, zero, suc, ◌+◌, ◌-◌, ◌*◌, ◌/◌, ◌%◌, ◌^◌, Bool, true, false, not, ◌||◌, List, [], ◌∷◌, Option,
  none, some, ltb, leb, ◌==◌, if◌then◌else◌, Run, ok, panic, ◌>>=◌, load, store, replicate,
}
use deputy_kernel.Utils.Buffers.{Bytes, fill, ncopy}

-- `memory_Block_t`.
pub record Block : Type 0 where
  pub count : ℕ
  pub allocated : Bool

-- The variables of memory.c, and the bytes that the addresses hold.
pub record Memory : Type 0 where
  pub init_lock : Bool
  pub space : ℕ
  pub limit : ℕ
  pub block_v : List Block
  pub block_c : ℕ
  pub bytes : Bytes

-- `MEMORY_BLKSIZE`, and `sizeof(memory_Block_t)` on i386.
abbrev pub blk_size : ℕ
blk_size = 4096

abbrev pub sizeof_block : ℕ
sizeof_block = 8

-- A `size_t` difference.
abbrev pub sub_size : ℕ → ℕ → ℕ
sub_size a b = (a + 2 ^ 32 - b) % 2 ^ 32

-- The three contents that the code writes to a table entry.
abbrev pub unused : Block
unused = record { count = 0; allocated = false }

abbrev pub inner : Block
inner = record { count = 0; allocated = true }

abbrev pub owner : ℕ → Block
owner n = record { count = n; allocated = true }

-- `(size + MEMORY_BLKSIZE - 1) / MEMORY_BLKSIZE`
unfoldable pub block_count : ℕ → ℕ
block_count size = (size + blk_size - 1) % 2 ^ 32 / blk_size

-- The loop over `j`: are the blocks from index `k` on, as many as rounds are left, all free?
unfoldable pub is_free : List Block → ℕ → ℕ → Run Bool
is_free v k zero = ok true
is_free v k (suc n) = do
  b ← load v k
  elim b.allocated [ true ↦ ok false | false ↦ is_free v (suc k) n ]

-- The loop over `i`: the base of the first free region, with `n` rounds left.
unfoldable pub find_base : List Block → ℕ → ℕ → ℕ → Run (Option ℕ)
unfolding is_free
find_base v count i zero = ok none
find_base v count i (suc n) = do
  free_here ← is_free v i count
  elim free_here [ true ↦ ok (some i) | false ↦ find_base v count (suc i) n ]

-- The loops of `malloc` and `free` that write one content to consecutive entries.
unfoldable pub write_blocks : Block → ℕ → ℕ → List Block → Run (List Block)
write_blocks b zero k v = ok v
write_blocks b (suc n) k v = do v' ← store v k b; write_blocks b n (suc k) v'

set_count : List Block → ℕ → ℕ → Run (List Block)
set_count v base n = do b ← load v base; store v base (record b { count = n })

-- The end of `malloc`: mark the blocks, and the address of the first.
pub take_blocks : Memory → ℕ → ℕ → Run (ℕ × Memory)
unfolding write_blocks set_count
take_blocks m count base = do
  v ← write_blocks inner count base m.block_v
  v' ← set_count v base count
  ok ((m.space + base * blk_size) % 2 ^ 32, record m { block_v = v' })

-- `i <= memory_BlockC - count` gives the search one round more than that difference.
unfoldable pub malloc : ℕ → Memory → Run (ℕ × Memory)
unfolding block_count find_base take_blocks
malloc size m = if not m.init_lock || size == 0 then ok (0, m) else do
  let count = block_count size
  found ← find_base m.block_v count 0 (suc (sub_size m.block_c count))
  elim found [ none ↦ ok (0, m) | some base ↦ take_blocks m count base ]

-- `n > UINT_MAX` is tested on a `size_t`, whose product has already wrapped.
unfoldable pub calloc : ℕ → ℕ → Memory → Run (ℕ × Memory)
calloc nmemb size m = if not m.init_lock then ok (0, m) else do
  let n = nmemb * size % 2 ^ 32
  if ltb (2 ^ 32 - 1) n then ok (0, m) else do
    (blk, m') ← malloc n m
    ok (if blk == 0 then (0, m') else (blk, record m' { bytes = fill blk 0 n m'.bytes }))

-- The guard that `realloc` and `free` share.
refuses : Memory → ℕ → Bool
refuses m blk = not m.init_lock || blk == 0 || ltb blk m.space || leb m.limit blk

release : Memory → ℕ → ℕ → Run Memory
release m num count =
    if count == 0
    then ok m
    else do v ← write_blocks unused count num m.block_v; ok (record m { block_v = v })

unfoldable pub free : ℕ → Memory → Run Memory
unfolding refuses release write_blocks
free blk m =
    if refuses m blk
    then ok m
    else do let num = (blk - m.space) / blk_size; b ← load m.block_v num; release m num b.count

unfoldable pub realloc : ℕ → ℕ → Memory → Run (ℕ × Memory)
unfolding refuses
realloc blk size m = if refuses m blk then ok (0, m) else do
  (newblk, m') ← malloc size m
  if newblk == 0 then ok (0, m') else do
    m'' ← free blk (record m' { bytes = ncopy newblk blk size m'.bytes })
    ok (newblk, m'')

-- The loop of `mavail`, from index `i` on.
mavail_from : List Block → ℕ → ℕ → ℕ → Run ℕ
mavail_from v i zero result = ok result
mavail_from v i (suc n) result = do
  b ← load v i
  mavail_from v (suc i) n (if b.allocated then result else (result + blk_size) % 2 ^ 32)

unfoldable pub mavail : Memory → Run ℕ
unfolding mavail_from
mavail m = if not m.init_lock then ok 0 else mavail_from m.block_v 0 m.block_c 0

-- `size / (MEMORY_BLKSIZE + sizeof(memory_Block_t))`, less one.
supported_blocks : ℕ → ℕ
supported_blocks size = let n = size / (blk_size + sizeof_block) in n - (if n == 0 then 0 else 1)

-- `base` is `(size_t)&kernel_Limit + kernel_OSModuleSize`. The rounding up clears the low bits.
unfoldable pub memory_init : (kernel_limit os_module_size size : ℕ) → Memory → Run Memory
unfolding supported_blocks
memory_init kernel_limit os_module_size size m =
    if m.init_lock
    then ok m
    else if ltb (2 ^ 32 - 1) size || supported_blocks size == 0
    then panic
    else let n = supported_blocks size in
      let base = (kernel_limit + os_module_size) % 2 ^ 32 in
      let space = (base + n * sizeof_block + blk_size) % 2 ^ 32 / blk_size * blk_size in
      ok (record m {
        init_lock = true;
        space = space;
        limit = (space + n * blk_size) % 2 ^ 32;
        block_v = replicate n unused;
        block_c = n;
      })
