-- ===== src/Memory/Init.antt =====
-- `memory_init` of source/kernel/memory.c.
use deputy_kernel.Base.{
  ℕ, ◌+◌, ◌*◌, ◌/◌, ◌%◌, ◌^◌, ◌≤◌, ◌<◌, ◌≡◌, refl, ◌≢◌, true, false, arith, length-replicate, ok,
  replicate,
}
use deputy_kernel.Memory.{Memory, blk_size, sizeof_block, unused, supported_blocks, memory_init}
use deputy_kernel.Memory.Layout.{replicate-Layout}
use deputy_kernel.Memory.Malloc.{IsValid}

-- What the boot code hands over: a field of `size` bytes behind the kernel and its module, inside
-- the 32-bit address space and large enough for one block.
pub record IsField (kernel_limit os_module_size size : ℕ) : Type 0 where
  pub in_memory : kernel_limit + os_module_size + size < 2 ^ 32
  pub enough : 2 * (blk_size + sizeof_block) ≤ size

supported_blocks-bounds :
    (size : ℕ)
    → 2 * (blk_size + sizeof_block) ≤ size
    → (supported_blocks size ≢ 0) × ((supported_blocks size + 1) * (blk_size + sizeof_block) ≤ size)
unfolding supported_blocks
supported_blocks-bounds size h = (ground arith, ground arith)

-- The state that the code builds for `n` blocks behind the table at `base`.
abbrev started : Memory → (base n : ℕ) → Memory
started m base n =
    let space = (base + n * sizeof_block + blk_size) % 2 ^ 32 / blk_size * blk_size in
    record m {
      init_lock = true;
      space = space;
      limit = (space + n * blk_size) % 2 ^ 32;
      block_v = replicate n unused;
      block_c = n;
    }

module _ (m : Memory) (base n size : ℕ) (room : (n + 1) * (blk_size + sizeof_block) ≤ size)
    (in_memory : base + size < 2 ^ 32) where
  started_bounds :
      (base + n * sizeof_block ≤ (started m base n).space)
      × ((started m base n).limit ≡ (started m base n).space + n * blk_size)
      × ((started m base n).limit ≤ base + size)
      × (0 < (started m base n).space)
      × ((started m base n).space % blk_size ≡ 0)
  started_bounds = omega arith

  started-IsValid : IsValid (started m base n)
  started-IsValid = record {
    started = refl;
    table = length-replicate n unused;
    above_null = started_bounds.3;
    aligned = started_bounds.4;
    end = started_bounds.1;
    fits = omega (arith, started_bounds.2);
    layout = replicate-Layout n;
  }

memory_init-started :
    (kernel_limit os_module_size size : ℕ) (m : Memory)
    → IsField kernel_limit os_module_size size
    → m.init_lock ≡ false
    → memory_init kernel_limit os_module_size size m
      ≡ ok (started m (kernel_limit + os_module_size) (supported_blocks size))
unfolding memory_init
memory_init-started kernel_limit os_module_size size m f fresh =
    let base : (kernel_limit + os_module_size) % 2 ^ 32 ≡ kernel_limit + os_module_size =
      omega (arith, f.in_memory) in
    ground (arith, base, f.in_memory, supported_blocks-bounds size f.enough)

-- `memory_init`, called first and with a field that ends inside the 32-bit space and is large
-- enough for two blocks and their entries, gives a valid state, in which the block table ends
-- below the managed space and the managed space ends inside the field.
pub memory_init-IsValid :
    (kernel_limit os_module_size size : ℕ) (m : Memory)
    → IsField kernel_limit os_module_size size
    → m.init_lock ≡ false
    → (m' : Memory) × (memory_init kernel_limit os_module_size size m ≡ ok m')
      × IsValid m'
      × (kernel_limit + os_module_size + m'.block_c * sizeof_block ≤ m'.space)
      × (m'.limit ≤ kernel_limit + os_module_size + size)
memory_init-IsValid kernel_limit os_module_size size m f fresh =
    let base = kernel_limit + os_module_size in
    let n = supported_blocks size in
    let room = (supported_blocks-bounds size f.enough).1 in
    let b = started_bounds m base n size room f.in_memory in
    (
      started m base n,
      memory_init-started kernel_limit os_module_size size m f fresh,
      started-IsValid m base n size room f.in_memory,
      b.0,
      b.2,
    )
