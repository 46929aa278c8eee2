-- ===== src/Memory/Tests.antt =====
-- Runs of source/kernel/memory.c, and its theorems at concrete states.
use deputy_kernel.Base.{
  ℕ, ◌+◌, ◌*◌, ◌%◌, ◌≤◌, ◌≡◌, refl, ◌⊎◌, ◌&&◌, true, false, List, [], ◌∷◌, arith, replicate, ok,
  fault, ltb, leb, if◌then◌else◌, load, store, ◌<◌,
}
use deputy_kernel.Memory.{
  Memory, Block, unused, inner, owner, blk_size, sizeof_block, block_count, malloc, calloc, realloc,
  free, mavail, memory_init,
}
use deputy_kernel.Memory.Contents.{calloc-zero, realloc-malloc}
use deputy_kernel.Memory.Disjoint.{malloc-malloc}
use deputy_kernel.Memory.Init.{memory_init-IsValid}
use deputy_kernel.Memory.Layout.{done, skip, region}
use deputy_kernel.Memory.Lifecycle.{malloc-IsValid, free-malloc, free-IsValid, mavail-malloc}
use deputy_kernel.Memory.Malloc.{IsValid, Fits, Outcome, malloc-Outcome}

-- Six blocks from 0x10000 on.
abbrev before_init : Memory
before_init = record {
  init_lock = false;
  space = 0;
  limit = 0;
  block_v = [];
  block_c = 0;
  bytes = λ a. a % 256;
}

abbrev six : List Block → Memory
six v = record {
  init_lock = true;
  space = 0x10000;
  limit = 0x16000;
  block_v = v;
  block_c = 6;
  bytes = λ a. a % 256;
}

abbrev fresh : Memory
fresh = six (replicate 6 unused)

-- One free block, then a region of two, then three free blocks.
abbrev used : Memory
used = six (unused ∷ owner 2 ∷ inner ∷ unused ∷ unused ∷ unused ∷ [])

used-IsValid : IsValid used
used-IsValid = record {
  started = refl;
  table = refl;
  above_null = omega arith;
  aligned = refl;
  end = refl;
  fits = omega arith;
  layout = skip (region 1 (skip (skip (skip done))));
}

-- Two blocks are found behind the region.
after_two : Memory
after_two = six (unused ∷ owner 2 ∷ inner ∷ owner 2 ∷ inner ∷ unused ∷ [])

malloc_runs : malloc 8000 used ≡ ok (0x13000, after_two)
unfolding malloc after_two load store
malloc_runs = refl

malloc_fault_runs : malloc 30000 used ≡ fault
unfolding malloc load store
malloc_fault_runs = refl

mavail_runs : mavail used ≡ ok 16384
unfolding mavail load
mavail_runs = refl

Fits-8000 : Fits used 8000
unfolding block_count
Fits-8000 = record { positive = omega arith; no_wrap = omega arith; small = omega arith }

malloc-Outcome_example :
    (r : ℕ × Memory) × (malloc 8000 used ≡ ok r) × Outcome used (block_count 8000) r
malloc-Outcome_example = malloc-Outcome 8000 used-IsValid Fits-8000

malloc-IsValid_example : IsValid after_two
unfolding malloc after_two load store
malloc-IsValid_example =
    malloc-IsValid 8000 (0x13000, after_two) used-IsValid (omega arith) malloc_runs

free-malloc_example : free 0x13000 after_two ≡ ok used
free-malloc_example =
    free-malloc 8000 (0x13000, after_two) used-IsValid Fits-8000 malloc_runs (omega arith)

free-IsValid_example : (m : Memory) × (free 0x11004 used ≡ ok m) × IsValid m
free-IsValid_example = free-IsValid 0x11004 used-IsValid

mavail_after : mavail after_two ≡ ok 8192
unfolding mavail after_two load
mavail_after = refl

mavail-malloc_example : 8192 + block_count 8000 * blk_size ≡ 16384
mavail-malloc_example =
    mavail-malloc 8000 (0x13000, after_two) 16384 8192 used-IsValid Fits-8000 malloc_runs
      (omega arith) mavail_runs mavail_after

-- A third block, which goes to index 0.
after_one : Memory
after_one = six (owner 1 ∷ owner 2 ∷ inner ∷ owner 2 ∷ inner ∷ unused ∷ [])

malloc_runs_again : malloc 100 after_two ≡ ok (0x10000, after_one)
unfolding malloc after_two after_one load store
malloc_runs_again = refl

Fits-100 : Fits after_two 100
unfolding block_count after_two
Fits-100 = record { positive = omega arith; no_wrap = omega arith; small = omega arith }

malloc-malloc_example : (0x13000 + 8000 ≤ 0x10000) ⊎ (0x10000 + 100 ≤ 0x13000)
malloc-malloc_example =
    malloc-malloc 8000 100 (0x13000, after_two) (0x10000, after_one) used-IsValid Fits-8000 Fits-100
      malloc_runs malloc_runs_again (omega arith) (omega arith)

memory_init-IsValid_example :
    (m : Memory) × (memory_init 0x100000 0x2345 0x100000 before_init ≡ ok m)
    × IsValid m
    × (0x100000 + 0x2345 + m.block_c * sizeof_block ≤ m.space)
    × (m.limit ≤ 0x100000 + 0x2345 + 0x100000)
memory_init-IsValid_example =
    memory_init-IsValid 0x100000 0x2345 0x100000 before_init
      (record { in_memory = omega arith; enough = omega arith }) refl

calloc-zero_example :
    (m : Memory) × (calloc 8 1000 used ≡ ok (0x13000, m))
    × (m.block_v ≡ after_two.block_v)
    × ((a : ℕ)
        → m.bytes a ≡ (if leb 0x13000 a && ltb a (0x13000 + 8 * 1000) then 0 else used.bytes a))
calloc-zero_example =
    calloc-zero 8 1000 (0x13000, after_two) used-IsValid Fits-8000 malloc_runs (omega arith)

realloc-malloc_example :
    (m : Memory) × (realloc 0x13000 100 after_two ≡ ok (0x10000, m))
    × IsValid m
    × ((i : ℕ) → i < 8000 → i < 100 → m.bytes (0x10000 + i) ≡ after_two.bytes (0x13000 + i))
realloc-malloc_example =
    realloc-malloc 8000 100 (0x13000, after_two) (0x10000, after_one) used-IsValid Fits-8000
      Fits-100 malloc_runs (omega arith) malloc_runs_again (omega arith)

-- The first block is allocated, and is handed out again.
claimed : Memory
claimed = six (owner 6 ∷ inner ∷ inner ∷ inner ∷ inner ∷ inner ∷ [])

claimed-IsValid : IsValid claimed
unfolding claimed
claimed-IsValid = record {
  started = refl;
  table = refl;
  above_null = omega arith;
  aligned = refl;
  end = refl;
  fits = omega arith;
  layout = region 5 done;
}
