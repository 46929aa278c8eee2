-- ===== src/Memory/Lifecycle/Available.antt =====
-- `mavail` of source/kernel/memory.c counts the free blocks.
use deputy_kernel.Base.{
  ℕ, zero, suc, ◌+◌, ◌*◌, ◌%◌, ◌^◌, ◌<◌, ◌≡◌, refl, ap, ◌∙◌, List, [], ◌∷◌, arith, length, ok,
  fault, ◌>>=◌, load, panic, if◌then◌else◌,
}
use deputy_kernel.Memory.{Memory, Block, blk_size, mavail, mavail_from}
use deputy_kernel.Memory.Malloc.{IsValid}
use deputy_kernel.Memory.Table.{free_count}

mavail_from-cons :
    (b : Block) (v : List Block) (i n result : ℕ)
    → mavail_from (b ∷ v) (suc i) n result ≡ mavail_from v i n result
unfolding mavail_from load
mavail_from-cons b v i zero result = refl
mavail_from-cons b v i (suc n) result =
    elim (load v i)
      as (λ r.
        (r >>= λ c.
        mavail_from (b ∷ v) (suc (suc i)) n
          (if c.allocated then result else (result + blk_size) % 2 ^ 32))
        ≡ (r >>= λ c.
            mavail_from v (suc i) n
              (if c.allocated then result else (result + blk_size) % 2 ^ 32))) [
                | ok c ↦ mavail_from-cons b v (suc i) n _
                | fault ↦ refl
                | panic ↦ refl
              ]

mavail_from-free_count :
    (v : List Block) (result : ℕ)
    → result + length v * blk_size < 2 ^ 32
    → mavail_from v 0 (length v) result ≡ ok (result + free_count v * blk_size)
unfolding mavail_from load free_count
mavail_from-free_count [] result h = ap ok (omega arith)
mavail_from-free_count (b ∷ v) result h =
    let next = if b.allocated then result else (result + blk_size) % 2 ^ 32 in
    let bound : next + length v * blk_size < 2 ^ 32 = ground arith in
    mavail_from-cons b v 0 (length v) next
    ∙ mavail_from-free_count v next bound
    ∙ ap ok (ground arith)

-- On a valid state `mavail` is the number of free blocks, in bytes.
pub mavail-free_count : {m : Memory} → IsValid m → mavail m ≡ ok (free_count m.block_v * blk_size)
unfolding mavail
mavail-free_count {m} v =
    ground (arith, mavail_from-free_count m.block_v 0, v.started, v.table, v.end, v.fits)
