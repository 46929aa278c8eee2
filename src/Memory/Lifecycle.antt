-- ===== src/Memory/Lifecycle.antt =====
-- Sequences of `malloc`, `free` and `mavail` calls of source/kernel/memory.c.
pub mod Available
use deputy_kernel.Base.{
  ℕ, zero, suc, ◌+◌, ◌-◌, ◌*◌, ◌/◌, ◌%◌, ◌^◌, ◌≤◌, ◌<◌, ◌≡◌, refl, sym, subst, ap, ◌∙◌, ◌≢◌, inl,
  inr, true, false, List, [], ◌∷◌, some, arith, length, get_elem?, get_elem?-some, ok-injective, ok,
  fault, ◌>>=◌, load, dec_lt, load-get_elem?, length-set, panic, if◌then◌else◌, Bool-cases,
}
use deputy_kernel.Memory.{
  Memory, Block, inner, unused, owner, blk_size, sub_size, block_count, malloc, free, refuses,
  release, mavail, mavail_from,
}
use deputy_kernel.Memory.Layout.{take_range, take_range-Layout}
use deputy_kernel.Memory.Malloc.{
  IsValid, Fits, Outcome, full, given, take_region, malloc-Outcome, malloc-search, block_count-suc,
}
use deputy_kernel.Memory.Release.{
  count-Head, put_range-take_range, get_elem?-take_range, free_count-take_range,
}
use deputy_kernel.Memory.Table.{
  window_free, put_range, write_blocks-put_range, length-put_range, free_count,
}
use deputy_kernel.Memory.Table.Search.{find_base-fault}
use deputy_kernel.Memory.Lifecycle.Available.{mavail-free_count}

-- Whatever `malloc` returns for a request that fits is its outcome.
pub malloc-inv :
    {m : Memory} (size : ℕ) (r : ℕ × Memory)
    → IsValid m
    → Fits m size
    → malloc size m ≡ ok r
    → Outcome m (block_count size) r
malloc-inv {m} size r v f e =
    let (s, run, out) = malloc-Outcome size v f in
    subst (λ x. Outcome m (block_count size) x) (ok-injective s r (sym run ∙ e)) out

length-take_range : (v : List Block) (k n : ℕ) → length (take_range v k n) ≡ length v
unfolding take_range
length-take_range v k n =
    length-set (put_range v k n inner) k (owner n) ∙ length-put_range v k n inner

take_region-IsValid :
    {m : Memory} (base n : ℕ)
    → IsValid m
    → window_free m.block_v base (suc n) ≡ true
    → IsValid (take_region m base (suc n))
take_region-IsValid {m} base n v free_here = record {
  started = v.started;
  table = length-take_range m.block_v base (suc n) ∙ v.table;
  above_null = v.above_null;
  aligned = v.aligned;
  end = v.end;
  fits = v.fits;
  layout = take_range-Layout base n v.layout free_here;
}

Outcome-IsValid :
    {m : Memory} (n : ℕ) {r : ℕ × Memory} → IsValid m → Outcome m (suc n) r → IsValid r.1
Outcome-IsValid n v (full none_free) = v
Outcome-IsValid n v (given base inside free_here first) = take_region-IsValid base n v free_here

-- `free` of the region that was just handed out gives back the state before.
free-take_region :
    {m : Memory} (base n : ℕ)
    → IsValid m
    → base + suc n ≤ m.block_c
    → window_free m.block_v base (suc n) ≡ true
    → free (m.space + base * blk_size) (take_region m base (suc n)) ≡ ok m
unfolding free refuses release
free-take_region {m} base n v inside free_here =
    let w = take_range m.block_v base (suc n) in
    let index : (m.space + base * blk_size - m.space) / blk_size ≡ base = omega arith in
    let first =
      load-get_elem? w base
        (get_elem?-take_range m.block_v base (suc n) (omega (arith, v.table))) in
    ground (
      arith,
      index,
      first,
      write_blocks-put_range unused w base (suc n)
          (omega (arith, v.table, length-take_range m.block_v base (suc n))),
      put_range-take_range base n v.layout free_here,
      v.end,
      v.started,
      v.above_null,
    )

ok≢fault {ℓ} : {A : Type ℓ} (a : A) → ok a ≢ fault
ok≢fault a e = cc

malloc_zero : (m : Memory) (size : ℕ) → size ≡ 0 → (r : ℕ × Memory) → malloc size m ≡ ok r → m ≡ r.1
unfolding malloc
malloc_zero m size z r e = ground arith

block_count-positive : (size : ℕ) → 0 < block_count size → 0 < size
unfolding block_count
block_count-positive size h = omega arith

-- `malloc` from a valid state, of a size whose rounding up does not wrap and that needs more
-- blocks than the table has, reads outside the block table.
pub malloc-fault :
    {m : Memory} (size : ℕ)
    → IsValid m
    → size + blk_size ≤ 2 ^ 32
    → m.block_c < block_count size
    → malloc size m ≡ fault
malloc-fault {m} size v no_wrap big =
    let (n, s, low, high) =
      block_count-suc size (block_count-positive size (omega arith)) no_wrap in
    malloc-search m size (suc n) v.started (block_count-positive size (omega arith)) s
    ∙ rw (
        find_base-fault m.block_v n 0 (suc (sub_size m.block_c (suc n))) (omega (arith, v.table, s))
          (omega arith) (omega (arith, v.table, v.end, v.fits)))

-- `malloc` of a size whose rounding up does not wrap, from a valid state, leaves a valid state
-- whenever it returns.
pub malloc-IsValid :
    {m : Memory} (size : ℕ) (r : ℕ × Memory)
    → IsValid m
    → size + blk_size ≤ 2 ^ 32
    → malloc size m ≡ ok r
    → IsValid r.1
malloc-IsValid {m} size r v no_wrap e = elim (dec_lt 0 size) [
  | no p ↦ rw (sym (malloc_zero m size (omega arith) r e)) v
  | yes p ↦ elim (dec_lt m.block_c (block_count size)) [
    | yes q ↦ absurd (ok≢fault r (sym e ∙ malloc-fault size v no_wrap q))
    | no q ↦
        let f : Fits m size = record { positive = p; no_wrap = no_wrap; small = omega arith } in
        let (n, s, low, high) = block_count-suc size p no_wrap in
        Outcome-IsValid n v (subst (λ k. Outcome m k r) s (malloc-inv size r v f e))
  ]
]

free-Outcome :
    {m : Memory} (n : ℕ) {r : ℕ × Memory}
    → IsValid m
    → Outcome m (suc n) r
    → r.0 ≢ 0
    → free r.0 r.1 ≡ ok m
free-Outcome n v (full none_free) ne = absurd (ne refl)
free-Outcome n v (given base inside free_here first) ne = free-take_region base n v inside free_here

-- `free` of the block that `malloc` returned from a valid state for a size that fits brings back
-- the whole state before.
pub free-malloc :
    {m : Memory} (size : ℕ) (r : ℕ × Memory)
    → IsValid m
    → Fits m size
    → malloc size m ≡ ok r
    → r.0 ≢ 0
    → free r.0 r.1 ≡ ok m
free-malloc {m} size r v f e ne =
    let (n, s, low, high) = block_count-suc size f.positive f.no_wrap in
    free-Outcome n v (subst (λ k. Outcome m k r) s (malloc-inv size r v f e)) ne

refuses-range : (m : Memory) (blk : ℕ) → refuses m blk ≡ false → (m.space ≤ blk) × (blk < m.limit)
unfolding refuses
refuses-range m blk e = ground arith

release-IsValid :
    {m : Memory} (num : ℕ) {b : Block}
    → IsValid m
    → get_elem? m.block_v num ≡ some b
    → (m' : Memory) × (release m num b.count ≡ ok m') × IsValid m'
unfolding release
release-IsValid {m} num {b} v at = elim (count-Head num v.layout at) [
  | inl z ↦ (m, rw z, v)
  | inr h ↦ (
    record m { block_v = put_range m.block_v num (suc h.size) unused },
    ground (arith, h.is_owner, write_blocks-put_range unused m.block_v num (suc h.size) h.inside),
    record {
      started = v.started;
      table = length-put_range m.block_v num (suc h.size) unused ∙ v.table;
      above_null = v.above_null;
      aligned = v.aligned;
      end = v.end;
      fits = v.fits;
      layout = h.given_back;
    },
  )
]

num-lt-length :
    {m : Memory} (blk : ℕ)
    → IsValid m
    → refuses m blk ≡ false
    → (blk - m.space) / blk_size < length m.block_v
num-lt-length {m} blk v e = omega (arith, refuses-range m blk e, v.end, v.table)

-- An address inside the managed space: nothing, or the region that its block heads.
free-accepted :
    {m : Memory} (blk : ℕ)
    → IsValid m
    → refuses m blk ≡ false
    → (m' : Memory) × (free blk m ≡ ok m') × IsValid m'
unfolding free
free-accepted {m} blk v e =
    let (b, at) = get_elem?-some m.block_v ((blk - m.space) / blk_size) (num-lt-length blk v e) in
    let (m', run, w) = release-IsValid ((blk - m.space) / blk_size) v at in
    (m', rw (e, load-get_elem? m.block_v ((blk - m.space) / blk_size) at) run, w)

-- From a valid state `free` returns, without an access outside the block table, and leaves a
-- valid state, whatever address it is given.
pub free-IsValid :
    {m : Memory} (blk : ℕ) → IsValid m → (m' : Memory) × (free blk m ≡ ok m') × IsValid m'
unfolding free
free-IsValid {m} blk v = elim (Bool-cases (refuses m blk)) [
  | inl e ↦ (m, rw e, v)
  | inr e ↦ free-accepted blk v e
]

mavail-Outcome :
    {m : Memory} (n : ℕ) {r : ℕ × Memory} (a a' : ℕ)
    → IsValid m
    → Outcome m (suc n) r
    → r.0 ≢ 0
    → mavail m ≡ ok a
    → mavail r.1 ≡ ok a'
    → a' + suc n * blk_size ≡ a
mavail-Outcome n a a' v (full none_free) ne e e' = absurd (ne refl)
mavail-Outcome {m} n a a' v (given base inside free_here first) ne e e' =
    let p = ok-injective _ a (sym (mavail-free_count v) ∙ e) in
    let q =
      ok-injective _ a' (sym (mavail-free_count (take_region-IsValid base n v free_here)) ∙ e') in
    omega (arith, p, q, free_count-take_range m.block_v base n free_here)

-- When `malloc` from a valid state, for a size that fits, gives a block, what `mavail` reports
-- falls by exactly the blocks of that size, in bytes.
pub mavail-malloc :
    {m : Memory} (size : ℕ) (r : ℕ × Memory) (a a' : ℕ)
    → IsValid m
    → Fits m size
    → malloc size m ≡ ok r
    → r.0 ≢ 0
    → mavail m ≡ ok a
    → mavail r.1 ≡ ok a'
    → a' + block_count size * blk_size ≡ a
mavail-malloc {m} size r a a' v f e ne p q =
    let (n, s, low, high) = block_count-suc size f.positive f.no_wrap in
    rw s (mavail-Outcome n a a' v (subst (λ k. Outcome m k r) s (malloc-inv size r v f e)) ne p q)
