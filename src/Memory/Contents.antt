-- ===== src/Memory/Contents.antt =====
-- What the blocks of `calloc` and `realloc` hold.
use deputy_kernel.Base.{
  ℕ, suc, ◌+◌, ◌*◌, ◌%◌, ◌^◌, ◌≤◌, ◌<◌, ◌≡◌, refl, subst, ◌∙◌, ◌≢◌, ◌⊎◌, inl, inr, false, arith, ok,
  ltb, leb, ◌&&◌, if◌then◌else◌,
}
use deputy_kernel.Memory.{Memory, block_count, malloc, calloc, realloc, free, refuses, release}
use deputy_kernel.Memory.Malloc.{IsValid, Fits, Outcome, full, given, block_count-suc}
use deputy_kernel.Memory.Lifecycle.{free-IsValid, malloc-IsValid, malloc-inv}
use deputy_kernel.Memory.Disjoint.{malloc-malloc}
use deputy_kernel.Utils.Buffers.{fill, ncopy}
use deputy_kernel.Utils.Buffers.Laws.{fill-at, ncopy-copied}

pub Outcome-bytes :
    {m : Memory} (n : ℕ) {r : ℕ × Memory} (a : ℕ) → Outcome m n r → r.1.bytes a ≡ m.bytes a
Outcome-bytes n a (full none_free) = refl
Outcome-bytes n a (given base inside free_here first) = refl

-- `calloc` from a valid state, of a product that fits, where a `malloc` of the product finds a
-- block: it returns that block and the table that `malloc` leaves, with 0 in the block's bytes
-- and every other byte as before.
pub calloc-zero :
    {m : Memory} (nmemb size : ℕ) (s : ℕ × Memory)
    → IsValid m
    → Fits m (nmemb * size)
    → malloc (nmemb * size) m ≡ ok s
    → s.0 ≢ 0
    → (m' : Memory) × (calloc nmemb size m ≡ ok (s.0, m'))
      × (m'.block_v ≡ s.1.block_v)
      × ((a : ℕ) → m'.bytes a ≡ (if leb s.0 a && ltb a (s.0 + nmemb * size) then 0 else m.bytes a))
unfolding calloc
calloc-zero {m} nmemb size (blk, m') v f e ne =
    let n = nmemb * size in
    let wrap : n % 2 ^ 32 ≡ n = omega (arith, f.no_wrap) in
    (
      record m' { bytes = fill blk 0 n m'.bytes },
      ground (arith, wrap, v.started, f.no_wrap),
      refl,
      λ a.
          ground
            (arith, fill-at blk 0 n m'.bytes a, Outcome-bytes _ a (malloc-inv n (blk, m') v f e)),
    )

release-bytes :
    (m : Memory) (num count : ℕ) (m' : Memory) (a : ℕ)
    → release m num count ≡ ok m'
    → m'.bytes a ≡ m.bytes a
unfolding release
release-bytes m num count m' a e = ground arith

-- `free` writes to the block table alone.
free-bytes :
    (m : Memory) (blk : ℕ) (m' : Memory) (a : ℕ) → free blk m ≡ ok m' → m'.bytes a ≡ m.bytes a
unfolding free
free-bytes m blk m' a e = grind (arith, release-bytes)

Outcome-accepted :
    {m : Memory} (n : ℕ) {r : ℕ × Memory}
    → IsValid m
    → Outcome m (suc n) r
    → r.0 ≢ 0
    → refuses r.1 r.0 ≡ false
unfolding refuses
Outcome-accepted n v (full none_free) ne = absurd (ne refl)
Outcome-accepted n v (given base inside free_here first) ne =
    ground (arith, v.started, v.above_null, v.end, inside)

copied : Memory → (dest src len : ℕ) → Memory
copied m dest src len = record m { bytes = ncopy dest src len m.bytes }

copied-IsValid : {m : Memory} (dest src len : ℕ) → IsValid m → IsValid (copied m dest src len)
unfolding copied
copied-IsValid dest src len v = record {
  started = v.started;
  table = v.table;
  above_null = v.above_null;
  aligned = v.aligned;
  end = v.end;
  fits = v.fits;
  layout = v.layout;
}

realloc-copied :
    (m : Memory) (blk size : ℕ) (s : ℕ × Memory) (m' : Memory)
    → refuses m blk ≡ false
    → malloc size m ≡ ok s
    → s.0 ≢ 0
    → free blk (copied s.1 s.0 blk size) ≡ ok m'
    → realloc blk size m ≡ ok (s.0, m')
unfolding realloc copied
realloc-copied m blk size s m' accepted e ne e' = ground arith

nearer :
    {a b : ℕ} (i old size : ℕ)
    → (a + old ≤ b) ⊎ (b + size ≤ a)
    → i < old
    → (a + suc i ≤ b) ⊎ (b ≤ a)
nearer i old size (inl p) h = inl (omega arith)
nearer i old size (inr p) h = inr (omega arith)

copied-bytes :
    (m : Memory) (dest src len i : ℕ)
    → i < len
    → (src + suc i ≤ dest) ⊎ (dest ≤ src)
    → (copied m dest src len).bytes (dest + i) ≡ m.bytes (src + i)
unfolding copied
copied-bytes m dest src len i h (inl p) =
    ncopy-copied dest src len m.bytes (suc i) i (omega arith) h (inr p)
copied-bytes m dest src len i h (inr p) =
    ncopy-copied dest src len m.bytes (suc i) i (omega arith) h (inl p)

-- `realloc` of a block that `malloc` gave from a valid state, both sizes fitting, where a
-- `malloc` of the new size finds a block: it returns that block with the bytes that both sizes
-- have, and a valid state.
pub realloc-malloc :
    {m : Memory} (old size : ℕ) (r s : ℕ × Memory)
    → IsValid m
    → Fits m old
    → Fits r.1 size
    → malloc old m ≡ ok r
    → r.0 ≢ 0
    → malloc size r.1 ≡ ok s
    → s.0 ≢ 0
    → (m' : Memory) × (realloc r.0 size r.1 ≡ ok (s.0, m'))
      × IsValid m'
      × ((i : ℕ) → i < old → i < size → m'.bytes (s.0 + i) ≡ r.1.bytes (r.0 + i))
realloc-malloc {m} old size r s v f g e ne e' ne' =
    let (n, q, low, high) = block_count-suc old f.positive f.no_wrap in
    let accepted =
      Outcome-accepted n v (subst (λ k. Outcome m k r) q (malloc-inv old r v f e)) ne in
    let w = malloc-IsValid old r v f.no_wrap e in
    let w' = malloc-IsValid size s w g.no_wrap e' in
    let (m', run, w'') = free-IsValid r.0 (copied-IsValid s.0 r.0 size w') in
    (
      m',
      realloc-copied r.1 r.0 size s m' accepted e' ne' run,
      w'',
      λ i h k.
          free-bytes (copied s.1 s.0 r.0 size) r.0 m' (s.0 + i) run
          ∙ copied-bytes s.1 s.0 r.0 size i k
              (nearer i old size (malloc-malloc old size r s v f g e e' ne ne') h)
          ∙ Outcome-bytes (block_count size) (r.0 + i) (malloc-inv size s w g e'),
    )
