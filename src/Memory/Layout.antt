-- ===== src/Memory/Layout.antt =====
-- The shape that the block table always has: free blocks, and regions whose first block holds the
-- number of blocks and whose others hold 0.
use deputy_kernel.Base.{ℕ, zero, suc, ◌≡◌, refl, ap, true, List, [], ◌∷◌, ◌++◌, set, replicate}
use deputy_kernel.Memory.{Block, unused, inner, owner}
use deputy_kernel.Memory.Table.{window_free, put_range}

pub data Layout : List Block → Type 0 where
  done : Layout []
  skip : {v : List Block} → Layout v → Layout (unused ∷ v)
  region : (n : ℕ) {v : List Block} → Layout v → Layout (owner (suc n) ∷ replicate n inner ++ v)

pub replicate-Layout : (n : ℕ) → Layout (replicate n unused)
replicate-Layout zero = done
replicate-Layout (suc n) = skip (replicate-Layout n)

-- The table after `malloc` has marked the region of `suc n` blocks at `k`.
unfoldable pub take_range : List Block → ℕ → ℕ → List Block
take_range v k n = set (put_range v k n inner) k (owner n)

-- A free window at the front is cut off.
record Cut (v : List Block) (n : ℕ) : Type 0 where
  rest : List Block
  layout : Layout rest
  filled : (b : Block) → put_range v zero n b ≡ replicate n b ++ rest

cut : {v : List Block} (n : ℕ) → Layout v → window_free v zero n ≡ true → Cut v n
unfolding window_free put_range
cut zero done h = record { rest = []; layout = done; filled = λ b. refl }
cut (suc n) done h = absurd (cc)
cut zero (skip {v} l) h = record { rest = unused ∷ v; layout = skip l; filled = λ b. refl }
cut (suc n) (skip {v} l) h =
    let c = cut n l h in
    record { rest = c.rest; layout = c.layout; filled = λ b. ap (λ t. b ∷ t) (c.filled b) }
cut zero (region n {v} l) h = record { rest = _; layout = region n l; filled = λ b. refl }
cut (suc m) (region n l) h = absurd (cc)

-- The window lies behind the inner blocks of a region, never among them.
pub record Behind (n : ℕ) (v : List Block) (k m : ℕ) : Type 0 where
  pub offset : ℕ
  pub free : window_free v offset (suc m) ≡ true
  pub taken :
      take_range (replicate n inner ++ v) k (suc m)
      ≡ replicate n inner ++ take_range v offset (suc m)
  pub put :
      (b : Block)
      → put_range (replicate n inner ++ v) k (suc m) b
        ≡ replicate n inner ++ put_range v offset (suc m) b

pub behind :
    (n : ℕ) (v : List Block) (k m : ℕ)
    → window_free (replicate n inner ++ v) k (suc m) ≡ true
    → Behind n v k m
unfolding window_free put_range take_range
behind zero v k m h = record { offset = k; free = h; taken = refl; put = λ b. refl }
behind (suc n) v zero m h = absurd (cc)
behind (suc n) v (suc k) m h =
    let b = behind n v k m h in
    record {
      offset = b.offset;
      free = b.free;
      taken = ap (λ t. inner ∷ t) b.taken;
      put = λ x. ap (λ t. inner ∷ t) (b.put x);
    }

-- Marking a free window leaves a table of this shape.
pub take_range-Layout :
    {v : List Block} (k n : ℕ)
    → Layout v
    → window_free v k (suc n) ≡ true
    → Layout (take_range v k (suc n))
unfolding window_free put_range take_range
take_range-Layout k n done h = absurd (cc)
take_range-Layout zero n (skip l) h = let c = cut n l h in rw (c.filled inner) (region n c.layout)
take_range-Layout (suc k) n (skip l) h = skip (take_range-Layout k n l h)
take_range-Layout zero n (region m l) h = absurd (cc)
take_range-Layout (suc k) n (region m {v} l) h =
    let b = behind m v k n h in rw b.taken (region m (take_range-Layout b.offset n l b.free))
