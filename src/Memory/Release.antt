-- ===== src/Memory/Release.antt =====
-- Giving a region back, and counting the free blocks.
use deputy_kernel.Base.{
  ℕ, zero, suc, ◌+◌, ◌≤◌, ◌≡◌, refl, ap, ◌∙◌, ◌⊎◌, inl, inr, true, List, [], ◌∷◌, ◌++◌, some, arith,
  length, get_elem?, set, replicate, get_elem?-set_self, ◌<◌, length-append, length-replicate,
}
use deputy_kernel.Memory.{Block, unused, inner, owner}
use deputy_kernel.Memory.Layout.{Layout, done, skip, region, take_range, behind}
use deputy_kernel.Memory.Table.{
  window_free, put_range, put_range-put_range, length-put_range, free_count,
}

put_range-replicate :
    (n : ℕ) (v : List Block) (a b : Block)
    → put_range (replicate n a ++ v) 0 n b ≡ replicate n b ++ v
unfolding put_range
put_range-replicate zero [] a b = refl
put_range-replicate zero (x ∷ v) a b = refl
put_range-replicate (suc n) v a b = ap (λ t. b ∷ t) (put_range-replicate n v a b)

skips : (n : ℕ) {v : List Block} → Layout v → Layout (replicate n unused ++ v)
skips zero l = l
skips (suc n) l = skip (skips n l)

-- A block whose count is not 0 heads a region that lies in the table and can be given back.
pub record Head (v : List Block) (k : ℕ) (b : Block) : Type 0 where
  pub size : ℕ
  pub is_owner : b ≡ owner (suc size)
  pub inside : k + suc size ≤ length v
  pub given_back : Layout (put_range v k (suc size) unused)

-- An entry behind the inner blocks of a region, or one of those.
record Past (n : ℕ) (v : List Block) (k : ℕ) (b : Block) : Type 0 where
  offset : ℕ
  index : k ≡ n + offset
  found : get_elem? v offset ≡ some b
  put :
      (m : ℕ) (x : Block)
      → put_range (replicate n inner ++ v) k m x ≡ replicate n inner ++ put_range v offset m x

past :
    (n : ℕ) (v : List Block) (k : ℕ) (b : Block)
    → get_elem? (replicate n inner ++ v) k ≡ some b
    → (b.count ≡ 0) ⊎ Past n v k b
unfolding put_range
past zero v k b e = inr (record { offset = k; index = omega arith; found = e; put = λ m x. refl })
past (suc n) v zero b e = inl (ground arith)
past (suc n) v (suc k) b e = elim (past n v k b e) [
  | inl z ↦ inl z
  | inr p ↦ inr (record {
    offset = p.offset;
    index = omega (arith, p.index);
    found = p.found;
    put = λ m x. ap (λ t. inner ∷ t) (p.put m x);
  })
]

Head-skip : {v : List Block} {k : ℕ} {b : Block} → Head v k b → Head (unused ∷ v) (suc k) b
unfolding put_range
Head-skip h = record {
  size = h.size;
  is_owner = h.is_owner;
  inside = omega (arith, h.inside);
  given_back = skip h.given_back;
}

Head-region :
    (n : ℕ) {v : List Block} {k : ℕ} {b : Block}
    → (p : Past n v k b) → Head v p.offset b
    → Head (owner (suc n) ∷ replicate n inner ++ v) (suc k) b
unfolding put_range
Head-region n {v} p h = record {
  size = h.size;
  is_owner = h.is_owner;
  inside =
      omega
        (arith, h.inside, p.index, length-append (replicate n inner) v, length-replicate n inner);
  given_back = rw (p.put (suc h.size) unused) (region n h.given_back);
}

-- Every entry of the table has count 0 or heads a region.
pub count-Head :
    {v : List Block} (k : ℕ) {b : Block}
    → Layout v
    → get_elem? v k ≡ some b
    → (b.count ≡ 0) ⊎ Head v k b
unfolding put_range
count-Head k done e = absurd (cc)
count-Head zero (skip l) e = inl (ground arith)
count-Head (suc k) (skip {v} l) e = elim (count-Head k l e) [
  | inl z ↦ inl z
  | inr h ↦ inr (Head-skip h)
]
count-Head zero (region n {v} l) e = inr (record {
  size = n;
  is_owner = ground arith;
  inside = omega (arith, length-append (replicate n inner) v, length-replicate n inner);
  given_back = rw (put_range-replicate n v inner unused) (skip (skips n l));
})
count-Head (suc k) {b} (region n {v} l) e = elim (past n v k b e) [
  | inl z ↦ inl z
  | inr p ↦ elim (count-Head p.offset l p.found) [ inl z ↦ inl z | inr h ↦ inr (Head-region n p h) ]
]

put_range-zero : (v : List Block) (k : ℕ) (b : Block) → put_range v k zero b ≡ v
unfolding put_range
put_range-zero [] k b = refl
put_range-zero (a ∷ v) zero b = refl
put_range-zero (a ∷ v) (suc k) b = ap (λ t. a ∷ t) (put_range-zero v k b)

put_range-unused :
    {v : List Block} (k n : ℕ) → Layout v → window_free v k n ≡ true → put_range v k n unused ≡ v
unfolding put_range window_free
put_range-unused {v} k zero l h = put_range-zero v k unused
put_range-unused k (suc n) done h = refl
put_range-unused zero (suc n) (skip l) h = ap (λ t. unused ∷ t) (put_range-unused zero n l h)
put_range-unused (suc k) (suc n) (skip l) h = ap (λ t. unused ∷ t) (put_range-unused k (suc n) l h)
put_range-unused zero (suc m) (region n l) h = absurd (cc)
put_range-unused (suc k) (suc m) (region n {v} l) h =
    let b = behind n v k m h in
    ap (λ t. owner (suc n) ∷ t)
      (b.put unused ∙ ap (λ t. replicate n inner ++ t) (put_range-unused b.offset (suc m) l b.free))

put_range-set :
    (v : List Block) (k n : ℕ) (a b : Block)
    → put_range (set v k a) k (suc n) b ≡ put_range v k (suc n) b
unfolding put_range
put_range-set [] k n a b = refl
put_range-set (x ∷ v) zero n a b = refl
put_range-set (x ∷ v) (suc k) n a b = ap (λ t. x ∷ t) (put_range-set v k n a b)

-- Giving a region back just after it was taken restores the table.
pub put_range-take_range :
    {v : List Block} (k n : ℕ)
    → Layout v
    → window_free v k (suc n) ≡ true
    → put_range (take_range v k (suc n)) k (suc n) unused ≡ v
unfolding take_range
put_range-take_range {v} k n l h =
    put_range-set (put_range v k (suc n) inner) k n (owner (suc n)) unused
    ∙ put_range-put_range v k (suc n) inner unused
    ∙ put_range-unused k (suc n) l h

-- The first entry of a region that was just taken.
pub get_elem?-take_range :
    (v : List Block) (k n : ℕ) → k < length v → get_elem? (take_range v k n) k ≡ some (owner n)
unfolding take_range
get_elem?-take_range v k n h =
    get_elem?-set_self (put_range v k n inner) k (owner n)
      (omega (arith, length-put_range v k n inner))

free_count-put_range :
    (v : List Block) (k n : ℕ)
    → window_free v k n ≡ true
    → free_count (put_range v k n inner) + n ≡ free_count v
unfolding put_range window_free free_count
free_count-put_range [] k zero h = refl
free_count-put_range [] k (suc n) h = absurd (cc)
free_count-put_range (b ∷ v) zero zero h = omega arith
free_count-put_range (b ∷ v) zero (suc n) h = ground (arith, free_count-put_range v zero n)
free_count-put_range (b ∷ v) (suc k) n h = ground (arith, free_count-put_range v k n h)

-- Taking a region lowers the number of free blocks by its size.
pub free_count-take_range :
    (v : List Block) (k n : ℕ)
    → window_free v k (suc n) ≡ true
    → free_count (take_range v k (suc n)) + suc n ≡ free_count v
unfolding take_range put_range window_free free_count
free_count-take_range [] k n h = absurd (cc)
free_count-take_range (b ∷ v) zero n h = ground (arith, free_count-put_range v zero n)
free_count-take_range (b ∷ v) (suc k) n h = ground (arith, free_count-take_range v k n h)
