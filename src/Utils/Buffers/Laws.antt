-- ===== src/Utils/Buffers/Laws.antt =====
-- What `fill`, `ncopy` and `ncompare` leave behind, address by address.
use deputy_kernel.Base.{
  ℕ, zero, suc, ◌+◌, ◌%◌, ◌^◌, ◌<◌, ◌≤◌, ◌≡◌, refl, ◌⊎◌, ◌&&◌, arith, ltb, leb, if◌then◌else◌, pos,
  ◌↔◌, ℕ_discrete,
}
use deputy_kernel.Utils.Buffers.{
  Bytes, poke, fill, fill_from, ncopy, ncopy_from, ncompare, ncompare_from,
}

fill_from-at :
    (n p chr : ℕ) (mem : Bytes) (a : ℕ)
    → fill_from n p chr mem a ≡ (if leb p a && ltb a (p + n) then chr % 2 ^ 8 else mem a)
unfolding fill_from
fill_from-at zero p chr mem a = ground arith
fill_from-at (suc n) p chr mem a =
    ground (arith, fill_from-at n (suc p) chr (poke mem p (chr % 2 ^ 8)) a)

-- `fill` writes the byte at exactly the `len` addresses from `ptr` on.
pub fill-at :
    (ptr chr len : ℕ) (mem : Bytes) (a : ℕ)
    → fill ptr chr len mem a ≡ (if leb ptr a && ltb a (ptr + len) then chr % 2 ^ 8 else mem a)
unfolding fill
fill-at ptr chr len mem a = fill_from-at len ptr chr mem a

ncopy_from-outside :
    (n dest src : ℕ) (mem : Bytes) (a : ℕ)
    → (a < dest) ⊎ (dest + n ≤ a)
    → ncopy_from n dest src mem a ≡ mem a
unfolding ncopy_from
ncopy_from-outside zero dest src mem a h = refl
ncopy_from-outside (suc n) dest src mem a h =
    ground (arith, ncopy_from-outside n (suc dest) (suc src) (poke mem dest (mem src)) a)

-- Nothing outside the destination changes.
pub ncopy-outside :
    (dest src len : ℕ) (mem : Bytes) (a : ℕ)
    → (a < dest) ⊎ (dest + len ≤ a)
    → ncopy dest src len mem a ≡ mem a
unfolding ncopy
ncopy-outside dest src len mem a h = ncopy_from-outside len dest src mem a h

ncopy_from-copied :
    (n dest src : ℕ) (mem : Bytes) (k i : ℕ)
    → i < k
    → k ≤ n
    → (dest ≤ src) ⊎ (src + k ≤ dest)
    → ncopy_from n dest src mem (dest + i) ≡ mem (src + i)
unfolding ncopy_from
ncopy_from-copied zero dest src mem k i h b apart = absurd (omega arith)
ncopy_from-copied (suc n) dest src mem k zero h b apart =
    ground (arith, ncopy_from-outside n (suc dest) (suc src) (poke mem dest (mem src)) (dest + 0))
ncopy_from-copied (suc n) dest src mem (suc k) (suc i) h b apart =
    ground (arith, ncopy_from-copied n (suc dest) (suc src) (poke mem dest (mem src)) k i)
ncopy_from-copied (suc n) dest src mem zero (suc i) h b apart = absurd (omega arith)

-- `ncopy` moves the first `k` bytes unharmed whenever the destination does not begin inside them.
pub ncopy-copied :
    (dest src len : ℕ) (mem : Bytes) (k i : ℕ)
    → i < k
    → k ≤ len
    → (dest ≤ src) ⊎ (src + k ≤ dest)
    → ncopy dest src len mem (dest + i) ≡ mem (src + i)
unfolding ncopy
ncopy-copied dest src len mem k i h b apart = ncopy_from-copied len dest src mem k i h b apart

ncompare_from-zero :
    (n p1 p2 : ℕ) (mem : Bytes)
    → (ncompare_from n p1 p2 mem ≡ pos 0) ↔ ((i : ℕ) → i < n → mem (p1 + i) ≡ mem (p2 + i))
unfolding ncompare_from
ncompare_from-zero zero p1 p2 mem = (λ e i h. absurd (omega arith), λ h. refl)
ncompare_from-zero (suc n) p1 p2 mem =
    let (to, from) = ncompare_from-zero n (suc p1) (suc p2) mem in
    elim (ℕ_discrete (mem p1) (mem p2)) [
      | yes e ↦ (
        λ r. all n p1 p2 mem e (to (ground arith)),
        λ h. ground (arith, from (λ i k. shift p1 p2 mem i (h (suc i) (omega arith)))),
      )
      | no ne ↦ (λ r. absurd (ground arith), λ h. absurd (ne (first p1 p2 mem (h 0 (omega arith)))))
    ]
  where
    first : (p1 p2 : ℕ) (mem : Bytes) → mem (p1 + 0) ≡ mem (p2 + 0) → mem p1 ≡ mem p2
    first p1 p2 mem h =
        let a : p1 ≡ p1 + 0 = omega arith in let b : p2 ≡ p2 + 0 = omega arith in rw (a, b) h

    shift :
        (p1 p2 : ℕ) (mem : Bytes) (i : ℕ)
        → mem (p1 + suc i) ≡ mem (p2 + suc i)
        → mem (suc p1 + i) ≡ mem (suc p2 + i)
    shift p1 p2 mem i h =
        let a : suc p1 + i ≡ p1 + suc i = omega arith in
        let b : suc p2 + i ≡ p2 + suc i = omega arith in rw (a, b) h

    all :
        (n p1 p2 : ℕ) (mem : Bytes)
        → mem p1 ≡ mem p2
        → ((i : ℕ) → i < n → mem (suc p1 + i) ≡ mem (suc p2 + i))
        → (i : ℕ) → i < suc n
        → mem (p1 + i) ≡ mem (p2 + i)
    all n p1 p2 mem e h zero k =
        let a : p1 + 0 ≡ p1 = omega arith in let b : p2 + 0 ≡ p2 = omega arith in rw (a, b) e
    all n p1 p2 mem e h (suc i) k =
        let a : p1 + suc i ≡ suc p1 + i = omega arith in
        let b : p2 + suc i ≡ suc p2 + i = omega arith in rw (a, b) (h i (omega arith))

-- `ncompare` gives 0 exactly if the two ranges hold the same bytes.
pub ncompare-zero :
    (ptr1 ptr2 len : ℕ) (mem : Bytes)
    → (ncompare ptr1 ptr2 len mem ≡ pos 0) ↔ ((i : ℕ) → i < len → mem (ptr1 + i) ≡ mem (ptr2 + i))
unfolding ncompare
ncompare-zero ptr1 ptr2 len mem = ncompare_from-zero len ptr1 ptr2 mem
