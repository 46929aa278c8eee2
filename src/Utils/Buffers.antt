-- ===== src/Utils/Buffers.antt =====
-- `fill`, `ncopy` and `ncompare` of source/kernel/utils.c over an address space.
-- Addresses are natural numbers: no range that the kernel passes goes past the end of memory.
pub mod Laws
pub mod Ranges
use deputy_kernel.Base.{
  ℕ, zero, suc, ◌+◌, ◌/◌, ◌%◌, ◌^◌, true, false, List, [], ◌∷◌, ◌==◌, if◌then◌else◌, ℤ, pos,
  difference,
}

abbrev pub Bytes : Type 0
Bytes = ℕ → ℕ

-- The bytes of a range.
unfoldable pub range_bytes : Bytes → (addr n : ℕ) → List ℕ
range_bytes mem addr zero = []
range_bytes mem addr (suc n) = mem addr ∷ range_bytes mem (suc addr) n

-- `*p = v` for a byte.
abbrev pub poke : Bytes → ℕ → ℕ → Bytes
poke mem p v a = if a == p then v else mem a

-- The four bytes of a word, the lowest first, as they lie in memory.
unfoldable pub word_bytes : ℕ → List ℕ
word_bytes w = w % 2 ^ 8 ∷ w / 2 ^ 8 % 2 ^ 8 ∷ w / 2 ^ 16 % 2 ^ 8 ∷ w / 2 ^ 24 % 2 ^ 8 ∷ []

-- Bytes written one after the other.
unfoldable pub poke_all : List ℕ → ℕ → Bytes → Bytes
poke_all [] addr mem = mem
poke_all (b ∷ bs) addr mem = poke_all bs (suc addr) (poke mem addr b)

-- `for (i = 0; i < len; i++) point[i] = (uint8_t)chr`; the first argument counts the rounds left.
unfoldable pub fill_from : ℕ → ℕ → ℕ → Bytes → Bytes
fill_from zero p chr mem = mem
fill_from (suc n) p chr mem = fill_from n (suc p) chr (poke mem p (chr % 2 ^ 8))

unfoldable pub fill : ℕ → ℕ → ℕ → Bytes → Bytes
unfolding fill_from
fill ptr chr len mem = fill_from len ptr chr mem

-- `for (i = 0; i < len; i++) destination[i] = source[i]`.
unfoldable pub ncopy_from : ℕ → ℕ → ℕ → Bytes → Bytes
ncopy_from zero dest src mem = mem
ncopy_from (suc n) dest src mem = ncopy_from n (suc dest) (suc src) (poke mem dest (mem src))

unfoldable pub ncopy : ℕ → ℕ → ℕ → Bytes → Bytes
unfolding ncopy_from
ncopy dest src len mem = ncopy_from len dest src mem

-- The bytes are compared as `unsigned char`.
unfoldable pub ncompare_from : ℕ → ℕ → ℕ → Bytes → ℤ
ncompare_from zero p1 p2 mem = pos 0
ncompare_from (suc n) p1 p2 mem = elim (mem p1 == mem p2) [
  | true ↦ ncompare_from n (suc p1) (suc p2) mem
  | false ↦ difference (mem p1) (mem p2)
]

unfoldable pub ncompare : ℕ → ℕ → ℕ → Bytes → ℤ
unfolding ncompare_from
ncompare ptr1 ptr2 len mem = ncompare_from len ptr1 ptr2 mem
