-- ===== src/Tarfs/Offsets.antt =====
-- The walk of `tarfs_list` over the headers of an archive.
use deputy_kernel.Base.{
  ℕ, zero, suc, ◌+◌, ◌-◌, ◌*◌, ◌/◌, ◌%◌, ◌^◌, ◌<◌, ◌≤◌, ◌≡◌, ◌≢◌, refl, ◌∙◌, ◌⊎◌, inl, inr, arith,
  true, false, some, List, [], ◌∷◌, ◌++◌, length, ok, Bool-cases,
}
use deputy_kernel.Utils.Buffers.{Bytes, range_bytes}
use deputy_kernel.Utils.Numbers.{char_word, oct2bin_from, oct2bin}
use deputy_kernel.Utils.Numbers.Octal.{octal_digits, oct2bin_from-digits}
use deputy_kernel.Tarfs.{has_magic, advance, entry_size, list_from, tarfs_list}

-- "ustar"
abbrev pub ustar : List ℕ
ustar = 117 ∷ 115 ∷ 116 ∷ 97 ∷ 114 ∷ []

-- A header at `a`: the magic value, and a size field of the eleven octal digits of `v` and the
-- byte `t`, which is a NUL in an archive as the standard has it.
pub record IsHeader (mem : Bytes) (a v t : ℕ) : Type 0 where
  pub magic : range_bytes mem (a + 257) 5 ≡ ustar
  pub size : range_bytes mem (a + 124) 12 ≡ octal_digits 11 v ++ t ∷ []
  pub small : v < 2 ^ 28 - 16
  pub byte : t < 128

-- From one header to the next, as the code goes: a block, and the blocks for what the twelve bytes
-- are worth as octal digits. That is `8 * v - 48` with a NUL.
abbrev pub stride : (v t : ℕ) → ℕ
stride v t = 512 + (8 * v + t - 48 + 511) / 512 * 512

-- From `ofs` on there are headers with these sizes, each a stride after the last, and then none.
pub data Archive (mem : Bytes) (base size : ℕ) : (ofs : ℕ) → List (ℕ × ℕ) → Type 0 where
  over :
      (ofs : ℕ)
      → (range_bytes mem (base + ofs + 257) 5 ≢ ustar) ⊎ (size ≤ ofs)
      → Archive mem base size ofs []
  entry :
      (ofs v t : ℕ) {es : List (ℕ × ℕ)}
      → IsHeader mem (base + ofs) v t
      → ofs < size
      → ofs + stride v t < 2 ^ 32
      → Archive mem base size (ofs + stride v t) es
      → Archive mem base size ofs ((v, t) ∷ es)

-- Where each entry begins.
abbrev pub offsets : ℕ → List (ℕ × ℕ) → List ℕ
offsets ofs [] = []
offsets ofs ((v, t) ∷ es) = ofs ∷ offsets (ofs + stride v t) es

has_magic-true :
    (mem : Bytes) (a : ℕ) → range_bytes mem (a + 257) 5 ≡ ustar → has_magic mem a ≡ true
unfolding has_magic range_bytes
has_magic-true mem a e = ground (arith, e)

has_magic-false :
    (mem : Bytes) (a : ℕ) → range_bytes mem (a + 257) 5 ≢ ustar → has_magic mem a ≡ false
unfolding has_magic range_bytes
has_magic-false mem a ne = elim (Bool-cases (has_magic mem a)) [
  | inr h ↦ h
  | inl h ↦
      let e1 : mem (a + 257) ≡ 117 = ground (arith, h) in
      let e2 : mem (suc (a + 257)) ≡ 115 = ground (arith, h) in
      let e3 : mem (suc (suc (a + 257))) ≡ 116 = ground (arith, h) in
      let e4 : mem (suc (suc (suc (a + 257)))) ≡ 97 = ground (arith, h) in
      let e5 : mem (suc (suc (suc (suc (a + 257))))) ≡ 114 = ground (arith, h) in
      absurd (ne (rw (e1, e2, e3, e4, e5) refl))
]

-- What the code makes of the field.
worth : (v t : ℕ) → ℕ
worth v t = (v * 8 + char_word t + (2 ^ 32 - 48)) % 2 ^ 32

entry_size-worth :
    (mem : Bytes) (a v t : ℕ) → IsHeader mem a v t → entry_size mem 12 a ≡ ok (worth v t)
unfolding entry_size oct2bin worth oct2bin_from
entry_size-worth mem a v t h =
    rw (h.size)
      (oct2bin_from-digits 11 1 v (t ∷ []) (omega (arith, h.small)) (omega (arith, h.small)) ∙ refl)

advance-stride :
    (ofs v t : ℕ)
    → v < 2 ^ 28 - 16
    → t < 128
    → ofs + stride v t < 2 ^ 32
    → (ofs + advance (worth v t)) % 2 ^ 32 ≡ ofs + stride v t
unfolding advance worth
advance-stride ofs v t h k b = ground arith

list_from-Archive :
    (mem : Bytes) (base size fuel ofs : ℕ) (es : List (ℕ × ℕ))
    → Archive mem base size ofs es
    → length es < fuel
    → list_from mem base size fuel ofs ≡ ok (some (offsets ofs es))
unfolding list_from
list_from-Archive mem base size zero ofs es a h = absurd (omega arith)
list_from-Archive mem base size (suc n) ofs es (over _ (inl e)) h =
    rw (has_magic-false mem (base + ofs) e) refl
list_from-Archive mem base size (suc n) ofs es (over _ (inr e)) h = ground (arith, e)
list_from-Archive mem base size (suc n) ofs es (entry _ v t {es = es'} head low fits rest) h =
    ground (
      arith,
      low,
      has_magic-true mem (base + ofs) head.magic,
      entry_size-worth mem (base + ofs) v t head,
      advance-stride ofs v t head.small head.byte fits,
      list_from-Archive mem base size n (ofs + stride v t) es' rest,
    )

-- On an archive of headers, each with the magic value and a size field of eleven octal digits of
-- a number `v` below 2 ^ 28 - 16 and a last byte `t` below 128, that end by 2 ^ 32: `tarfs_list`
-- ends if it has more fuel than there are entries, and has gone from each header by a block and
-- the blocks that 8 * v + t - 48 bytes take. With a NUL for `t` that is 8 * v - 48, where the
-- content has v bytes.
pub tarfs_list-Archive :
    (mem : Bytes) (base size fuel : ℕ) (es : List (ℕ × ℕ))
    → Archive mem base size 0 es
    → length es < fuel
    → tarfs_list mem base size fuel ≡ ok (some (offsets 0 es))
unfolding tarfs_list
tarfs_list-Archive mem base size fuel es a h = list_from-Archive mem base size fuel 0 es a h
