-- ===== src/Multitask/Exec/Image.antt =====
-- Where `exec` writes: the segments of a program and the block that is allocated for them.
use deputy_kernel.Base.{ℕ, zero, suc, ◌+◌, ◌-◌, ◌%◌, ◌^◌, ◌<◌, ◌≤◌, ◌≡◌, arith, ℕ_discrete}
use deputy_kernel.Memory.{blk_size}
use deputy_kernel.Utils.Buffers.{Bytes}
use deputy_kernel.Multitask.Exec.{
  Segment, ElfHeader, pt_load, sizeof_ph, segment_at, low_with, high_with, bounds_from,
  image_bounds,
}

-- A segment to load is not longer in the file than in memory, and its end, rounded up to a block,
-- does not wrap.
pub record Sound (s : Segment) : Type 0 where
  pub shorter : s.filesz ≤ s.memsz
  pub no_wrap : s.vaddr + s.memsz + blk_size ≤ 2 ^ 32

-- It lies between the bounds.
pub record Placed (low high : ℕ) (s : Segment) : Type 0 where
  pub short : s.filesz ≤ s.memsz
  pub from : low ≤ s.vaddr
  pub to : s.vaddr + s.memsz ≤ high

-- Each of `n` headers, from `ph` on, that is of a segment to load.
abbrev pub Each : (Segment → Type 0) → Bytes → (n ph : ℕ) → Type 0
Each P mem zero ph = Unit
Each P mem (suc n) ph =
    ((segment_at mem ph).kind ≡ pt_load → P (segment_at mem ph)) × Each P mem n (ph + sizeof_ph)

low_with-le : (s : Segment) (low : ℕ) → low_with s low ≤ low
unfolding low_with
low_with-le s low = ground arith

le-high_with : (s : Segment) (high : ℕ) → high ≤ high_with s high
unfolding high_with
le-high_with s high = ground arith

bounds_from-wider :
    (mem : Bytes) (n ph low high : ℕ)
    → ((bounds_from mem n ph low high).0 ≤ low) × (high ≤ (bounds_from mem n ph low high).1)
unfolding bounds_from
bounds_from-wider mem zero ph low high = (omega arith, omega arith)
bounds_from-wider mem (suc n) ph low high =
    let s = segment_at mem ph in
    let r = bounds_from-wider mem n (ph + sizeof_ph) (low_with s low) (high_with s high) in
    (omega (arith, r.0, low_with-le s low), omega (arith, r.1, le-high_with s high))

one-Placed :
    (s : Segment) (low high b t : ℕ)
    → Sound s
    → s.kind ≡ pt_load
    → b ≤ low_with s low
    → high_with s high ≤ t
    → Placed b t s
unfolding low_with high_with
one-Placed s low high b t h k hb ht = record {
  short = h.shorter;
  from = ground (arith, h.no_wrap);
  to = ground (arith, h.no_wrap);
}

bounds_from-Each :
    (mem : Bytes) (n ph low high b t : ℕ)
    → Each Sound mem n ph
    → b ≤ (bounds_from mem n ph low high).0
    → (bounds_from mem n ph low high).1 ≤ t
    → Each (Placed b t) mem n ph
unfolding bounds_from
bounds_from-Each mem zero ph low high b t h hb ht = tt
bounds_from-Each mem (suc n) ph low high b t h hb ht =
    let s = segment_at mem ph in
    let r = bounds_from-wider mem n (ph + sizeof_ph) (low_with s low) (high_with s high) in
    (
      λ k. one-Placed s low high b t (h.0 k) k (omega (arith, r.0)) (omega (arith, r.1)),
      bounds_from-Each mem n (ph + sizeof_ph) (low_with s low) (high_with s high) b t h.1 hb ht,
    )

one_below :
    (s : Segment) (high : ℕ)
    → (s.kind ≡ pt_load → Sound s)
    → high + blk_size ≤ 2 ^ 32
    → high_with s high + blk_size ≤ 2 ^ 32
unfolding high_with
one_below s high h b = elim (ℕ_discrete s.kind pt_load) [
  | yes e ↦ let w = (h e).no_wrap in ground arith
  | no ne ↦ ground arith
]

bounds_from-below :
    (mem : Bytes) (n ph low high : ℕ)
    → Each Sound mem n ph
    → high + blk_size ≤ 2 ^ 32
    → (bounds_from mem n ph low high).1 + blk_size ≤ 2 ^ 32
unfolding bounds_from
bounds_from-below mem zero ph low high h b = b
bounds_from-below mem (suc n) ph low high h b =
    let s = segment_at mem ph in
    bounds_from-below mem n (ph + sizeof_ph) (low_with s low) (high_with s high) h.1
      (one_below s high h.0 b)

-- The bounds of the image take in every segment that is loaded.
pub image_bounds-Each :
    (mem : Bytes) (image : ℕ) (eh : ElfHeader)
    → Each Sound mem eh.phnum ((image + eh.phoff) % 2 ^ 32)
    → Each
        (Placed (image_bounds mem image eh).0 (image_bounds mem image eh).1)
        mem
        eh.phnum
        ((image + eh.phoff) % 2 ^ 32)
unfolding image_bounds
image_bounds-Each mem image eh h =
    let ph = (image + eh.phoff) % 2 ^ 32 in
    let w = bounds_from-below mem eh.phnum ph (2 ^ 32 - 1) 0 h (omega arith) in
    bounds_from-Each mem eh.phnum ph (2 ^ 32 - 1) 0 _ _ h (omega arith) (omega (arith, w))

pub image_bounds-lt :
    (mem : Bytes) (image : ℕ) (eh : ElfHeader) → (image_bounds mem image eh).1 < 2 ^ 32
unfolding image_bounds
image_bounds-lt mem image eh = omega arith
