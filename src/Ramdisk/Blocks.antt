-- ===== src/Ramdisk/Blocks.antt =====
-- The disk as an array of blocks: what a client sees of it through reads and writes.
use deputy_kernel.Base.{
  ℕ, ◌+◌, ◌-◌, ◌*◌, ◌%◌, ◌^◌, ◌<◌, ◌≤◌, ◌≡◌, refl, ap, ◌⊎◌, inl, inr, arith, ◌&&◌, ltb, leb,
  if◌then◌else◌, some, pos, minus_one, dec_lt,
}
use native.Mathlib.Nat.{add-mul}
use deputy_kernel.Utils.Buffers.{Bytes, ncopy}
use deputy_kernel.Utils.Buffers.Laws.{ncopy-outside, ncopy-copied}
use deputy_kernel.Ramdisk.{Disk, ramdisk_read, ramdisk_write}

-- An array of blocks of bytes.
abbrev pub Blocks : Type 0
Blocks = ℕ → ℕ → ℕ

-- The blocks that the storage of a disk holds.
abbrev pub view : Disk → Bytes → Blocks
view d mem b i = mem (d.storage + b * d.bsize + i)

-- The storage ends inside the address space.
abbrev pub Fits : Disk → Type 0
Fits d = d.storage + d.blimit * d.bsize < 2 ^ 32

-- A transfer of `num` blocks between the disk, from `lba` on, and a buffer.
pub record Transfer : Type 0 where
  pub lba : ℕ
  pub buf : ℕ
  pub num : ℕ

-- The buffer is not NULL and does not meet the storage, and the end of the blocks does not wrap.
pub record Apart (d : Disk) (t : Transfer) : Type 0 where
  pub given : 0 < t.buf
  pub no_wrap : t.lba + t.num < 2 ^ 32
  pub away : (t.buf + t.num * d.bsize ≤ d.storage) ⊎ (d.storage + d.blimit * d.bsize ≤ t.buf)

-- A write to the array: the blocks in range are those of the buffer.
abbrev pub put_blocks : Disk → Bytes → Transfer → Blocks → Blocks
put_blocks d mem t blocks b i =
    if leb (t.lba + t.num) d.blimit && leb t.lba b && ltb b (t.lba + t.num)
    then mem (t.buf + (b - t.lba) * d.bsize + i)
    else blocks b i

sub-mul : (a b k : ℕ) → a ≤ b → (b - a) * k + a * k ≡ b * k
sub-mul a b k h =
    let e : b - a + a ≡ b = omega arith in omega (arith, add-mul (b - a) a k, ap (λ z. z * k) e)

mul_mono : (a b k : ℕ) → a ≤ b → a * k ≤ b * k
mul_mono a b k h = omega (arith, sub-mul a b k h)

module _ (d : Disk) (t : Transfer) (fits : Fits d) (apart : Apart d t) where
  -- A range of blocks, in bytes.
  in_range :
      t.lba + t.num ≤ d.blimit
      → (t.lba * d.bsize + t.num * d.bsize ≤ d.blimit * d.bsize)
        × (t.lba * d.bsize % 2 ^ 32 ≡ t.lba * d.bsize)
        × (t.num * d.bsize % 2 ^ 32 ≡ t.num * d.bsize)
        × ((d.storage + t.lba * d.bsize) % 2 ^ 32 ≡ d.storage + t.lba * d.bsize)
  in_range h =
      let a = mul_mono (t.lba + t.num) d.blimit d.bsize h in
      let b = add-mul t.lba t.num d.bsize in
      (omega (arith, fits), omega (arith, fits), omega (arith, fits), omega (arith, fits))

  write-in :
      (mem : Bytes)
      → t.lba + t.num ≤ d.blimit
      → ramdisk_write (some d) t.lba t.buf t.num mem
        ≡ (pos 0, ncopy (d.storage + t.lba * d.bsize) t.buf (t.num * d.bsize) mem)
  unfolding ramdisk_write
  write-in mem h = ground (arith, in_range h, apart.given, apart.no_wrap)

  write-out :
      (mem : Bytes)
      → d.blimit < t.lba + t.num
      → ramdisk_write (some d) t.lba t.buf t.num mem ≡ (minus_one, mem)
  unfolding ramdisk_write
  write-out mem h = ground (arith, apart.given, apart.no_wrap)

  -- Where a block of the range lies, from the start of the range.
  block-offset :
      (b i : ℕ)
      → t.lba ≤ b
      → b < t.lba + t.num
      → i < d.bsize
      → (b * d.bsize + i ≡ t.lba * d.bsize + ((b - t.lba) * d.bsize + i))
        × ((b - t.lba) * d.bsize + i < t.num * d.bsize)
  block-offset b i h k hi =
      let e = sub-mul t.lba b d.bsize h in
      let s = add-mul (b - t.lba) 1 d.bsize in
      let m = mul_mono (b - t.lba + 1) t.num d.bsize (omega arith) in (omega arith, omega arith)

  -- A block outside the range is outside its bytes.
  block_outside :
      (b i : ℕ)
      → (b < t.lba) ⊎ (t.lba + t.num ≤ b)
      → i < d.bsize
      → (b * d.bsize + i < t.lba * d.bsize) ⊎ (t.lba * d.bsize + t.num * d.bsize ≤ b * d.bsize + i)
  block_outside b i (inl h) hi =
      let s = add-mul b 1 d.bsize in
      let m = mul_mono (b + 1) t.lba d.bsize (omega arith) in inl (omega arith)
  block_outside b i (inr h) hi =
      let s = add-mul t.lba t.num d.bsize in
      let m = mul_mono (t.lba + t.num) b d.bsize h in inr (omega arith)

  copied-in :
      (mem : Bytes) (b i : ℕ)
      → t.lba + t.num ≤ d.blimit
      → t.lba ≤ b
      → b < t.lba + t.num
      → i < d.bsize
      → ncopy
          (d.storage + t.lba * d.bsize)
          t.buf
          (t.num * d.bsize)
          mem
          (d.storage + b * d.bsize + i)
        ≡ mem (t.buf + (b - t.lba) * d.bsize + i)
  copied-in mem b i hin h k hi =
      let (e, l) = block-offset b i h k hi in
      let r = (in_range hin).0 in
      let off = (b - t.lba) * d.bsize + i in
      let to : d.storage + b * d.bsize + i ≡ d.storage + t.lba * d.bsize + off = omega arith in
      let from : t.buf + (b - t.lba) * d.bsize + i ≡ t.buf + off = omega arith in
      rw (to, from)
        (ncopy-copied (d.storage + t.lba * d.bsize) t.buf (t.num * d.bsize) mem (t.num * d.bsize)
          off l (omega arith) (ground (arith, apart.away)))

  kept-out :
      (mem : Bytes) (b i : ℕ)
      → (b < t.lba) ⊎ (t.lba + t.num ≤ b)
      → i < d.bsize
      → ncopy
          (d.storage + t.lba * d.bsize)
          t.buf
          (t.num * d.bsize)
          mem
          (d.storage + b * d.bsize + i)
        ≡ mem (d.storage + b * d.bsize + i)
  kept-out mem b i h hi =
      ncopy-outside (d.storage + t.lba * d.bsize) t.buf (t.num * d.bsize) mem
        (d.storage + b * d.bsize + i) (ground (arith, block_outside b i h hi))

  pub write-view :
      (mem : Bytes) (b i : ℕ)
      → i < d.bsize
      → view d (ramdisk_write (some d) t.lba t.buf t.num mem).1 b i
        ≡ put_blocks d mem t (view d mem) b i
  write-view mem b i hi = elim (dec_lt d.blimit (t.lba + t.num)) [
    | yes out ↦ rw (write-out mem out) (ground arith)
    | no ins ↦
        rw (write-in mem (omega arith))
          (ground (arith, copied-in mem b i (omega arith), kept-out mem b i))
  ]

  pub write-outside :
      (mem : Bytes) (a : ℕ)
      → (a < d.storage) ⊎ (d.storage + d.blimit * d.bsize ≤ a)
      → (ramdisk_write (some d) t.lba t.buf t.num mem).1 a ≡ mem a
  write-outside mem a h = elim (dec_lt d.blimit (t.lba + t.num)) [
    | yes out ↦ rw (write-out mem out) refl
    | no ins ↦ rw (write-in mem (omega arith)) (
        ncopy-outside (d.storage + t.lba * d.bsize) t.buf (t.num * d.bsize) mem a
          (ground (arith, in_range (omega arith))))
  ]

  -- What a buffer holds is the same in memories that agree outside the storage.
  pub put_blocks-agree :
      (mem mem' : Bytes) (blocks blocks' : Blocks) (b i : ℕ)
      → ((a : ℕ) → (a < d.storage) ⊎ (d.storage + d.blimit * d.bsize ≤ a) → mem' a ≡ mem a)
      → i < d.bsize
      → blocks' b i ≡ blocks b i
      → put_blocks d mem' t blocks' b i ≡ put_blocks d mem t blocks b i
  put_blocks-agree mem mem' blocks blocks' b i same hi e =
      ground (arith, block-offset b i, same (t.buf + (b - t.lba) * d.bsize + i), apart.away)

  read-in :
      (mem : Bytes)
      → t.lba + t.num ≤ d.blimit
      → ramdisk_read (some d) t.lba t.buf t.num mem
        ≡ (pos 0, ncopy t.buf (d.storage + t.lba * d.bsize) (t.num * d.bsize) mem)
  unfolding ramdisk_read
  read-in mem h = ground (arith, in_range h, apart.given, apart.no_wrap)

  pub read-view :
      (mem : Bytes) (k i : ℕ)
      → t.lba + t.num ≤ d.blimit
      → k < t.num
      → i < d.bsize
      → (ramdisk_read (some d) t.lba t.buf t.num mem).1 (t.buf + k * d.bsize + i)
        ≡ view d mem (t.lba + k) i
  read-view mem k i hin hk hi =
      let off = k * d.bsize + i in
      let s = add-mul k 1 d.bsize in
      let m = mul_mono (k + 1) t.num d.bsize (omega arith) in
      let q = add-mul t.lba k d.bsize in
      let r = (in_range hin).0 in
      let to : t.buf + k * d.bsize + i ≡ t.buf + off = omega arith in
      let from : d.storage + (t.lba + k) * d.bsize + i ≡ d.storage + t.lba * d.bsize + off =
        omega arith in
      rw (read-in mem hin, to, from)
        (ncopy-copied t.buf (d.storage + t.lba * d.bsize) (t.num * d.bsize) mem (t.num * d.bsize)
          off (omega arith) (omega arith) (ground (arith, apart.away)))
