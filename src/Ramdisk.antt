-- ===== src/Ramdisk.antt =====
-- The RAM disk, source/drv/ramdisk.c. A disk pointer is `none` for NULL, and so is the state that a
-- function leaves.
pub mod Blocks
pub mod Refine
mod Tests
use deputy_kernel.Base.{
  ℕ, ◌+◌, ◌*◌, ◌%◌, ◌^◌, Bool, true, false, ◌||◌, ◌==◌, ltb, if◌then◌else◌, Option, none, some, Run,
  ok, ◌>>=◌, ℤ, pos, minus_one,
}
use deputy_kernel.Memory.{Memory, calloc, free}
use deputy_kernel.Utils.Buffers.{Bytes, ncopy}

-- `ramdisk_t`
pub record Disk : Type 0 where
  pub bsize : ℕ
  pub blimit : ℕ
  pub storage : ℕ

unfoldable pub ramdisk_create :
    Option Disk → (blimit bsize : ℕ) → Memory → Run (ℤ × Option Disk × Memory)
ramdisk_create none blimit bsize m = ok (minus_one, none, m)
ramdisk_create (some disk) blimit bsize m =
    if blimit == 0 || bsize == 0 then ok (minus_one, some disk, m) else do
      (storage, m') ← calloc blimit bsize m
      let made : Disk = record { bsize = bsize; blimit = blimit; storage = storage }
      ok ((if storage == 0 then minus_one else pos 0), some made, m')

unfoldable pub ramdisk_read : Option Disk → (lba buf num : ℕ) → Bytes → ℤ × Bytes
ramdisk_read none lba buf num mem = (minus_one, mem)
ramdisk_read (some disk) lba buf num mem =
    if buf == 0
    then (minus_one, mem)
    else if ltb disk.blimit ((lba + num) % 2 ^ 32)
    then (minus_one, mem)
    else (
      pos 0,
      ncopy buf ((disk.storage + lba * disk.bsize % 2 ^ 32) % 2 ^ 32) (num * disk.bsize % 2 ^ 32)
          mem,
    )

unfoldable pub ramdisk_write : Option Disk → (lba buf num : ℕ) → Bytes → ℤ × Bytes
ramdisk_write none lba buf num mem = (minus_one, mem)
ramdisk_write (some disk) lba buf num mem =
    if buf == 0
    then (minus_one, mem)
    else if ltb disk.blimit ((lba + num) % 2 ^ 32)
    then (minus_one, mem)
    else (
      pos 0,
      ncopy ((disk.storage + lba * disk.bsize % 2 ^ 32) % 2 ^ 32) buf (num * disk.bsize % 2 ^ 32)
          mem,
    )

unfoldable pub ramdisk_remove : Option Disk → Memory → Run (ℤ × Option Disk × Memory)
ramdisk_remove none m = ok (minus_one, none, m)
ramdisk_remove (some disk) m = if disk.storage == 0 then ok (minus_one, some disk, m) else do
  m' ← free disk.storage m
  ok (pos 0, some (record { bsize = 0; blimit = 0; storage = 0 }), m')
