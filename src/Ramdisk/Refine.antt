-- ===== src/Ramdisk/Refine.antt =====
-- Any sequence of writes to the disk, and a read after them.
use deputy_kernel.Base.{ℕ, ◌+◌, ◌*◌, ◌<◌, ◌≤◌, ◌≡◌, refl, ◌∙◌, ◌⊎◌, List, [], ◌∷◌, some}
use deputy_kernel.Utils.Buffers.{Bytes}
use deputy_kernel.Ramdisk.{Disk, ramdisk_read, ramdisk_write}
use deputy_kernel.Ramdisk.Blocks.{
  Blocks, Transfer, Fits, Apart, view, put_blocks, write-view, write-outside, put_blocks-agree,
  read-view,
}

abbrev pub AllApart : Disk → List Transfer → Type 0
AllApart d [] = Unit
AllApart d (t ∷ ts) = Apart d t × AllApart d ts

-- Writes one after the other, and what they do to the array.
abbrev pub run : Disk → List Transfer → Bytes → Bytes
run d [] mem = mem
run d (t ∷ ts) mem = run d ts (ramdisk_write (some d) t.lba t.buf t.num mem).1

abbrev pub replay : Disk → Bytes → List Transfer → Blocks → Blocks
replay d mem [] blocks = blocks
replay d mem (t ∷ ts) blocks = replay d mem ts (put_blocks d mem t blocks)

run-view :
    (d : Disk) (ts : List Transfer) (mem now : Bytes) (blocks : Blocks)
    → Fits d
    → AllApart d ts
    → ((a : ℕ) → (a < d.storage) ⊎ (d.storage + d.blimit * d.bsize ≤ a) → now a ≡ mem a)
    → ((b i : ℕ) → i < d.bsize → view d now b i ≡ blocks b i)
    → (b i : ℕ) → i < d.bsize
    → view d (run d ts now) b i ≡ replay d mem ts blocks b i
run-view d [] mem now blocks fits apart same seen b i hi = seen b i hi
run-view d (t ∷ ts) mem now blocks fits apart same seen b i hi =
    run-view d ts mem (ramdisk_write (some d) t.lba t.buf t.num now).1 (put_blocks d mem t blocks)
      fits apart.1 (λ a h. write-outside d t fits apart.0 now a h ∙ same a h)
      (λ c j hj.
        write-view d t fits apart.0 now c j hj
        ∙ put_blocks-agree d t fits apart.0 mem now blocks (view d now) c j same hj (seen c j hj))
      b i hi

-- The disk is an array of blocks: when the storage fits the address space, after any sequence of
-- `ramdisk_write` calls and in a `ramdisk_read` of blocks of the disk, all with buffers that are
-- not NULL and lie outside the storage and with ends that do not wrap, each byte read is what the
-- array holds after the same writes to it; a write past the end changes nothing in either.
pub run-refines :
    (d : Disk) (ts : List Transfer) (t : Transfer) (mem : Bytes) (k i : ℕ)
    → Fits d
    → AllApart d ts
    → Apart d t
    → t.lba + t.num ≤ d.blimit
    → k < t.num
    → i < d.bsize
    → (ramdisk_read (some d) t.lba t.buf t.num (run d ts mem)).1 (t.buf + k * d.bsize + i)
      ≡ replay d mem ts (view d mem) (t.lba + k) i
run-refines d ts t mem k i fits all apart hin hk hi =
    read-view d t fits apart (run d ts mem) k i hin hk hi
    ∙ run-view d ts mem mem (view d mem) fits all (λ a h. refl) (λ b j h. refl) (t.lba + k) i hi
