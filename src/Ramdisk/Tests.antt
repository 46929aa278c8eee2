-- ===== src/Ramdisk/Tests.antt =====
-- A small disk.
use deputy_kernel.Base.{◌≡◌, arith, [], ◌∷◌, inl, some, ◌+◌, ◌*◌}
use deputy_kernel.Utils.Buffers.{Bytes}
use deputy_kernel.Ramdisk.{Disk, ramdisk_read}
use deputy_kernel.Ramdisk.Blocks.{Transfer, Apart, view}
use deputy_kernel.Ramdisk.Refine.{run, replay, run-refines}

abbrev disk : Disk
disk = record { bsize = 512; blimit = 8; storage = 0x10000 }

-- Two blocks from 3 on, and one of them again.
abbrev two : Transfer
two = record { lba = 3; buf = 0x4000; num = 2 }

abbrev again : Transfer
again = record { lba = 4; buf = 0x5000; num = 1 }

abbrev all : Transfer
all = record { lba = 0; buf = 0x8000; num = 8 }

abbrev bytes : Bytes
bytes = λ a. a

two-Apart : Apart disk two
two-Apart = record { given = omega arith; no_wrap = omega arith; away = inl (omega arith) }

again-Apart : Apart disk again
again-Apart = record { given = omega arith; no_wrap = omega arith; away = inl (omega arith) }

all-Apart : Apart disk all
all-Apart = record { given = omega arith; no_wrap = omega arith; away = inl (omega arith) }

run-refines_example :
    (ramdisk_read (some disk) 0 0x8000 8 (run disk (two ∷ again ∷ []) bytes)).1
      (0x8000 + 4 * 512 + 7)
    ≡ replay disk bytes (two ∷ again ∷ []) (view disk bytes) (0 + 4) 7
run-refines_example =
    run-refines disk (two ∷ again ∷ []) all bytes 4 7 (omega arith) (two-Apart, (again-Apart, tt))
      all-Apart (omega arith) (omega arith) (omega arith)
