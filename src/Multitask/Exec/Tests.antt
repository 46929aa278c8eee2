-- ===== src/Multitask/Exec/Tests.antt =====
-- A program of one segment.
use deputy_kernel.Base.{◌≡◌, refl, ◌==◌, if◌then◌else◌}
use deputy_kernel.Utils.Buffers.{Bytes}
use deputy_kernel.Multitask.Exec.{
  ElfHeader, field32, segment_at, low_with, high_with, bounds_from, image_bounds,
}

-- The header at 0x2034: 16 bytes of the file, 32 in memory, at 0x1000.
abbrev file : Bytes
file a =
    if a == 0x2034
    then 1
    else if a == 0x203D
    then 0x10
    else if a == 0x2044
    then 16
    else if a == 0x2048
    then 32
    else 0

abbrev header : ElfHeader
header = record { entry = 0x1000; phoff = 52; phnum = 1 }

image_runs : image_bounds file 0x2000 header ≡ (0x1000, 0x2000)
unfolding image_bounds bounds_from low_with high_with segment_at field32
image_runs = refl
