-- ===== src/Tarfs/Tests.antt =====
-- An archive whose first file has seven bytes.
use deputy_kernel.Base.{◌+◌, ◌≡◌, ◌≢◌, refl, inl, arith, ◌==◌, if◌then◌else◌, [], ◌∷◌, ok, some}
use deputy_kernel.Utils.Buffers.{Bytes, range_bytes}
use deputy_kernel.Utils.Numbers.Octal.{octal_digits}
use deputy_kernel.Tarfs.{tarfs_list}
use deputy_kernel.Tarfs.Offsets.{IsHeader, ustar, Archive, entry, over, offsets, tarfs_list-Archive}

-- The digit 0 everywhere, but for the magic value of the first header and the end of its size,
-- the digit 7 and a NUL.
abbrev archive : Bytes
archive a =
    if a == 0x8101
    then 117
    else if a == 0x8102
    then 115
    else if a == 0x8103
    then 116
    else if a == 0x8104
    then 97
    else if a == 0x8105
    then 114
    else if a == 0x8086
    then 55
    else if a == 0x8087
    then 0
    else 48

archive-IsHeader : IsHeader archive 0x8000 7 0
unfolding range_bytes octal_digits
archive-IsHeader = record { magic = refl; size = refl; small = omega arith; byte = omega arith }

no_more : range_bytes archive (0x8000 + 1024 + 257) 5 ≢ ustar
unfolding range_bytes
no_more e = ground (arith, e)

archive-Archive : Archive archive 0x8000 2048 0 ((7, 0) ∷ [])
archive-Archive = entry 0 7 0 archive-IsHeader (omega arith) (omega arith) (over 1024 (inl no_more))

tarfs_list-Archive_example : tarfs_list archive 0x8000 2048 2 ≡ ok (some (offsets 0 ((7, 0) ∷ [])))
tarfs_list-Archive_example =
    tarfs_list-Archive archive 0x8000 2048 2 ((7, 0) ∷ []) archive-Archive (omega arith)
