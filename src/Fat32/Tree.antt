-- ===== src/Fat32/Tree.antt =====
-- `fat32_loadTree` and `fat32_mount` of source/fs/fat32.c. What the reader finds is only logged: the
-- names, in their order.
use deputy_kernel.Base.{
  ℕ, zero, suc, ◌+◌, ◌*◌, ◌%◌, ◌^◌, Bool, not, ◌||◌, ◌==◌, ltb, leb, if◌then◌else◌, Option, none,
  some, List, [], ◌∷◌, ◌++◌, Run, ok, ◌>>=◌, store, ℤ, pos, negsuc, minus_one,
}
use deputy_kernel.Memory.{Memory, malloc}
use deputy_kernel.Utils.Buffers.{Bytes}
use deputy_kernel.Hw.Acpi.{word16}
use deputy_kernel.Ramdisk.{Disk, ramdisk_read}
use deputy_kernel.Fat32.{Fat, clus_eof, bootsec, get_clus_lba, get_next_clus_num, layout}

abbrev pub max_lfnlen : ℕ
max_lfnlen = 256

abbrev pub dirent_deleted : ℕ
dirent_deleted = 0xE5

-- The buffer of a long name, and the position in it.
pub record LongName : Type 0 where
  pub lfnbuf : List ℕ
  pub lfnpos : ℕ

-- The characters of a long entry, two bytes each: those that are padding are left out, and no test
-- keeps the position inside the buffer.
unfoldable pub push_chars : Bytes → (left a : ℕ) → LongName → Run LongName
push_chars mem zero a l = ok l
push_chars mem (suc n) a l =
    let c = word16 mem a in
    if c == 0xFFFF || c == 0 then push_chars mem n (a + 2) l else do
      buf ← store l.lfnbuf l.lfnpos (c % 2 ^ 8)
      push_chars mem n (a + 2) (record { lfnbuf = buf; lfnpos = suc l.lfnpos })

unfoldable pub push_entry : Bytes → ℕ → LongName → Run LongName
push_entry mem a l = do
  l1 ← push_chars mem 5 (a + 1) l
  l2 ← push_chars mem 6 (a + 14) l1
  push_chars mem 2 (a + 28) l2

-- The bytes up to the first that is `stop`.
unfoldable pub until_byte : Bytes → (stop left a : ℕ) → List ℕ
until_byte mem stop zero a = []
until_byte mem stop (suc n) a =
    let rest = until_byte mem stop n (suc a) in if mem a == stop then [] else mem a ∷ rest

unfoldable pub short_name : Bytes → ℕ → List ℕ
short_name mem a =
    let ext = 46 ∷ until_byte mem 32 3 (a + 8) in
    until_byte mem 32 8 a ++ (if mem (a + 8) == 32 then [] else ext)

unfoldable pub until_nul : List ℕ → List ℕ
until_nul [] = []
until_nul (c ∷ cs) = let rest = until_nul cs in if c == 0 then [] else c ∷ rest

-- The scan of the cluster's buffer, one byte further each time, as `++ofs` has it.
unfoldable pub scan_entries : Bytes → (left a : ℕ) → LongName → Run (List (List ℕ))
scan_entries mem zero a l = ok []
scan_entries mem (suc n) a l =
    if mem a == 0
    then ok []
    else if mem a == dirent_deleted
    then scan_entries mem n (suc a) l
    else if mem (a + 11) % 16 == 15
    then (do l' ← push_entry mem a l; scan_entries mem n (suc a) l')
    else if ltb 0 l.lfnpos
    then (do
      buf ← store l.lfnbuf l.lfnpos 0
      names ← scan_entries mem n (suc a) (record { lfnbuf = buf; lfnpos = 0 })
      ok (until_nul buf ∷ names))
    else (do names ← scan_entries mem n (suc a) l; ok (short_name mem a ∷ names))

-- The sectors of a cluster, into the buffer at `secbuf`; `none` is a read that failed. The long
-- name starts from what `junk` holds.
unfoldable pub read_sectors :
    Option Disk
    → Fat
    → (junk : List ℕ) → (secbuf cluster sec left : ℕ) → Bytes
    → Run (Option (List (List ℕ)) × Bytes)
read_sectors disk f junk secbuf cluster sec zero mem = ok (some [], mem)
read_sectors disk f junk secbuf cluster sec (suc n) mem =
    let b = f.boot in
    let (status, mem') =
      ramdisk_read disk ((get_clus_lba f cluster + sec) % 2 ^ 32)
        (secbuf + sec * b.bytes_per_sector) 1 mem in
    elim status [
      | negsuc _ ↦ ok (none, mem')
      | pos _ ↦ (do
        names ←
            scan_entries mem' (b.sectors_per_cluster * b.bytes_per_sector) secbuf
              (record { lfnbuf = junk; lfnpos = 0 })
        (rest, mem'') ← read_sectors disk f junk secbuf cluster (suc sec) n mem'
        ok (elim rest [ none ↦ none | some more ↦ some (names ++ more) ], mem''))
    ]

-- The loop over the chain, with the rounds of `timeout` left.
unfoldable pub load_chain :
    Option Disk
    → Fat
    → (junk : List ℕ) → (secbuf timeout cluster : ℕ) → Bytes
    → Run (Option ℤ × Bytes)
load_chain disk f junk secbuf zero cluster mem = ok (some minus_one, mem)
load_chain disk f junk secbuf (suc n) cluster mem =
    if leb clus_eof cluster then ok (none, mem) else do
      (names, mem') ← read_sectors disk f junk secbuf cluster 0 f.boot.sectors_per_cluster mem
      elim names [
        | none ↦ ok (some minus_one, mem')
        | some _ ↦ (do
          next ← get_next_clus_num f cluster secbuf mem'
          load_chain disk f junk secbuf n next mem')
      ]

unfoldable pub load_tree :
    Option Disk → Fat → (junk : List ℕ) → (secbuf clus : ℕ) → Bytes → Run (Option ℤ × Bytes)
load_tree disk f junk secbuf clus mem = load_chain disk f junk secbuf f.data_cluc_cnt clus mem

-- The three buffers: `none` if one of them is NULL. They are not given back.
unfoldable pub buffers : ℕ → Memory → Run (Bool × Memory)
buffers size m = do
  (sec, m1) ← malloc size m
  (lfn, m2) ← malloc max_lfnlen m1
  (fname, m3) ← malloc max_lfnlen m2
  ok (not (sec == 0 || lfn == 0 || fname == 0), m3)

abbrev pub value_of : ℤ → Option ℤ → ℤ
value_of left_over none = left_over
value_of left_over (some v) = v

-- `if (... != 0) return -1`, at the end of the function.
abbrev pub result_of : ℤ → Option ℤ
result_of (pos n) = if n == 0 then none else some minus_one
result_of (negsuc n) = some minus_one

-- `boot` is the address of the boot sector's variable, and `left_over` what the missing value of
-- `fat32_loadTree` is read as.
unfoldable pub fat32_mount :
    Option Disk
    → (junk : List ℕ) → (left_over : ℤ) → (boot secbuf lba : ℕ) → Memory
    → Run (Option ℤ × Memory)
fat32_mount disk junk left_over boot secbuf lba m =
    let (status, mem) = ramdisk_read disk lba boot 1 m.bytes in
    let m' = record m { bytes = mem } in
    elim status [
      | negsuc _ ↦ ok (some minus_one, m')
      | pos _ ↦ (do
        f ← layout lba (bootsec mem boot)
        if ltb f.data_cluc_cnt 65525 then ok (some minus_one, m') else do
          (all, m'') ← buffers (f.boot.sectors_per_cluster * f.boot.bytes_per_sector) m'
          if not all then ok (some minus_one, m'') else do
            (loaded, mem') ← load_tree disk f junk secbuf f.boot.root_cluster m''.bytes
            let value = value_of left_over loaded
            ok (result_of value, record m'' { bytes = mem' }))
    ]
