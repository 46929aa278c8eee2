-- ===== src/Tarfs.antt =====
-- Tar archives, source/fs/tarfs.c: `tarfs_list` and `tarfs_mount`. The archive lies in memory at
-- `base`. A loop that goes from header to header is on fuel, as a size field can hold it in place:
-- `none` is a run that has not ended.
pub mod Offsets
mod Tests
use deputy_kernel.Base.{
  ℕ, zero, suc, ◌+◌, ◌-◌, ◌*◌, ◌/◌, ◌%◌, ◌^◌, Bool, true, false, not, ◌||◌, ◌&&◌, ◌==◌, ltb, leb,
  if◌then◌else◌, Option, none, some, List, [], ◌∷◌, ◌++◌, Run, ok, ◌>>=◌, ℤ, pos, negsuc, minus_one,
}
use deputy_kernel.Memory.{malloc}
use deputy_kernel.Utils.Buffers.{Bytes, poke, word_bytes, poke_all, range_bytes}
use deputy_kernel.Utils.Numbers.{oct2bin, atoi}
use deputy_kernel.Utils.Format.{str, snprintf}
use deputy_kernel.CoreFs.{
  Date, Entry, Stored, Fs, max_pathlen, type_mounted, named, find_entry, stat,
}
use deputy_kernel.CoreFs.Change.{create_dir, write_file}
use deputy_kernel.CoreFs.Header.{ftype_offset, mountslot_offset, put_size, touch}
use deputy_kernel.Mount.{Mounts, get_slot}

abbrev pub type_directory : ℕ
type_directory = 5

-- A text up to its NUL.
unfoldable pub text_of : List ℕ → List ℕ
text_of [] = []
text_of (c ∷ cs) = let rest = text_of cs in if c == 0 then [] else c ∷ rest

-- `ncompare(base + ofs + 257, "ustar", 5) == 0`
unfoldable pub has_magic : Bytes → ℕ → Bool
has_magic mem a =
    mem (a + 257) == 117
    && mem (a + 258) == 115
    && mem (a + 259) == 116
    && mem (a + 260) == 97
    && mem (a + 261) == 114

-- `(((n + 511) / 512) + 1) * 512` for the `int` in the word `w`, as a `size_t`. The division rounds
-- towards 0.
unfoldable pub advance : ℕ → ℕ
advance w =
    let k = 2 ^ 32 - w in
    if ltb w (2 ^ 31)
    then ((w + 511) / 512 + 1) * 512 % 2 ^ 32
    else if leb k 511
    then 512
    else (2 ^ 32 + 512 - (k - 511) / 512 * 512) % 2 ^ 32

-- The size field, of which the first `len` bytes are read.
unfoldable pub entry_size : Bytes → (len a : ℕ) → Run ℕ
entry_size mem len a = oct2bin (range_bytes mem (a + 124) 12) len

-- The walk of `tarfs_list`, over the whole size field: the offsets of the entries.
unfoldable pub list_from : Bytes → (base size fuel ofs : ℕ) → Run (Option (List ℕ))
list_from mem base size zero ofs = ok none
list_from mem base size (suc n) ofs =
    if not (has_magic mem (base + ofs) && ltb ofs size) then ok (some []) else do
      w ← entry_size mem 12 (base + ofs)
      rest ← list_from mem base size n ((ofs + advance w) % 2 ^ 32)
      ok (elim rest [ none ↦ none | some more ↦ some (ofs ∷ more) ])

unfoldable pub tarfs_list : Bytes → (base size fuel : ℕ) → Run (Option (List ℕ))
tarfs_list mem base size fuel = list_from mem base size fuel 0

-- The file system, and the table of mounts.
pub record Target : Type 0 where
  pub fs : Fs
  pub mounts : Mounts

-- What `fs_stat` points to is changed in place.
unfoldable pub mark_mounted : (i slot size : ℕ) → Stored → Fs → Run Fs
mark_mounted i slot size s fs =
    touch i s (λ ent. record ent { ftype = type_mounted; mountslot = pos slot; size = size })
      (λ a mem. put_size size a (
        poke_all (word_bytes slot) (a + mountslot_offset)
          (poke mem (a + ftype_offset) type_mounted)))
      fs

abbrev pub is_success : ℤ → Bool
is_success status = elim status [ pos n ↦ n == 0 | negsuc n ↦ false ]

-- A file of the archive, whose content stays in place; `false` is the status -1.
unfoldable pub mount_file : Entry → Date → (path : List ℕ) → (a : ℕ) → Target → Run (Bool × Target)
mount_file old now path a t = do
  (status, fs) ← write_file old now path 0 0 t.fs
  if not (is_success status)
      then ok (false, record t { fs = fs })
      else elim (find_entry (named path) 0 fs.entry_v) [
        | none ↦ ok (false, record t { fs = fs })
        | some (i, s) ↦ (do
          (slot, mounts) ← get_slot (a + 512) t.mounts
          elim slot [
            | negsuc _ ↦ ok (false, record { fs = fs; mounts = mounts })
            | pos k ↦ (do
              w ← entry_size fs.memory.bytes 11 a
              fs' ← mark_mounted i k w s fs
              ok (true, record { fs = fs'; mounts = mounts }))
          ])
      ]

abbrev pub is_directory : ℤ → Bool
is_directory kind = elim kind [ pos n ↦ n == type_directory | negsuc n ↦ false ]

-- An entry of the archive, by the number that stands from its type on.
unfoldable pub mount_entry :
    Entry → Date → (pathbuf path : List ℕ) → (a : ℕ) → Target → Run (Bool × Target)
mount_entry old now pathbuf path a t = do
  (n, buffer) ←
      snprintf pathbuf max_pathlen (37 ∷ 115 ∷ 37 ∷ 115 ∷ 0 ∷ [])
        (str (path ++ 0 ∷ []) ∷ str (range_bytes t.fs.memory.bytes a 512) ∷ [])
  kind ← atoi (range_bytes t.fs.memory.bytes (a + 156) 356)
  let name = text_of buffer
  if is_directory kind
      then (do
        (status, fs) ← create_dir old now name t.fs
        ok (is_success status, record t { fs = fs }))
      else mount_file old now name a t

unfoldable pub mount_from :
    Entry
    → Date
    → (pathbuf path : List ℕ) → (base size fuel ofs : ℕ) → Target
    → Run (Option ℤ × Target)
mount_from old now pathbuf path base size zero ofs t = ok (none, t)
mount_from old now pathbuf path base size (suc n) ofs t =
    if not (has_magic t.fs.memory.bytes (base + ofs) && ltb ofs size)
    then ok (some (pos 0), t)
    else do
      (mounted, t') ← mount_entry old now pathbuf path (base + ofs) t
      if not mounted then ok (some minus_one, t') else do
        w ← entry_size t'.fs.memory.bytes 11 (base + ofs)
        mount_from old now pathbuf path base size n ((ofs + advance w) % 2 ^ 32) t'

-- The path is `none` for NULL. The buffer of the paths, of unknown bytes, is not given back.
unfoldable pub tarfs_mount :
    Entry
    → Date
    → (junk : List ℕ) → Option (List ℕ)
    → (base size fuel : ℕ) → Target
    → Run (Option ℤ × Target)
tarfs_mount old now junk none base size fuel t = ok (some minus_one, t)
tarfs_mount old now junk (some path) base size fuel t =
    if base == 0 || size == 0 then ok (some minus_one, t) else elim (stat path t.fs) [
      | none ↦ ok (some minus_one, t)
      | some i ↦ if not (has_magic t.fs.memory.bytes base) then ok (some minus_one, t) else do
        (pathbuf, memory) ← malloc max_pathlen t.fs.memory
        let t' = record t { fs = record (t.fs) { memory = memory } }
        if pathbuf == 0
            then ok (some minus_one, t')
            else mount_from old now junk path base size fuel 0 t'
    ]
