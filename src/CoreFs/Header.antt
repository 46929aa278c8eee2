-- ===== src/CoreFs/Header.antt =====
-- The entries of source/kernel/corefs.c in memory, where `fs_Entry_t` of include/kernel.h has them:
-- what is written to an entry is written to the bytes at its address too.
pub mod Laws
use deputy_kernel.Base.{
  ℕ, ◌+◌, ◌/◌, ◌%◌, ◌^◌, not, ◌||◌, List, [], ◌∷◌, ◌++◌, ◌==◌, if◌then◌else◌, Option, none, some,
  true, false, Run, ok, ◌>>=◌, store,
}
use deputy_kernel.Utils.Buffers.{Bytes, word_bytes, poke_all}
use deputy_kernel.CoreFs.{
  Date, Entry, Stored, Fs, type_file, type_dir, text_eq, named, below, find_entry, list_entries,
  last_is,
}

-- Where the fields are, on i386. The name stands first, `mountslot` last.
abbrev pub user_offset : ℕ
user_offset = 3840

abbrev pub size_offset : ℕ
size_offset = 3848

abbrev pub ctime_offset : ℕ
ctime_offset = 3852

abbrev pub mtime_offset : ℕ
mtime_offset = 3860

abbrev pub atime_offset : ℕ
atime_offset = 3868

abbrev pub perm_offset : ℕ
perm_offset = 3876

abbrev pub ftype_offset : ℕ
ftype_offset = 3879

abbrev pub mountslot_offset : ℕ
mountslot_offset = 3884

abbrev pub sizeof_date : ℕ
sizeof_date = 8

-- A `date_t`, with a byte between the month and the year that is left as it is.
unfoldable pub put_date : Date → ℕ → Bytes → Bytes
put_date d a mem = poke_all (d.year % 2 ^ 8 ∷ d.year / 2 ^ 8 % 2 ^ 8 ∷ []) (a + 6) (
    poke_all (d.sec % 2 ^ 8 ∷ d.min % 2 ^ 8 ∷ d.hour % 2 ^ 8 ∷ d.day % 2 ^ 8 ∷ d.mon % 2 ^ 8 ∷ []) a
      mem)

unfoldable pub put_size : ℕ → ℕ → Bytes → Bytes
put_size size a mem = poke_all (word_bytes size) (a + size_offset) mem

-- A new entry: the name, `user` and `group`, the dates, the permissions 0777 and the type.
unfoldable pub put_entry : Date → List ℕ → (type : ℕ) → ℕ → Bytes → Bytes
put_entry now path type a mem =
    let titled = poke_all (path ++ 0 ∷ []) a mem in
    let owned = poke_all (word_bytes 0 ++ word_bytes 0) (a + user_offset) titled in
    let dated =
      put_date now (a + atime_offset)
        (put_date now (a + mtime_offset) (put_date now (a + ctime_offset) owned)) in
    poke_all (511 % 2 ^ 8 ∷ 511 / 2 ^ 8 ∷ type ∷ []) (a + perm_offset) dated

-- A new file has a size and a `ftype` too.
unfoldable pub put_file : Date → List ℕ → (size : ℕ) → ℕ → Bytes → Bytes
put_file now path size a mem =
    poke_all (type_file ∷ []) (a + ftype_offset)
      (put_size size a (put_entry now path type_file a mem))

-- An entry is changed in its place; `write` is the change to the bytes at its address.
unfoldable pub touch :
    ℕ → Stored → (change : Entry → Entry) (write : ℕ → Bytes → Bytes) → Fs → Run Fs
touch i s change write fs = do
  v ← store fs.entry_v i (some (record s { entry = change s.entry }))
  ok (record fs {
    entry_v = v;
    memory = record (fs.memory) { bytes = write s.address fs.memory.bytes };
  })

-- The entry indexes, and NULL as `none`.
unfoldable pub read_dir : Date → List ℕ → Fs → Run (Option (List ℕ) × Fs)
read_dir now path fs =
    if not fs.init_lock || not (last_is 47 path)
    then ok (none, fs)
    else if text_eq path (47 ∷ [])
    then ok (some (list_entries (below path) 0 fs.entry_v), fs)
    else elim (find_entry (named path) 0 fs.entry_v) [
      | none ↦ ok (none, fs)
      | some (i, s) ↦ elim (s.entry.type == type_dir) [
        | false ↦ ok (none, fs)
        | true ↦ (do
          fs' ←
              touch i s (λ ent. record ent { atime = now }) (λ a. put_date now (a + atime_offset))
                fs
          ok (some (list_entries (below path) 0 fs.entry_v), fs'))
      ]
    ]
