-- ===== src/CoreFs/Change.antt =====
-- The functions of source/kernel/corefs.c that change the table. A new block holds a header that
-- the code does not fill in completely: `old` is what its bytes spell before.
use deputy_kernel.Base.{
  ℕ, zero, suc, ◌+◌, ◌-◌, ◌*◌, ◌%◌, ◌^◌, Bool, true, false, not, ◌||◌, ◌&&◌, List, [], ◌∷◌, ◌++◌,
  ◌==◌, ltb, leb, if◌then◌else◌, Option, none, some, Run, ok, fault, panic, ◌>>=◌, load_at, store,
  replicate, length, take, ℤ, pos,
}
use deputy_kernel.Memory.{Memory, malloc, calloc, realloc, free}
use deputy_kernel.Utils.Buffers.{ncopy}
use deputy_kernel.Utils.Strings.Split.{split}
use deputy_kernel.CoreFs.{
  max_pathlen, max_entcount, sizeof_entry, header_size, type_file, type_dir, type_mounted, success,
  failure, not_init, already_exists, out_of_memory, path_not_found, not_file, entry_not_found,
  dir_not_empty, file_exists, dir_exists, Date, Entry, Stored, Fs, text_eq, is_prefix, is_empty,
  named, below, find_entry, find_null, last_is,
}
use deputy_kernel.CoreFs.Header.{
  atime_offset, mtime_offset, put_date, put_size, put_entry, put_file, touch,
}

-- A token's text, the bytes before the NUL.
unfoldable pub text_of : List ℕ → List ℕ
text_of [] = []
text_of (c ∷ row) = elim (c == 0) [ true ↦ [] | false ↦ c ∷ text_of row ]

-- The first `n` tokens, a '/' behind each.
unfoldable pub join : List (List ℕ) → ℕ → List ℕ
join toks zero = []
join [] (suc n) = []
join (row ∷ toks) (suc n) = text_of row ++ 47 ∷ join toks n

abbrev pub dir_named : List ℕ → Entry → Bool
dir_named path ent = named path ent && ent.type == type_dir

-- The loop over the parents, with `n` rounds left: is each in the table?
unfoldable pub parents_from : List (Option Stored) → List (List ℕ) → ℕ → ℕ → Bool
parents_from v toks i zero = true
parents_from v toks i (suc n) = elim (find_entry (dir_named (47 ∷ join toks (suc i))) 0 v) [
  | none ↦ false
  | some s ↦ parents_from v toks (suc i) n
]

unfoldable pub parents_exist : List ℕ → List (Option Stored) → Run Bool
parents_exist path v = do
  (toks, count) ← split (path ++ 0 ∷ []) 47
  ok (parents_from v toks 0 (count - 1))

-- `copy(ent->name, path)`, `user`, `group`, the dates, `perm` and `type`.
abbrev pub fresh_entry : Entry → Date → List ℕ → ℕ → Entry
fresh_entry old now path type = record old {
  name = path;
  user = pos 0;
  group = pos 0;
  ctime = now;
  mtime = now;
  atime = now;
  perm = 511;
  type = type;
}

-- The new entry of a directory at the index `i`.
unfoldable pub add_dir : Entry → Date → List ℕ → ℕ → Fs → Run (ℤ × Fs)
add_dir old now path i fs = do
  (address, memory) ← malloc header_size fs.memory
  if address == 0 then ok (out_of_memory, record fs { memory = memory }) else do
    v ←
        store fs.entry_v i
          (some (record { address = address; entry = fresh_entry old now path type_dir }))
    let bytes = put_entry now path type_dir address memory.bytes
    ok (success, record fs { entry_v = v; memory = record memory { bytes = bytes } })

-- A file whose name begins with the path's.
abbrev pub file_below : List ℕ → Entry → Bool
file_below path ent = below (take (length path - 1) path) ent && ent.type == type_file

abbrev pub is_dir_at : Option (ℕ × Stored) → Bool
is_dir_at found = elim found [ none ↦ false | some (i, s) ↦ s.entry.type == type_dir ]

unfoldable pub create_dir : Entry → Date → List ℕ → Fs → Run (ℤ × Fs)
create_dir old now path fs =
    if not fs.init_lock
    then ok (not_init, fs)
    else if not (last_is 47 path) || leb max_pathlen (length path)
    then ok (failure, fs)
    else elim (find_entry (file_below path) 0 fs.entry_v) [
      | some s ↦ ok (file_exists, fs)
      | none ↦ elim (is_dir_at (find_entry (named path) 0 fs.entry_v)) [
        | true ↦ ok (already_exists, fs)
        | false ↦ (do
          found ← parents_exist path fs.entry_v
          elim found [
            | false ↦ ok (path_not_found, fs)
            | true ↦ elim (find_null 0 fs.entry_v) [
              | none ↦ ok (out_of_memory, fs)
              | some i ↦ add_dir old now path i fs
            ]
          ])
      ]
    ]

-- The address of the content: `none` for NULL. A mounted file's is in the table of mounts.
unfoldable pub read_file : Date → List ℕ → Option (List ℕ) → Fs → Run (Option ℕ × Fs)
read_file now path mount_v fs =
    if not fs.init_lock then ok (none, fs) else elim (find_entry (named path) 0 fs.entry_v) [
      | none ↦ ok (none, fs)
      | some (i, s) ↦ elim (s.entry.type == type_file) [
        | false ↦ ok (none, fs)
        | true ↦ (do
          fs' ←
              touch i s (λ ent. record ent { atime = now }) (λ a. put_date now (a + atime_offset))
                fs
          if s.entry.ftype == type_mounted
              then elim mount_v [
                | none ↦ ok (none, fs')
                | some slots ↦ (do
                  mounted ← load_at slots s.entry.mountslot
                  ok (if mounted == 0 then none else some mounted, fs'))
              ]
              else ok (some (s.address + header_size), fs'))
      ]
    ]

-- The entry of the file at `i` moves to a block of the new size; `buf` is an address.
unfoldable pub rewrite_file : Date → ℕ → ℕ → ℕ → Stored → Fs → Run (ℤ × Fs)
rewrite_file now size buf i s fs = do
  (address, memory) ← realloc s.address ((size + header_size) % 2 ^ 32) fs.memory
  if address == 0 then ok (out_of_memory, record fs { memory = memory }) else do
    let copied = ncopy (address + header_size) buf size memory.bytes
    let bytes =
        put_date now (address + atime_offset)
          (put_date now (address + mtime_offset) (put_size size address copied))
    v ← store fs.entry_v i (
        some (record {
          address = address;
          entry = record (s.entry) { size = size; mtime = now; atime = now };
        }))
    ok (success, record fs { entry_v = v; memory = record memory { bytes = bytes } })

-- The new file in its block. The length of the path is not tested.
unfoldable pub place_file : Entry → Date → List ℕ → ℕ → ℕ → ℕ → ℕ → Memory → Fs → Run (ℤ × Fs)
place_file old now path size buf i address memory fs =
    if address == 0
    then ok (out_of_memory, record fs { memory = memory })
    else if leb max_pathlen (length path)
    then fault
    else do
      let bytes =
          ncopy (address + header_size) buf size (put_file now path size address memory.bytes)
      v ← store fs.entry_v i (
          some (record {
            address = address;
            entry = record (fresh_entry old now path type_file) { size = size; ftype = type_file };
          }))
      ok (success, record fs { entry_v = v; memory = record memory { bytes = bytes } })

-- The new entry of a file at the index `i`.
unfoldable pub add_file : Entry → Date → List ℕ → ℕ → ℕ → ℕ → Fs → Run (ℤ × Fs)
add_file old now path size buf i fs = do
  (address, memory) ← malloc ((header_size + size) % 2 ^ 32) fs.memory
  place_file old now path size buf i address memory fs

-- A directory of the path's name.
abbrev pub dir_for : List ℕ → Entry → Bool
dir_for path ent =
    not (is_empty ent.name)
    && ent.type == type_dir
    && last_is 47 ent.name
    && length path + 1 == length ent.name
    && is_prefix path ent.name

unfoldable pub write_file : Entry → Date → List ℕ → (size buf : ℕ) → Fs → Run (ℤ × Fs)
write_file old now path size buf fs =
    if not fs.init_lock
    then ok (not_init, fs)
    else if is_empty path || last_is 47 path || buf == 0 && not (size == 0)
    then ok (failure, fs)
    else elim (find_entry (dir_for path) 0 fs.entry_v) [
      | some s ↦ ok (dir_exists, fs)
      | none ↦ elim (find_entry (named path) 0 fs.entry_v) [
        | some (i, s) ↦ elim (s.entry.type == type_dir) [
          | true ↦ ok (not_file, fs)
          | false ↦ rewrite_file now size buf i s fs
        ]
        | none ↦ (do
          found ← parents_exist path fs.entry_v
          elim found [
            | false ↦ ok (path_not_found, fs)
            | true ↦ elim (find_null 0 fs.entry_v) [
              | none ↦ ok (out_of_memory, fs)
              | some i ↦ add_file old now path size buf i fs
            ]
          ])
      ]
    ]

-- `free(fs_EntryV[i]); fs_EntryV[i] = NULL`
unfoldable pub drop_entry : ℕ → Stored → Fs → Run Fs
drop_entry i s fs = do
  memory ← free s.address fs.memory
  v ← store fs.entry_v i none
  ok (record fs { entry_v = v; memory = memory })

-- The path of a directory, with a '/' at its end.
abbrev pub as_dir : List ℕ → List ℕ
as_dir path = if last_is 47 path then path else path ++ 47 ∷ []

-- An entry inside the directory.
abbrev pub inside : List ℕ → Entry → Bool
inside dir ent = below dir ent && ltb (length dir) (length ent.name)

unfoldable pub remove : List ℕ → Fs → Run (ℤ × Fs)
remove path fs =
    if not fs.init_lock
    then ok (not_init, fs)
    else if text_eq path (47 ∷ [])
    then ok (failure, fs)
    else elim (find_entry (named path) 0 fs.entry_v) [
      | none ↦ ok (entry_not_found, fs)
      | some (i, s) ↦ elim (s.entry.type == type_dir) [
        | false ↦ (do fs' ← drop_entry i s fs; ok (success, fs'))
        | true ↦ elim (find_entry (inside (as_dir path)) 0 fs.entry_v) [
          | some t ↦ ok (dir_not_empty, fs)
          | none ↦ (do fs' ← drop_entry i s fs; ok (success, fs'))
        ]
      ]
    ]

-- The loop of `fs_bulkRemove` over the table.
unfoldable pub bulk_from :
    List ℕ → List (Option Stored) → Memory → Run (List (Option Stored) × Memory)
bulk_from path [] memory = ok ([], memory)
bulk_from path (none ∷ v) memory = do
  (v', memory') ← bulk_from path v memory
  ok (none ∷ v', memory')
bulk_from path (some s ∷ v) memory = elim (below path s.entry) [
  | false ↦ (do (v', memory') ← bulk_from path v memory; ok (some s ∷ v', memory'))
  | true ↦ (do
    memory' ← free s.address memory
    (v', memory'') ← bulk_from path v memory'
    ok (none ∷ v', memory''))
]

unfoldable pub bulk_remove : List ℕ → Fs → Run (ℤ × Fs)
bulk_remove path fs =
    if not fs.init_lock then ok (not_init, fs) else elim (find_entry (named path) 0 fs.entry_v) [
      | none ↦ ok (path_not_found, fs)
      | some (i, s) ↦ elim (s.entry.type == type_dir) [
        | false ↦ remove path fs
        | true ↦ (do
          (v, memory) ← bulk_from path fs.entry_v fs.memory
          ok (success, record fs { entry_v = v; memory = memory }))
      ]
    ]

-- An allocation of `corefs_init`, which panics without memory.
unfoldable pub need : Run (ℕ × Memory) → Run (ℕ × Memory)
need r = do (address, memory) ← r; if address == 0 then panic else ok (address, memory)

unfoldable pub corefs_init : Entry → Date → Fs → Run (ℤ × Fs)
corefs_init old now fs = if fs.init_lock then ok (failure, fs) else do
  (table, m1) ← need (calloc max_entcount 4 fs.memory)
  (root, m2) ← need (malloc sizeof_entry m1)
  (dirent, m3) ← need (malloc (max_entcount * 4) m2)
  (buffer, m4) ← need (malloc max_pathlen m3)
  ok (
    success,
    record {
      init_lock = true;
      entry_v =
          some (record { address = root; entry = fresh_entry old now (47 ∷ []) type_dir })
          ∷ replicate (max_entcount - 1) none;
      memory = record m4 { bytes = put_entry now (47 ∷ []) type_dir root m4.bytes };
    },
  )
