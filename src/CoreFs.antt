-- ===== src/CoreFs.antt =====
-- The core file system, source/kernel/corefs.c: a table of entries in memory. A path is a text (the
-- bytes before the NUL), and so is an entry's name; `compare` and `ncompare` of a name are equality
-- and prefix of texts. `now` is what `date` reads from the clock. A file's bytes follow its entry.
pub mod Change
pub mod Header
pub mod Lookup
pub mod Remove
pub mod Write
mod Tests
use deputy_kernel.Base.{
  ℕ, zero, suc, ◌+◌, ◌-◌, ◌*◌, ◌/◌, ◌%◌, ◌^◌, bit_and, Bool, true, false, not, ◌||◌, ◌&&◌, List, [],
  ◌∷◌, ◌++◌, ◌==◌, ltb, leb, if◌then◌else◌, Option, none, some, Run, ok, fault, panic, ◌>>=◌, load,
  load_at, store, replicate, length, take, get_elem?, get_or, ℤ, pos, negsuc,
}
use deputy_kernel.Memory.{Memory, malloc, calloc, realloc, free}
use deputy_kernel.Utils.Buffers.{ncopy}
use deputy_kernel.Utils.Strings.Split.{split}

-- `FS_MAX_PATHLEN`, `FS_MAX_ENTCOUNT`, `sizeof(fs_Entry_t)`, `MEMORY_BLKSIZE`, the types of entries.
abbrev pub max_pathlen : ℕ
max_pathlen = 3840

abbrev pub max_entcount : ℕ
max_entcount = 16384

abbrev pub sizeof_entry : ℕ
sizeof_entry = 3888

abbrev pub header_size : ℕ
header_size = 4096

abbrev pub type_file : ℕ
type_file = 0

abbrev pub type_dir : ℕ
type_dir = 5

abbrev pub type_mounted : ℕ
type_mounted = 7

-- The status codes `FS_STS_...`.
abbrev pub success : ℤ
success = pos 0

abbrev pub failure : ℤ
failure = negsuc 0

abbrev pub not_init : ℤ
not_init = negsuc 1

abbrev pub already_exists : ℤ
already_exists = negsuc 2

abbrev pub out_of_memory : ℤ
out_of_memory = negsuc 3

abbrev pub path_not_found : ℤ
path_not_found = negsuc 4

abbrev pub not_file : ℤ
not_file = negsuc 6

abbrev pub entry_not_found : ℤ
entry_not_found = negsuc 7

abbrev pub dir_not_empty : ℤ
dir_not_empty = negsuc 8

abbrev pub file_exists : ℤ
file_exists = negsuc 9

abbrev pub dir_exists : ℤ
dir_exists = negsuc 10

-- `date_t`
pub record Date : Type 0 where
  pub sec : ℕ
  pub min : ℕ
  pub hour : ℕ
  pub day : ℕ
  pub mon : ℕ
  pub year : ℕ

-- `fs_Entry_t`
pub record Entry : Type 0 where
  pub name : List ℕ
  pub user : ℤ
  pub group : ℤ
  pub size : ℕ
  pub ctime : Date
  pub mtime : Date
  pub atime : Date
  pub perm : ℕ
  pub type : ℕ
  pub ftype : ℕ
  pub devperm : ℕ
  pub mountslot : ℤ

-- An entry and its address.
pub record Stored : Type 0 where
  pub address : ℕ
  pub entry : Entry

-- `fs_InitLock`, `fs_EntryV` with `none` for NULL, and the memory manager.
pub record Fs : Type 0 where
  pub init_lock : Bool
  pub entry_v : List (Option Stored)
  pub memory : Memory

-- `compare(s, t) == 0`
unfoldable pub text_eq : List ℕ → List ℕ → Bool
text_eq [] [] = true
text_eq [] (d ∷ t) = false
text_eq (c ∷ s) [] = false
text_eq (c ∷ s) (d ∷ t) = c == d && text_eq s t

-- `ncompare(t, s, length(s)) == 0`
unfoldable pub is_prefix : List ℕ → List ℕ → Bool
is_prefix [] t = true
is_prefix (c ∷ s) [] = false
is_prefix (c ∷ s) (d ∷ t) = c == d && is_prefix s t

unfoldable pub is_empty : List ℕ → Bool
is_empty [] = true
is_empty (c ∷ s) = false

-- `ent->name[0] != '\0' && compare(ent->name, path) == 0`
unfoldable pub named : List ℕ → Entry → Bool
named path ent = not (is_empty ent.name) && text_eq ent.name path

-- `ent->name[0] != '\0' && ncompare(ent->name, path, length(path)) == 0`
unfoldable pub below : List ℕ → Entry → Bool
below path ent = not (is_empty ent.name) && is_prefix path ent.name

-- The loops that stop at the first entry with a property, from index `i` on.
unfoldable pub find_entry : (Entry → Bool) → ℕ → List (Option Stored) → Option (ℕ × Stored)
find_entry test i [] = none
find_entry test i (none ∷ v) = find_entry test (suc i) v
find_entry test i (some s ∷ v) = elim (test s.entry) [
  | true ↦ some (i, s)
  | false ↦ find_entry test (suc i) v
]

-- The loops that collect the indexes of the entries with a property.
unfoldable pub list_entries : (Entry → Bool) → ℕ → List (Option Stored) → List ℕ
list_entries test i [] = []
list_entries test i (none ∷ v) = list_entries test (suc i) v
list_entries test i (some s ∷ v) = elim (test s.entry) [
  | true ↦ i ∷ list_entries test (suc i) v
  | false ↦ list_entries test (suc i) v
]

unfoldable pub find_null : ℕ → List (Option Stored) → Option ℕ
find_null i [] = none
find_null i (none ∷ v) = some i
find_null i (some s ∷ v) = find_null (suc i) v

unfoldable pub index : List ℕ → Fs → ℤ
index path fs = if not fs.init_lock then not_init else elim (find_entry (named path) 0 fs.entry_v) [
  | none ↦ entry_not_found
  | some (i, s) ↦ pos i
]

-- The index of the entry for its pointer.
unfoldable pub stat : List ℕ → Fs → Option ℕ
stat path fs =
    if not fs.init_lock
    then none
    else elim (find_entry (named path) 0 fs.entry_v) [ none ↦ none | some (i, s) ↦ some i ]

-- The loop of `fs_parent`: where the last '/' ends before the last character.
unfoldable pub parent_end : List ℕ → ℕ → ℕ → ℕ
parent_end [] i end = end
parent_end (c ∷ []) i end = end
parent_end (c ∷ d ∷ path) i end = parent_end (d ∷ path) (suc i) (if c == 47 then suc i else end)

unfoldable pub parent : List ℕ → Fs → Option ℕ
parent path fs =
    if not fs.init_lock || text_eq path (47 ∷ [])
    then none
    else stat (take (parent_end path 0 0) path) fs

-- `fs_EntryV[entry]`
unfoldable pub dirent : ℤ → Fs → Run (Option Stored)
dirent entry fs = if not fs.init_lock then ok none else load_at fs.entry_v entry

unfoldable pub int_eq : ℤ → ℤ → Bool
int_eq (pos a) (pos b) = a == b
int_eq (negsuc a) (negsuc b) = a == b
int_eq a b = false

-- The result is an `unsigned char`: the status for a missing initialisation is 254, which is true.
unfoldable pub check_perm : Fs → Option Entry → (uid gid : ℤ) → ℕ → ℕ
check_perm fs none uid gid perm = if not fs.init_lock then 254 else 0
check_perm fs (some ent) uid gid perm =
    let granted =
      if int_eq uid ent.user
      then ent.perm / 64
      else if int_eq gid ent.group
      then ent.perm / 8
      else ent.perm in
    if not fs.init_lock then 254 else if bit_and (bit_and granted 7) perm == 0 then 0 else 1

unfoldable pub last_is : ℕ → List ℕ → Bool
last_is c [] = false
last_is c (d ∷ []) = d == c
last_is c (d ∷ e ∷ s) = last_is c (e ∷ s)
