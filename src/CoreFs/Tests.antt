-- ===== src/CoreFs/Tests.antt =====
-- Runs of source/kernel/corefs.c, and its theorems at concrete tables.
use deputy_kernel.Base.{
  ℕ, zero, suc, ◌+◌, ◌<◌, ◌≤◌, ◌≡◌, ◌⊎◌, refl, true, List, [], ◌∷◌, arith, none, some, ok,
  get_elem?, replicate, pos, ℤ, load, store,
}
use deputy_kernel.Memory.{Memory, Block, unused, owner, inner, malloc, free, block_count}
use deputy_kernel.Memory.Layout.{done, skip, region}
use deputy_kernel.Memory.Malloc.{IsValid, Fits}
use deputy_kernel.Utils.Buffers.{ncopy}
use deputy_kernel.Utils.Strings.Split.{split, split_loop, split_end, end_token, add_char, put_char}
use deputy_kernel.CoreFs.{
  Date, Entry, Stored, Fs, type_dir, success, entry_not_found, text_eq, is_prefix, is_empty, named,
  below, find_entry, find_null, last_is, index, header_size,
}
use deputy_kernel.CoreFs.Change.{
  fresh_entry, write_file, read_file, add_file, place_file, parents_exist, parents_from, join,
  text_of, remove, drop_entry,
}
use deputy_kernel.CoreFs.Header.{atime_offset, put_date, put_file}
use deputy_kernel.CoreFs.Remove.{IsFs, IsUnique, Removed, remove-Removed}
use deputy_kernel.CoreFs.Write.{read_file-write_file}
use deputy_kernel.CoreFs.Write.Placed.{new_file}

abbrev now : Date
now = record { sec = 1; min = 2; hour = 3; day = 4; mon = 5; year = 2025 }

abbrev old : Entry
old = record {
  name = [];
  user = pos 0;
  group = pos 0;
  size = 0;
  ctime = now;
  mtime = now;
  atime = now;
  perm = 0;
  type = 0;
  ftype = 0;
  devperm = 0;
  mountslot = pos 0;
}

-- The root directory in the first of six blocks.
abbrev root : Stored
root = record { address = 0x10000; entry = fresh_entry old now (47 ∷ []) type_dir }

abbrev blocks : List Block → Memory
blocks v = record {
  init_lock = true;
  space = 0x10000;
  limit = 0x16000;
  block_v = v;
  block_c = 6;
  bytes = λ a. a;
}

abbrev before : Fs
before = record {
  init_lock = true;
  entry_v = some root ∷ none ∷ none ∷ [];
  memory = blocks (owner 1 ∷ replicate 5 unused);
}

before-IsValid : IsValid before.memory
before-IsValid = record {
  started = refl;
  table = refl;
  above_null = omega arith;
  aligned = refl;
  end = refl;
  fits = omega arith;
  layout = region 0 (skip (skip (skip (skip (skip done)))));
}

-- "/a"
abbrev path : List ℕ
path = 47 ∷ 97 ∷ []

-- The file of three bytes, in the next two blocks.
abbrev after : Fs
after = record {
  init_lock = true;
  entry_v = some root ∷ some (new_file old now path 3 0x11000) ∷ none ∷ [];
  memory = record (blocks (owner 1 ∷ owner 2 ∷ inner ∷ unused ∷ unused ∷ unused ∷ [])) {
    bytes = ncopy 0x12000 0x500 3 (put_file now path 3 0x11000 (λ a. a));
  };
}

write_runs : write_file old now path 3 0x500 before ≡ ok (success, after)
unfolding write_file parents_exist parents_from join text_of add_file place_file split split_loop
    split_end end_token add_char put_char text_eq is_prefix is_empty named below find_entry
    find_null last_is malloc load store
write_runs = refl

missing : index path before ≡ entry_not_found
unfolding index find_entry named text_eq is_empty
missing = refl

Fits-file : Fits before.memory (header_size + 3)
unfolding block_count
Fits-file = record { positive = omega arith; no_wrap = omega arith; small = omega arith }

read_file-write_file_example :
    (block : ℕ) × (fs'' : Fs) × (read_file now path none after
      ≡ ok (some (block + header_size), fs''))
    × (fs''.memory
        ≡ record (after.memory) { bytes = put_date now (block + atime_offset) after.memory.bytes })
    × ((block + header_size ≤ 0x500) ⊎ (0x500 + 3 ≤ block)
        → (i : ℕ) → i < 3
        → fs''.memory.bytes (block + header_size + i) ≡ before.memory.bytes (0x500 + i))
read_file-write_file_example =
    read_file-write_file old now now path 3 0x500 none before after refl before-IsValid Fits-file
      missing write_runs

abbrev with_file : Fs
with_file = record {
  init_lock = true;
  entry_v = some root ∷ some (new_file old now path 3 0x11000) ∷ [];
  memory = blocks (owner 1 ∷ owner 2 ∷ inner ∷ unused ∷ unused ∷ unused ∷ []);
}

with_file-IsFs : IsFs with_file
with_file-IsFs = record {
  started = refl;
  memory = record {
    started = refl;
    table = refl;
    above_null = omega arith;
    aligned = refl;
    end = refl;
    fits = omega arith;
    layout = region 0 (region 1 (skip (skip (skip done))));
  };
}

abbrev without_file : Fs
without_file = record {
  init_lock = true;
  entry_v = some root ∷ none ∷ [];
  memory = blocks (owner 1 ∷ replicate 5 unused);
}

remove_runs : remove path with_file ≡ ok (success, without_file)
unfolding remove drop_entry free text_eq is_empty named find_entry load store
remove_runs = refl

with_file-IsUnique : IsUnique with_file
with_file-IsUnique = record { same_place = same }
  where
    same :
        (i j : ℕ) (s t : Stored)
        → get_elem? with_file.entry_v i ≡ some (some s)
        → get_elem? with_file.entry_v j ≡ some (some t)
        → s.entry.name ≡ t.entry.name
        → i ≡ j
    same zero zero s t e f g = refl
    same zero (suc zero) s t e f g = absurd (ground (arith, e, f, g))
    same (suc zero) zero s t e f g = absurd (ground (arith, e, f, g))
    same (suc zero) (suc zero) s t e f g = refl
    same zero (suc (suc j)) s t e f g = absurd (ground (arith, f))
    same (suc zero) (suc (suc j)) s t e f g = absurd (ground (arith, f))
    same (suc (suc i)) j s t e f g = absurd (ground (arith, e))

remove-Removed_example : (r : ℤ × Fs) × (remove path with_file ≡ ok r) × Removed path with_file r
remove-Removed_example = remove-Removed path with_file-IsFs
