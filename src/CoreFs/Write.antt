-- ===== src/CoreFs/Write.antt =====
-- What `fs_readFile` of source/kernel/corefs.c finds after `fs_writeFile` of a new file.
pub mod Placed
pub mod Found
use deputy_kernel.Base.{
  ℕ, ◌+◌, ◌%◌, ◌^◌, ◌<◌, ◌≤◌, ◌≡◌, ◌⊎◌, refl, sym, ap, subst, ◌∙◌, true, false, not, ◌&&◌, ◌||◌,
  List, [], Option, none, some, arith, ◌==◌, length, length-set, set, lt-length_of_get_elem?,
  Bool-cases, Option-cases, inl, inr, negsuc, ok, bind-ok, ◌>>=◌,
}
use deputy_kernel.Memory.{Memory, malloc, block_count}
use deputy_kernel.Memory.Contents.{Outcome-bytes}
use deputy_kernel.Memory.Lifecycle.{malloc-inv}
use deputy_kernel.Memory.Malloc.{IsValid, Fits}
use deputy_kernel.Utils.Buffers.{ncopy}
use deputy_kernel.Utils.Buffers.Laws.{ncopy-copied}
use deputy_kernel.CoreFs.{
  Entry, Stored, Date, Fs, max_pathlen, header_size, is_empty, last_is, named, find_entry, index,
  success, failure, entry_not_found,
}
use deputy_kernel.CoreFs.Change.{
  write_file, read_file, add_file, place_file, parents_exist, dir_for,
}
use deputy_kernel.CoreFs.Header.{atime_offset, put_date, put_file}
use deputy_kernel.CoreFs.Header.Laws.{put_date-outside, put_file-outside}
use deputy_kernel.CoreFs.Lookup.{find_entry-none}
use deputy_kernel.CoreFs.Write.Placed.{
  status-clash, new_file, tail_of, write_file-new, tail_of-added, place_file-placed,
}
use deputy_kernel.CoreFs.Write.Found.{find_null-at, named_self, find_entry-only, read_file-plain}

-- A run of `fs_writeFile` that adds a file, taken apart.
record Added (old : Entry) (now : Date) (path : List ℕ) (size buf : ℕ) (fs fs' : Fs) : Type 0 where
  place : ℕ
  address : ℕ
  memory : Memory
  inside : place < length fs.entry_v
  nonempty : is_empty path ≡ false
  allocated : malloc ((header_size + size) % 2 ^ 32) fs.memory ≡ ok (address, memory)
  result : fs' ≡ record fs {
    entry_v = set fs.entry_v place (some (new_file old now path size address));
    memory = record memory {
      bytes = ncopy (address + header_size) buf size (put_file now path size address memory.bytes);
    };
  }
  short : length path < max_pathlen

module _ (old : Entry) (now : Date) (path : List ℕ) (size buf : ℕ) (fs fs' : Fs)
    (lock : fs.init_lock ≡ true) where
  write_file-invalid :
      (is_empty path || last_is 47 path || buf == 0 && not (size == 0)) ≡ true
      → write_file old now path size buf fs ≡ ok (failure, fs)
  unfolding write_file
  write_file-invalid e = ground (arith, lock, e)

  write_file-dir :
      {found : ℕ × Stored}
      → (is_empty path || last_is 47 path || buf == 0 && not (size == 0)) ≡ false
      → find_entry (dir_for path) 0 fs.entry_v ≡ some found
      → write_file old now path size buf fs ≡ ok (negsuc 10, fs)
  unfolding write_file
  write_file-dir e f = ground (arith, lock, e, f)

  write_file-tail :
      find_entry (named path) 0 fs.entry_v ≡ none
      → write_file old now path size buf fs ≡ ok (success, fs')
      → (is_empty path ≡ false)
        × ((parents_exist path fs.entry_v >>= tail_of old now path size buf fs fs')
            ≡ ok (success, fs'))
  write_file-tail absent e =
      elim (Bool-cases (is_empty path || last_is 47 path || buf == 0 && not (size == 0))) [
        | inl c ↦
            absurd (
              status-clash failure fs fs' (λ q. ground (arith, q)) (sym (write_file-invalid c) ∙ e))
        | inr c ↦ elim (Option-cases (find_entry (dir_for path) 0 fs.entry_v)) [
          | inr (f, d) ↦ absurd (
              status-clash (negsuc 10) fs fs' (λ q. ground (arith, q))
                (sym (write_file-dir c d) ∙ e))
          | inl d ↦ (
            ground (arith, c),
            sym (write_file-new old now path size buf fs fs' lock absent c d) ∙ e,
          )
        ]
      ]

  write_file-Added :
      find_entry (named path) 0 fs.entry_v ≡ none
      → write_file old now path size buf fs ≡ ok (success, fs')
      → Added old now path size buf fs fs'
  unfolding add_file
  write_file-Added absent e =
      let (ne, t) = write_file-tail absent e in
      let (found, split_run, t') =
        bind-ok (parents_exist path fs.entry_v) (tail_of old now path size buf fs fs')
          (success, fs') t in
      let (i, free_at, added) = tail_of-added old now path size buf fs fs' found t' in
      let (j, offset, at) = find_null-at fs.entry_v 0 i free_at in
      let low : i < length fs.entry_v =
        omega (arith, offset, lt-length_of_get_elem? fs.entry_v j at) in
      let ((address, memory), run, placed) =
        bind-ok (malloc ((header_size + size) % 2 ^ 32) fs.memory)
          (λ r. place_file old now path size buf i r.0 r.1 fs) (success, fs') added in
      record {
        place = i;
        address = address;
        memory = memory;
        inside = low;
        nonempty = ne;
        allocated = run;
        result = (place_file-placed old now path size buf fs fs' i address memory low placed).1;
        short = (place_file-placed old now path size buf fs fs' i address memory low placed).0;
      }

index-none :
    (path : List ℕ) (fs : Fs)
    → fs.init_lock ≡ true
    → index path fs ≡ entry_not_found
    → find_entry (named path) 0 fs.entry_v ≡ none
unfolding index
index-none path fs lock e = elim (Option-cases (find_entry (named path) 0 fs.entry_v)) [
  | inl h ↦ h
  | inr ((i, s), h) ↦ absurd (ground (arith, lock, e, h))
]

-- After `fs_writeFile` has added a file (the file system and a valid memory are set up, the entry
-- and its bytes fit in memory, and the path was not in the table), `fs_readFile` of the path
-- gives the address behind the header of a block. If the written buffer begins behind that header
-- or ends in front of the block, the bytes there are those of the buffer before the write.
-- Reading changes the memory only by the access time, at its place in the header.
pub read_file-write_file :
    (old : Entry) (now now' : Date) (path : List ℕ) (size buf : ℕ) (mount_v : Option (List ℕ))
    (fs fs' : Fs)
    → fs.init_lock ≡ true
    → IsValid fs.memory
    → Fits fs.memory (header_size + size)
    → index path fs ≡ entry_not_found
    → write_file old now path size buf fs ≡ ok (success, fs')
    → (block : ℕ) × (fs'' : Fs) × (read_file now' path mount_v fs'
        ≡ ok (some (block + header_size), fs''))
      × (fs''.memory
          ≡ record (fs'.memory) { bytes = put_date now' (block + atime_offset) fs'.memory.bytes })
      × ((block + header_size ≤ buf) ⊎ (buf + size ≤ block)
          → (i : ℕ) → i < size
          → fs''.memory.bytes (block + header_size + i) ≡ fs.memory.bytes (buf + i))
read_file-write_file old now now' path size buf mount_v fs fs' lock valid fits missing e =
    let absent = index-none path fs lock missing in
    let a = write_file-Added old now path size buf fs fs' lock absent e in
    let s = new_file old now path size a.address in
    let v = set fs.entry_v a.place (some s) in
    let found =
      find_entry-only (named path) fs.entry_v 0 a.place s
        (find_entry-none (named path) 0 fs.entry_v absent) a.inside
        (named_self path s refl a.nonempty) in
    let titled = put_file now path size a.address a.memory.bytes in
    let added = record fs {
      entry_v = v;
      memory = record (a.memory) { bytes = ncopy (a.address + header_size) buf size titled };
    } in
    let there : find_entry (named path) 0 v ≡ some (a.place, s) =
      found ∙ ap (λ x. some (x, s)) (omega arith) in
    let read =
      read_file-plain now' path mount_v added a.place s lock there
        (omega (arith, a.inside, length-set fs.entry_v a.place (some s))) refl refl in
    let no_mod : (header_size + size) % 2 ^ 32 ≡ header_size + size = omega (arith, fits.no_wrap) in
    let run = subst (λ n. malloc n fs.memory ≡ ok (a.address, a.memory)) no_mod a.allocated in
    let kept = malloc-inv (header_size + size) (a.address, a.memory) valid fits run in
    (
      a.address,
      record added {
        entry_v = set v a.place (some (record s { entry = record (s.entry) { atime = now' } }));
        memory = record (added.memory) {
          bytes = put_date now' (a.address + atime_offset) added.memory.bytes;
        };
      },
      ap (λ f. read_file now' path mount_v f) a.result ∙ read,
      sym (
          ap
            (λ f. record (f.memory) {
              bytes = put_date now' (a.address + atime_offset) f.memory.bytes;
            })
            a.result),
      λ apart i h.
          put_date-outside now' (a.address + atime_offset) added.memory.bytes
            (a.address + header_size + i) (omega arith)
          ∙ ncopy-copied (a.address + header_size) buf size titled size i h (omega arith)
              (omega (arith, apart))
          ∙ put_file-outside now path size a.address a.memory.bytes (buf + i) a.short
              (omega (arith, apart))
          ∙ Outcome-bytes (block_count (header_size + size)) (buf + i) kept,
    )
