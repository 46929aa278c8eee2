-- ===== src/CoreFs/Write/Placed.antt =====
-- The end of `fs_writeFile` of source/kernel/corefs.c for a new file.
use deputy_kernel.Base.{
  ℕ, ◌+◌, ◌<◌, ◌≡◌, ◌≢◌, ap, Bool, true, false, not, ◌&&◌, ◌||◌, List, none, some, arith, ◌==◌, leb,
  length, set, Bool-cases, Option-cases, inl, inr, ℤ, negsuc, Run, ok, ok-injective, ◌>>=◌,
  store-set, ℕ_discrete,
}
use deputy_kernel.Memory.{Memory}
use deputy_kernel.Utils.Buffers.{ncopy}
use deputy_kernel.CoreFs.{
  Entry, Stored, Date, Fs, max_pathlen, header_size, type_file, is_empty, last_is, named,
  find_entry, find_null, success,
}
use deputy_kernel.CoreFs.Header.{put_file}
use deputy_kernel.CoreFs.Change.{
  write_file, add_file, place_file, parents_exist, dir_for, fresh_entry,
}

pub status-clash :
    (z : ℤ) (fs fs' : Fs) → z ≢ success → ◌≢◌ {A = Run (ℤ × Fs)} (ok (z, fs)) (ok (success, fs'))
status-clash z fs fs' ne e = ne (ap (λ p. p.0) (ok-injective (z, fs) (success, fs') e))

-- The entry that a new file gets.
abbrev pub new_file : Entry → Date → List ℕ → (size address : ℕ) → Stored
new_file old now path size address = record {
  address = address;
  entry = record (fresh_entry old now path type_file) { size = size; ftype = type_file };
}

module _ (old : Entry) (now : Date) (path : List ℕ) (size buf : ℕ) (fs fs' : Fs) where
  pub tail_of : Bool → Run (ℤ × Fs)
  tail_of found = elim found [
    | false ↦ ok (negsuc 4, fs)
    | true ↦ elim (find_null 0 fs.entry_v) [
      | none ↦ ok (negsuc 3, fs)
      | some i ↦ add_file old now path size buf i fs
    ]
  ]

  pub write_file-new :
      fs.init_lock ≡ true
      → find_entry (named path) 0 fs.entry_v ≡ none
      → (is_empty path || last_is 47 path || buf == 0 && not (size == 0)) ≡ false
      → find_entry (dir_for path) 0 fs.entry_v ≡ none
      → write_file old now path size buf fs ≡ (parents_exist path fs.entry_v >>= tail_of)
  unfolding write_file tail_of
  write_file-new lock absent valid no_dir = ground (arith, lock, absent, valid, no_dir)

  pub tail_of-added :
      (found : Bool)
      → tail_of found ≡ ok (success, fs')
      → (i : ℕ) × (find_null 0 fs.entry_v ≡ some i)
        × (add_file old now path size buf i fs ≡ ok (success, fs'))
  unfolding tail_of
  tail_of-added false e = absurd (status-clash (negsuc 4) fs fs' (λ q. ground (arith, q)) e)
  tail_of-added true e = elim (Option-cases (find_null 0 fs.entry_v)) [
    | inl h ↦
        absurd (status-clash (negsuc 3) fs fs' (λ q. ground (arith, q)) (ground (arith, e, h)))
    | inr (i, h) ↦ (i, h, ground (arith, e, h))
  ]

  pub place_file-placed :
      (i address : ℕ) (memory : Memory)
      → i < length fs.entry_v
      → place_file old now path size buf i address memory fs ≡ ok (success, fs')
      → (length path < max_pathlen)
        × (fs' ≡ record fs {
          entry_v = set fs.entry_v i (some (new_file old now path size address));
          memory = record memory {
            bytes =
                ncopy
                  (address + header_size)
                  buf
                  size
                  (put_file now path size address memory.bytes);
          };
        })
  unfolding place_file
  place_file-placed i address memory h e = elim (ℕ_discrete address 0) [
    | yes z ↦ absurd (
        status-clash (negsuc 3) (record fs { memory = memory }) fs' (λ q. ground (arith, q))
          (ground (arith, e, z)))
    | no nz ↦ elim (Bool-cases (leb max_pathlen (length path))) [
      | inl l ↦ absurd (ground (arith, e, l, nz))
      | inr l ↦
          let put = store-set fs.entry_v i (some (new_file old now path size address)) h in
          (ground (arith, l), ground (arith, e, l, nz, put))
    ]
  ]
