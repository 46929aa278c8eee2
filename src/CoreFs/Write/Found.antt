-- ===== src/CoreFs/Write/Found.antt =====
-- The entry that `fs_writeFile` of source/kernel/corefs.c has stored, found and read.
use deputy_kernel.Base.{
  ℕ, zero, suc, ◌+◌, ◌<◌, ◌≡◌, refl, ap, ◌∙◌, Bool, true, false, List, [], ◌∷◌, Option, none, some,
  arith, length, set, get_elem?, ok, store-set,
}
use deputy_kernel.CoreFs.{
  Entry, Stored, Date, Fs, header_size, type_file, text_eq, is_empty, named, find_entry, find_null,
}
use deputy_kernel.CoreFs.Header.{atime_offset, put_date, touch}
use deputy_kernel.CoreFs.Change.{read_file}

pub find_null-at :
    (v : List (Option Stored)) (k i : ℕ)
    → find_null k v ≡ some i
    → (j : ℕ) × (i ≡ k + j) × (get_elem? v j ≡ some none)
unfolding find_null
find_null-at [] k i e = absurd (ground (arith, e))
find_null-at (none ∷ v) k i e = (0, ground (arith, e), refl)
find_null-at (some s ∷ v) k i e =
    let (j, q, at) = find_null-at v (suc k) i e in (suc j, omega arith, at)

pub text_eq_refl : (s : List ℕ) → text_eq s s ≡ true
unfolding text_eq
text_eq_refl [] = refl
text_eq_refl (c ∷ s) = ground (arith, text_eq_refl s)

pub named_self :
    (path : List ℕ) (s : Stored)
    → s.entry.name ≡ path
    → is_empty path ≡ false
    → named path s.entry ≡ true
unfolding named
named_self path s e h = rw (e, h, text_eq_refl path) refl

-- The only entry with the property is the one just stored.
pub find_entry-only :
    (test : Entry → Bool) (v : List (Option Stored)) (k i : ℕ) (s : Stored)
    → ((j : ℕ) (t : Stored) → get_elem? v j ≡ some (some t) → test t.entry ≡ false)
    → i < length v
    → test s.entry ≡ true
    → find_entry test k (set v i (some s)) ≡ some (k + i, s)
unfolding find_entry
find_entry-only test [] k i s none_has h e = absurd (omega arith)
find_entry-only test (o ∷ v) k zero s none_has h e = rw e (ap (λ x. some (x, s)) (omega arith))
find_entry-only test (none ∷ v) k (suc i) s none_has h e =
    find_entry-only test v (suc k) i s (λ j t at. none_has (suc j) t at) (omega arith) e
    ∙ ap (λ x. some (x, s)) (omega arith)
find_entry-only test (some t ∷ v) k (suc i) s none_has h e = rw (none_has 0 t refl) (
    find_entry-only test v (suc k) i s (λ j u at. none_has (suc j) u at) (omega arith) e
    ∙ ap (λ x. some (x, s)) (omega arith))

-- Reading a file that is not mounted.
pub read_file-plain :
    (now : Date) (path : List ℕ) (mount_v : Option (List ℕ)) (fs : Fs) (i : ℕ) (s : Stored)
    → fs.init_lock ≡ true
    → find_entry (named path) 0 fs.entry_v ≡ some (i, s)
    → i < length fs.entry_v
    → s.entry.type ≡ type_file
    → s.entry.ftype ≡ type_file
    → read_file now path mount_v fs
      ≡ ok (
        some (s.address + header_size),
        record fs {
          entry_v = set fs.entry_v i (some (record s { entry = record (s.entry) { atime = now } }));
          memory = record (fs.memory) {
            bytes = put_date now (s.address + atime_offset) fs.memory.bytes;
          };
        },
      )
unfolding read_file touch
read_file-plain now path mount_v fs i s lock found h plain plain' =
    let put =
      store-set fs.entry_v i (some (record s { entry = record (s.entry) { atime = now } })) h in
    ground (arith, lock, found, plain, plain', put)
