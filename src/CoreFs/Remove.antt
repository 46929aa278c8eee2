-- ===== src/CoreFs/Remove.antt =====
-- `fs_remove` of source/kernel/corefs.c, on every branch.
use deputy_kernel.Base.{
  ℕ, ◌≡◌, refl, sym, ap, subst, ◌∙◌, true, false, List, [], ◌∷◌, Option, none, some, arith, ◌==◌,
  set, get_elem?, get_elem?-set_self, get_elem?-set_ne, lt-length_of_get_elem?, Bool-cases,
  Option-cases, inl, inr, ℤ, ok, ok-injective, store-set, ℕ_discrete,
}
use deputy_kernel.Memory.{free}
use deputy_kernel.Memory.Lifecycle.{free-IsValid}
use deputy_kernel.Memory.Malloc.{IsValid}
use deputy_kernel.CoreFs.{
  Stored, Fs, type_dir, text_eq, named, find_entry, index, success, failure, entry_not_found,
  dir_not_empty,
}
use deputy_kernel.CoreFs.Change.{remove, drop_entry, inside, as_dir}
use deputy_kernel.CoreFs.Lookup.{
  find_entry-Found, none≢some, some-injective, find_entry-none, find_entry-absent, text_eq-eq,
  named-name,
}

-- After `corefs_init`.
pub record IsFs (fs : Fs) : Type 0 where
  pub started : fs.init_lock ≡ true
  pub memory : IsValid fs.memory

-- No two entries have one name.
pub record IsUnique (fs : Fs) : Type 0 where
  pub same_place :
      (i j : ℕ) (s t : Stored)
      → get_elem? fs.entry_v i ≡ some (some s)
      → get_elem? fs.entry_v j ≡ some (some t)
      → s.entry.name ≡ t.entry.name
      → i ≡ j

-- Nothing in the table lies in the directory.
pub Vacant : List ℕ → Fs → Type 0
Vacant dir fs =
    (j : ℕ) (t : Stored) → get_elem? fs.entry_v j ≡ some (some t) → inside dir t.entry ≡ false

-- How a removal ends.
pub data Removed (path : List ℕ) (fs : Fs) : ℤ × Fs → Type 0 where
  root : path ≡ 47 ∷ [] → Removed path fs (failure, fs)
  absent :
      ((j : ℕ) (s : Stored) → get_elem? fs.entry_v j ≡ some (some s) → named path s.entry ≡ false)
      → Removed path fs (entry_not_found, fs)
  occupied :
      (j : ℕ) (t : Stored)
      → get_elem? fs.entry_v j ≡ some (some t)
      → inside (as_dir path) t.entry ≡ true
      → Removed path fs (dir_not_empty, fs)
  gone :
      (i : ℕ) (s : Stored) (fs' : Fs)
      → get_elem? fs.entry_v i ≡ some (some s)
      → named path s.entry ≡ true
      → (s.entry.type ≡ type_dir → Vacant (as_dir path) fs)
      → fs'.entry_v ≡ set fs.entry_v i none
      → free s.address fs.memory ≡ ok fs'.memory
      → IsValid fs'.memory
      → fs'.init_lock ≡ true
      → Removed path fs (success, fs')

-- The steps of the function.
module _ (path : List ℕ) (fs : Fs) (lock : fs.init_lock ≡ true) where
  remove-root : text_eq path (47 ∷ []) ≡ true → remove path fs ≡ ok (failure, fs)
  unfolding remove
  remove-root e = ground (arith, lock, e)

  module _ (ne : text_eq path (47 ∷ []) ≡ false) where
    remove-absent :
        find_entry (named path) 0 fs.entry_v ≡ none → remove path fs ≡ ok (entry_not_found, fs)
    unfolding remove
    remove-absent e = ground (arith, lock, ne, e)

    module _ (i : ℕ) (s : Stored) (found : find_entry (named path) 0 fs.entry_v ≡ some (i, s)) where
      remove-other :
          {fs' : Fs}
          → (s.entry.type == type_dir) ≡ false
          → drop_entry i s fs ≡ ok fs'
          → remove path fs ≡ ok (success, fs')
      unfolding remove
      remove-other e f = ground (arith, lock, ne, found, e, f)

      remove-dir :
          {fs' : Fs}
          → (s.entry.type == type_dir) ≡ true
          → find_entry (inside (as_dir path)) 0 fs.entry_v ≡ none
          → drop_entry i s fs ≡ ok fs'
          → remove path fs ≡ ok (success, fs')
      unfolding remove
      remove-dir e g f = ground (arith, lock, ne, found, e, g, f)

      remove-occupied :
          {o : ℕ × Stored}
          → (s.entry.type == type_dir) ≡ true
          → find_entry (inside (as_dir path)) 0 fs.entry_v ≡ some o
          → remove path fs ≡ ok (dir_not_empty, fs)
      unfolding remove
      remove-occupied e g = ground (arith, lock, ne, found, e, g)

-- `free` never faults, and the entry's place is in the table.
drop_entry-ok :
    (i : ℕ) (s : Stored) {fs : Fs}
    → IsFs fs
    → get_elem? fs.entry_v i ≡ some (some s)
    → (fs' : Fs) × (drop_entry i s fs ≡ ok fs')
      × (fs'.entry_v ≡ set fs.entry_v i none)
      × (free s.address fs.memory ≡ ok fs'.memory)
      × IsValid fs'.memory
      × (fs'.init_lock ≡ true)
unfolding drop_entry
drop_entry-ok i s {fs} v at =
    let (memory, run, w) = free-IsValid s.address v.memory in
    (
      record fs { entry_v = set fs.entry_v i none; memory = memory },
      rw (run, store-set fs.entry_v i none (lt-length_of_get_elem? fs.entry_v i at)) refl,
      refl,
      run,
      w,
      v.started,
    )

found-Removed :
    (path : List ℕ) {fs : Fs} (i : ℕ) (s : Stored)
    → IsFs fs
    → text_eq path (47 ∷ []) ≡ false
    → find_entry (named path) 0 fs.entry_v ≡ some (i, s)
    → get_elem? fs.entry_v i ≡ some (some s)
    → named path s.entry ≡ true
    → (r : ℤ × Fs) × (remove path fs ≡ ok r) × Removed path fs r
unfolding Vacant
found-Removed path {fs} i s v ne found at name =
    let (fs', run, same, freed, memory, lock) = drop_entry-ok i s v at in
    elim (Bool-cases (s.entry.type == type_dir)) [
      | inr e ↦ (
        (success, fs'),
        remove-other path fs v.started ne i s found e run,
        gone i s fs' at name (λ q. absurd (ground (arith, e, q))) same freed memory lock,
      )
      | inl e ↦ elim (Option-cases (find_entry (inside (as_dir path)) 0 fs.entry_v)) [
        | inl g ↦ (
          (success, fs'),
          remove-dir path fs v.started ne i s found e g run,
          gone i s fs' at name (λ q. find_entry-none (inside (as_dir path)) 0 fs.entry_v g) same
              freed memory lock,
        )
        | inr ((k, t), g) ↦
            let f = find_entry-Found (inside (as_dir path)) 0 fs.entry_v k t g in
            (
              (dir_not_empty, fs),
              remove-occupied path fs v.started ne i s found e g,
              occupied f.place t f.at f.holds,
            )
      ]
    ]

-- `fs_remove` of any path on a file system that is set up over a valid memory returns, in one of
-- four ways: the root is refused; no entry has the name; the table has an entry inside the
-- directory, and nothing is changed; or just the entry of that name is cleared, the memory is
-- that of `free` of its address and valid, and if it was a directory, nothing in the table was
-- inside it.
pub remove-Removed :
    (path : List ℕ) {fs : Fs} → IsFs fs → (r : ℤ × Fs) × (remove path fs ≡ ok r) × Removed path fs r
remove-Removed path {fs} v = elim (Bool-cases (text_eq path (47 ∷ []))) [
  | inl e ↦ ((failure, fs), remove-root path fs v.started e, root (text_eq-eq path (47 ∷ []) e))
  | inr ne ↦ elim (Option-cases (find_entry (named path) 0 fs.entry_v)) [
    | inl g ↦ (
      (entry_not_found, fs),
      remove-absent path fs v.started ne g,
      absent (find_entry-none (named path) 0 fs.entry_v g),
    )
    | inr ((k, s), g) ↦
        let f = find_entry-Found (named path) 0 fs.entry_v k s g in
        let e : f.place ≡ k = omega (arith, f.offset) in
        found-Removed path k s v ne g (subst (λ x. get_elem? fs.entry_v x ≡ some (some s)) e f.at)
          f.holds
  ]
]

absent_after :
    (path : List ℕ) {fs : Fs} (v' : List (Option Stored)) (i : ℕ) (s : Stored)
    → IsUnique fs
    → get_elem? fs.entry_v i ≡ some (some s)
    → named path s.entry ≡ true
    → v' ≡ set fs.entry_v i none
    → (j : ℕ) (t : Stored) → get_elem? v' j ≡ some (some t)
    → named path t.entry ≡ false
absent_after path {fs} v' i s u at name same j t at' = elim (ℕ_discrete i j) [
  | yes e ↦
      let empty : get_elem? (set fs.entry_v i none) j ≡ some none =
        subst (λ k. get_elem? (set fs.entry_v i none) k ≡ some none) e
          (get_elem?-set_self fs.entry_v i none (lt-length_of_get_elem? fs.entry_v i at)) in
      absurd (
        none≢some t
          (some-injective none (some t) (sym empty ∙ ap (λ v. get_elem? v j) (sym same) ∙ at')))
  | no ne ↦ elim (Bool-cases (named path t.entry)) [
    | inr h ↦ h
    | inl h ↦
        let before =
          sym (get_elem?-set_ne fs.entry_v i j none ne)
          ∙ ap (λ v. get_elem? v j) (sym same)
          ∙ at' in
        let names = named-name path s.entry name ∙ sym (named-name path t.entry h) in
        absurd (ne (u.same_place i j s t at before names))
  ]
]

index_absent :
    (path : List ℕ) (fs : Fs)
    → fs.init_lock ≡ true
    → find_entry (named path) 0 fs.entry_v ≡ none
    → index path fs ≡ entry_not_found
unfolding index
index_absent path fs lock e = ground (arith, lock, e)

Removed-index :
    {path : List ℕ} {fs : Fs} {r : ℤ × Fs}
    → IsUnique fs
    → Removed path fs r
    → r.0 ≡ success
    → index path r.1 ≡ entry_not_found
Removed-index u (root e) q = absurd (ground (arith, q))
Removed-index u (absent h) q = absurd (ground (arith, q))
Removed-index u (occupied j t at h) q = absurd (ground (arith, q))
Removed-index {path} {fs} u (gone i s fs' at name vacant same freed memory lock) q =
    index_absent path fs' lock (
      find_entry-absent (named path) 0 fs'.entry_v
        (absent_after path fs'.entry_v i s u at name same))

-- Where no two entries have one name, a path that `fs_remove` has removed, on a file system that
-- is set up over a valid memory, is not found by `fs_index`.
pub index-remove :
    (path : List ℕ) {fs : Fs} (fs' : Fs)
    → IsFs fs
    → IsUnique fs
    → remove path fs ≡ ok (success, fs')
    → index path fs' ≡ entry_not_found
index-remove path {fs} fs' v u e =
    let (r, run, x) = remove-Removed path v in
    Removed-index u (subst (Removed path fs) (ok-injective r (success, fs') (sym run ∙ e)) x) refl
