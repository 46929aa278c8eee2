-- ===== src/Boot/Main/Devices.antt =====
-- What becomes of a device file.
use deputy_kernel.Base.{
  ℕ, ◌+◌, ◌≡◌, refl, ap, sym, subst, ◌∙◌, arith, true, not, List, get_elem?, set, none, some, Run,
  ok, fault, panic, ◌>>=◌, bind-ok, ok-injective, load, load-get_elem?, lt-length_of_get_elem?,
  store-set, Bool-cases, Option-cases, inl, inr, if◌then◌else◌,
}
use deputy_kernel.Memory.{blk_size}
use deputy_kernel.CoreFs.{Date, Entry, Stored, Fs, find_entry, named, stat}
use deputy_kernel.CoreFs.Header.{touch}
use deputy_kernel.CoreFs.Change.{write_file}
use deputy_kernel.CoreFs.Lookup.{find_entry-Found, find_entry-set}
use deputy_kernel.IoCall.{type_chardev, rdonly}
use deputy_kernel.IoCall.Descriptors.{succeeded}
use deputy_kernel.Boot.Main.{as_device, put_device, device_file}

-- A file of this name is there, and is a device to read from.
pub record IsDeviceFile (path : List ℕ) (fs : Fs) : Type 0 where
  pub number : ℕ
  pub stored : Stored
  pub found : find_entry (named path) 0 fs.entry_v ≡ some (number, stored)
  pub ftype : stored.entry.ftype ≡ type_chardev
  pub devperm : stored.entry.devperm ≡ rdonly

module _ (old : Entry) (now : Date) (page : ℕ) (path : List ℕ) where
  change_entry : Fs → Run Fs
  change_entry fs = elim (stat path fs) [
    | none ↦ panic
    | some i ↦
        ◌>>=◌ {B = Fs} (load fs.entry_v i)
          (λ slot. elim slot [ none ↦ fault | some s ↦ touch i s as_device put_device fs ])
  ]

  device_file-ok :
      (fs fs' : Fs)
      → device_file old now page path fs ≡ ok fs'
      → (mid : Fs) × (change_entry mid ≡ ok fs')
  unfolding device_file change_entry
  device_file-ok fs fs' run =
      let ((status, mid), first, rest) =
        bind-ok (write_file old now path blk_size page fs)
          (λ r. if not (succeeded r.0) then panic else change_entry r.1) fs' run in
      elim (Bool-cases (succeeded status)) [
        | inl h ↦ (mid, ground (arith, h, rest))
        | inr h ↦ absurd (ground (arith, h, rest))
      ]

  abbrev changed : Stored → Stored
  changed s = record s { entry = as_device s.entry }

  abbrev device_at : Fs → ℕ → Stored → Fs
  device_at fs i s = record fs {
    entry_v = set fs.entry_v i (some (changed s));
    memory = record (fs.memory) { bytes = put_device s.address fs.memory.bytes };
  }

  touch-set :
      (fs : Fs) (i : ℕ) (s : Stored)
      → get_elem? fs.entry_v i ≡ some (some s)
      → touch i s as_device put_device fs ≡ ok (device_at fs i s)
  unfolding touch
  touch-set fs i s at =
      rw (store-set fs.entry_v i (some (changed s)) (lt-length_of_get_elem? fs.entry_v i at)) refl

  change_entry-set :
      (fs : Fs) (i : ℕ) (s : Stored)
      → fs.init_lock ≡ true
      → find_entry (named path) 0 fs.entry_v ≡ some (i, s)
      → get_elem? fs.entry_v i ≡ some (some s)
      → change_entry fs ≡ ok (device_at fs i s)
  unfolding change_entry stat
  change_entry-set fs i s lock found at =
      ground (arith, lock, found, load-get_elem? fs.entry_v i at, touch-set fs i s at)

  change_entry-stat :
      (fs fs' : Fs)
      → change_entry fs ≡ ok fs'
      → (fs.init_lock ≡ true) × ((r : ℕ × Stored) × (find_entry (named path) 0 fs.entry_v ≡ some r))
  unfolding change_entry stat
  change_entry-stat fs fs' run = elim (Bool-cases fs.init_lock) [
    | inr h ↦ absurd (ground (arith, h, run))
    | inl h ↦ elim (Option-cases (find_entry (named path) 0 fs.entry_v)) [
      | inl out ↦ absurd (ground (arith, h, out, run))
      | inr (r, found) ↦ (h, (r, found))
    ]
  ]

  change_entry-IsDeviceFile : (fs fs' : Fs) → change_entry fs ≡ ok fs' → IsDeviceFile path fs'
  unfolding named
  change_entry-IsDeviceFile fs fs' run =
      let (lock, ((i, s), found)) = change_entry-stat fs fs' run in
      let f = find_entry-Found (named path) 0 fs.entry_v i s found in
      let z : 0 + i ≡ i = omega arith in
      let e : f.place ≡ i = omega (arith, f.offset) in
      let at : get_elem? fs.entry_v i ≡ some (some s) =
        ap (λ n. get_elem? fs.entry_v n) (sym e) ∙ f.at in
      let same =
        ok-injective (device_at fs i s) fs' (sym (change_entry-set fs i s lock found at) ∙ run) in
      subst (λ x. IsDeviceFile path x) same
        (record {
          number = i;
          stored = changed s;
          found =
              find_entry-set (named path) 0 fs.entry_v i s (changed s)
                (found ∙ ap (λ n. some (n, s)) (sym z)) f.holds
              ∙ ap (λ n. some (n, changed s)) z;
          ftype = refl;
          devperm = refl;
        })

  -- A device file that is made without a panic is there, and is a device to read from.
  pub device_file-IsDeviceFile :
      (fs fs' : Fs) → device_file old now page path fs ≡ ok fs' → IsDeviceFile path fs'
  device_file-IsDeviceFile fs fs' run =
      let (mid, changed_run) = device_file-ok fs fs' run in
      change_entry-IsDeviceFile mid fs' changed_run
