-- ===== src/IoCall/Read.antt =====
-- Which descriptors of source/kernel/iocall.c can be read, and which of them `open` gives.
use deputy_kernel.Base.{
  ℕ, ◌+◌, ◌≡◌, ◌≢◌, refl, ap, sym, ◌∙◌, Bool, true, false, not, ◌||◌, ◌&&◌, List, ◌==◌, leb,
  if◌then◌else◌, Option, none, some, arith, Run, ok, fault, ok-injective, bind-ok, ◌>>=◌, load,
  store, replicate, ℤ, pos, negsuc, minus_one, within, Bool-cases, Option-cases, inl, inr,
}
use deputy_kernel.CoreFs.{max_entcount, success, index, named, find_entry}
use deputy_kernel.CoreFs.Change.{write_file}
use deputy_kernel.IoCall.{trunc, creat, has, Io, Env, FileDesc, max_fd, type_fd, read}
use deputy_kernel.IoCall.Descriptors.{
  closed, reset, create_file, created_index, open_index, open_entry, open_truncated, after_trunc,
  take_desc, find_closed, open_file,
}

-- `read` of any descriptor from 4 to 66 reads in front of the table of descriptors.
pub read-fault :
    (env : Env) (fd : ℤ) (buf count : ℕ) (io : Io)
    → within (type_fd + 1) (type_fd + max_fd) fd ≡ true
    → read env fd buf count io ≡ fault
unfolding read
read-fault env (pos n) buf count io h = ground arith
read-fault env (negsuc n) buf count io h = absurd (ground (arith, h))

-- The table in which every descriptor is closed.
abbrev all_closed : List FileDesc
all_closed = replicate max_fd closed

first_closed : find_closed 0 all_closed ≡ some 0
unfolding find_closed
first_closed = refl

take_desc-first :
    (entry flags : ℕ) (io : Io) (fd : ℤ) (io' : Io)
    → io.file_desc ≡ all_closed
    → take_desc entry flags io ≡ ok (fd, io')
    → fd ≡ pos type_fd
unfolding take_desc load store
take_desc-first entry flags io fd io' e run =
    let there : find_closed 0 io.file_desc ≡ some 0 = ap (λ v. find_closed 0 v) e ∙ first_closed in
    ground (arith, there, e, run)

after_trunc-first :
    (flags entry : ℕ) (status : ℤ) (io : Io) (fd : ℤ) (io' : Io)
    → io.file_desc ≡ all_closed
    → after_trunc flags entry status io ≡ ok (fd, io')
    → fd ≢ minus_one
    → fd ≡ pos type_fd
unfolding after_trunc
after_trunc-first flags entry status io fd io' e run ne =
    ground (arith, run, ne, take_desc-first entry flags io fd io' e)

open_truncated-first :
    (env : Env) (path : List ℕ) (flags entry : ℕ) (created : Bool) (io : Io) (fd : ℤ) (io' : Io)
    → io.file_desc ≡ all_closed
    → open_truncated env path flags entry created io ≡ ok (fd, io')
    → fd ≢ minus_one
    → fd ≡ pos type_fd
unfolding open_truncated
open_truncated-first env path flags entry created io fd io' e run ne =
    let ((status, fs), first, rest) =
      bind-ok
        (if has flags trunc && not created
          then write_file env.old env.now path 0 env.empty io.fs
          else ok (success, io.fs))
        (λ r. after_trunc flags entry r.0 (record io { fs = r.1 })) (fd, io') run in
    after_trunc-first flags entry status (record io { fs = fs }) fd io' e rest ne

open_entry-first :
    (env : Env) (path : List ℕ) (flags entry : ℕ) (created : Bool) (io : Io) (fd : ℤ) (io' : Io)
    → io.file_desc ≡ all_closed
    → open_entry env path flags entry created io ≡ ok (fd, io')
    → fd ≢ minus_one
    → fd ≡ pos type_fd
unfolding open_entry
open_entry-first env path flags entry created io fd io' e run ne =
    let next = open_truncated-first env path flags entry created io fd io' e in
    elim (Option-cases (find_entry (named path) 0 io.fs.entry_v)) [
      | inl h ↦ absurd (ground (arith, run, h))
      | inr ((i, s), h) ↦ ground (arith, run, h, ne, next)
    ]

create_file-kept :
    (env : Env) (path : List ℕ) (flags : ℕ) (io : Io) (r : Option (ℕ × Bool) × Io)
    → create_file env path flags io ≡ ok r
    → r.1.file_desc ≡ io.file_desc
unfolding create_file
create_file-kept env path flags io r run = elim (Bool-cases (has flags creat)) [
  | inr h ↦ ap (λ x. x.1.file_desc) (sym (ok-injective (none, io) r (sym (unmade h) ∙ run)))
  | inl h ↦
      let ((status, fs), first, rest) =
        bind-ok (write_file env.old env.now path 0 env.empty io.fs)
          (λ x. ok (created_index path x.0 (record io { fs = x.1 }), record io { fs = x.1 })) r
          (sym (made h) ∙ run) in
      ap (λ x. x.1.file_desc)
        (sym (
          ok-injective (created_index path status (record io { fs = fs }), record io { fs = fs }) r
            rest))
]
  where
    unmade : has flags creat ≡ false → create_file env path flags io ≡ ok (none, io)
    unmade h = ground (arith, h)

    made :
        has flags creat ≡ true
        → create_file env path flags io
          ≡ ◌>>=◌ {B = Option (ℕ × Bool) × Io}
              (write_file env.old env.now path 0 env.empty io.fs)
              (λ x. ok (created_index path x.0 (record io { fs = x.1 }), record io { fs = x.1 }))
    made h = ground (arith, h)

open_index-kept :
    (env : Env) (path : List ℕ) (flags : ℕ) (io : Io) (status : ℤ) (r : Option (ℕ × Bool) × Io)
    → index path io.fs ≡ status
    → open_index env path flags io ≡ ok r
    → r.1.file_desc ≡ io.file_desc
unfolding open_index
open_index-kept env path flags io (pos i) r e run =
    let found : Option (ℕ × Bool) =
      if i == 0 || leb max_entcount i then none else some (i, false) in
    ap (λ x. x.1.file_desc) (sym (ok-injective (found, io) r (ground (arith, e, run))))
open_index-kept env path flags io (negsuc n) r e run = elim (Bool-cases (n == 7)) [
  | inl h ↦ create_file-kept env path flags io r (ground (arith, e, run, h))
  | inr h ↦ ap (λ x. x.1.file_desc) (sym (ok-injective (none, io) r (ground (arith, e, run, h))))
]

reset-closed : (io : Io) → io.initialized ≡ false → (reset io).file_desc ≡ all_closed
unfolding reset
reset-closed io e = ap (λ b. (if b then io else record io { file_desc = all_closed }).file_desc) e

-- What `open_file` does with the index.
continue_open : Env → List ℕ → ℕ → Option (ℕ × Bool) → Io → Run (ℤ × Io)
continue_open env path flags found io = elim found [
  | none ↦ ok (minus_one, io)
  | some (entry, created) ↦ open_entry env path flags entry created io
]

continue_open-first :
    (env : Env) (path : List ℕ) (flags : ℕ) (found : Option (ℕ × Bool)) (io : Io) (fd : ℤ)
    (io' : Io)
    → io.file_desc ≡ all_closed
    → continue_open env path flags found io ≡ ok (fd, io')
    → fd ≢ minus_one
    → fd ≡ pos type_fd
unfolding continue_open
continue_open-first env path flags none io fd io' e run ne =
    absurd (ne (ap (λ x. x.0) (sym (ok-injective (minus_one, io) (fd, io') run))))
continue_open-first env path flags (some (entry, created)) io fd io' e run ne =
    open_entry-first env path flags entry created io fd io' e run ne

-- While `iocall_Initialized` is not set, every `open` that returns a descriptor returns 3,
-- whatever was open before.
pub open_file-first :
    (env : Env) (path : List ℕ) (flags : ℕ) (io : Io) (fd : ℤ) (io' : Io)
    → io.initialized ≡ false
    → open_file env path flags io ≡ ok (fd, io')
    → fd ≢ minus_one
    → fd ≡ pos type_fd
unfolding open_file continue_open
open_file-first env path flags io fd io' e run ne =
    let ((found, mid), first, rest) =
      bind-ok (open_index env path flags (reset io)) (λ r. continue_open env path flags r.0 r.1)
        (fd, io') run in
    let kept =
      open_index-kept env path flags (reset io) (index path (reset io).fs) (found, mid) refl
        first in
    continue_open-first env path flags found mid fd io' (kept ∙ reset-closed io e) rest ne
