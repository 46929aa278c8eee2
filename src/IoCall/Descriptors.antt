-- ===== src/IoCall/Descriptors.antt =====
-- `write`, `open` (as `open_file`) and `close` of source/kernel/iocall.c.
use deputy_kernel.Base.{
  ℕ, zero, suc, ◌+◌, ◌-◌, ◌%◌, ◌^◌, Bool, true, false, not, ◌||◌, ◌&&◌, List, [], ◌∷◌, ◌==◌, ltb,
  leb, if◌then◌else◌, Option, none, some, Run, ok, fault, ◌>>=◌, load, store, replicate, ℤ, pos,
  negsuc, minus_one, within,
}
use deputy_kernel.Memory.{malloc, free}
use deputy_kernel.Utils.Buffers.{Bytes, poke, fill, ncopy}
use deputy_kernel.CoreFs.{Entry, Stored, type_file, success, named, find_entry, index, max_entcount}
use deputy_kernel.CoreFs.Change.{read_file, write_file}
use deputy_kernel.IoCall.{
  max_fd, type_fd, type_chardev, size_error, rdonly, wronly, rdwr, creat, excl, trunc, append,
  FileDesc, Io, Env, has, may, load_word, store_word, set_bytes, dev_allows,
}

-- The status 0, for the file system.
abbrev pub succeeded : ℤ → Bool
succeeded status = elim status [ pos n ↦ n == 0 | negsuc n ↦ false ]

-- The new content of a file is put together in a block of its own.
unfoldable pub write_plain : Env → ℕ → FileDesc → Stored → (buf count : ℕ) → Io → Run (ℕ × Io)
write_plain env fdesc desc s buf count io = do
  let end = (desc.ptr + count) % 2 ^ 32
  let limit = if leb end s.entry.size then s.entry.size else end
  (content, fs) ← read_file env.now s.entry.name env.mount_v io.fs
  elim content [
    | none ↦ ok (size_error, record io { fs = fs })
    | some addr ↦ (do
      (block, memory) ← malloc limit fs.memory
      if block == 0 then ok (size_error, record io { fs = record fs { memory = memory } }) else do
        let old_part = ncopy block addr s.entry.size (fill block 0 limit memory.bytes)
        let bytes = ncopy (block + desc.ptr) buf count old_part
        (status, fs') ←
            write_file env.old env.now s.entry.name limit block
              (record fs { memory = record memory { bytes = bytes } })
        memory' ← free block fs'.memory
        let io' = record io { fs = record fs' { memory = memory' } }
        if not (succeeded status) then ok (size_error, io') else do
          file_desc ← store io'.file_desc fdesc (record desc { ptr = (desc.ptr + count) % 2 ^ 32 })
          ok (count, record io' { file_desc = file_desc }))
  ]

-- The loop over the bytes for a device file: those that find no room are dropped.
unfoldable pub put_waiting : (chardev buf size : ℕ) → ℕ → ℕ → Bytes → ℕ × Bytes
put_waiting chardev buf size zero c mem = (c, mem)
put_waiting chardev buf size (suc n) c mem =
    let waiting = load_word mem chardev in
    elim (ltb waiting ((size + 2 ^ 32 - 4) % 2 ^ 32)) [
      | false ↦ put_waiting chardev (suc buf) size n c mem
      | true ↦
          put_waiting chardev (suc buf) size n (suc c)
            (store_word (poke mem (chardev + 4 + waiting) (mem buf)) chardev (waiting + 1))
    ]

unfoldable pub write_device : Env → Stored → (buf count : ℕ) → Io → Run (ℕ × Io)
write_device env s buf count io = do
  allowed ← dev_allows wronly s io
  if not allowed then ok (size_error, io) else do
    (content, fs) ← read_file env.now s.entry.name env.mount_v io.fs
    elim content [
      | none ↦ ok (size_error, record io { fs = fs })
      | some addr ↦
          let (n, mem) = put_waiting addr buf s.entry.size count 0 fs.memory.bytes in
          ok (n, set_bytes mem (record io { fs = fs }))
    ]

unfoldable pub write_desc : Env → ℕ → FileDesc → (buf count : ℕ) → Io → Run (ℕ × Io)
write_desc env fdesc desc buf count io =
    if desc.entry == 0 || not io.force_access && not (may desc.flags wronly)
    then ok (size_error, io)
    else do
      slot ← load io.fs.entry_v desc.entry
      elim slot [
        | none ↦ ok (size_error, io)
        | some s ↦
            if not (s.entry.type == type_file)
            then ok (size_error, io)
            else if s.entry.ftype == type_file
            then write_plain env fdesc desc s buf count io
            else if s.entry.ftype == type_chardev
            then write_device env s buf count io
            else ok (size_error, io)
      ]

unfoldable pub write : Env → ℤ → (buf count : ℕ) → Io → Run (ℕ × Io)
write env fd buf count io =
    if not (within type_fd (type_fd + max_fd) fd) then ok (size_error, io) else elim fd [
      | negsuc n ↦ fault
      | pos n ↦ (do
        desc ← load io.file_desc (n - type_fd)
        write_desc env (n - type_fd) desc buf count io)
    ]

abbrev pub closed : FileDesc
closed = record { entry = 0; flags = 0; ptr = 0; op = false }

-- The index is `fd`, not `fd - TYPEFD`.
unfoldable pub close : ℤ → Io → Run (ℤ × Io)
close (negsuc n) io = ok (minus_one, io)
close (pos fd) io = if ltb fd type_fd || leb (type_fd + max_fd) fd then ok (minus_one, io) else do
  desc ← load io.file_desc fd
  if desc.entry == 0 || desc.op then ok (minus_one, io) else do
    file_desc ← store io.file_desc fd (record desc { entry = 0; flags = 0; ptr = 0 })
    ok (pos 0, record io { file_desc = file_desc })

-- The table that `open` starts from: `iocall_Initialized` is never set.
unfoldable pub reset : Io → Io
reset io = if io.initialized then io else record io { file_desc = replicate max_fd closed }

-- After a write that succeeds, the one status that the search can give is that nothing is found.
unfoldable pub created_index : List ℕ → ℤ → Io → Option (ℕ × Bool)
created_index path status io =
    if not (succeeded status)
    then none
    else elim (index path io.fs) [ pos i ↦ some (i, true) | negsuc k ↦ none ]

-- `O_CREAT`.
unfoldable pub create_file : Env → List ℕ → ℕ → Io → Run (Option (ℕ × Bool) × Io)
create_file env path flags io = if not (has flags creat) then ok (none, io) else do
  (status, fs) ← write_file env.old env.now path 0 env.empty io.fs
  let io' = record io { fs = fs }
  ok (created_index path status io', io')

-- The index of the path, and whether the file is new.
unfoldable pub open_index : Env → List ℕ → ℕ → Io → Run (Option (ℕ × Bool) × Io)
open_index env path flags io = elim (index path io.fs) [
  | pos i ↦ ok (if i == 0 || leb max_entcount i then none else some (i, false), io)
  | negsuc n ↦ elim (n == 7) [ true ↦ create_file env path flags io | false ↦ ok (none, io) ]
]

-- A device file that only allows the other direction is refused.
unfoldable pub dev_refuses : ℕ → Entry → Bool
dev_refuses flags ent =
    ent.ftype == type_chardev
    && not (has flags rdwr)
    && (if has flags rdonly
        then has ent.devperm wronly
        else has flags wronly && has ent.devperm rdonly)

unfoldable pub find_closed : ℕ → List FileDesc → Option ℕ
find_closed i [] = none
find_closed i (desc ∷ v) = elim (desc.entry == 0) [ true ↦ some i | false ↦ find_closed (suc i) v ]

-- A descriptor for the entry.
unfoldable pub take_desc : ℕ → ℕ → Io → Run (ℤ × Io)
take_desc entry flags io = elim (find_closed 0 io.file_desc) [
  | none ↦ ok (minus_one, io)
  | some found ↦ (do
    desc ← load io.file_desc found
    file_desc ← store io.file_desc found (record desc { entry = entry; flags = flags })
    ok (pos (type_fd + found), record io { file_desc = file_desc }))
]

-- The test of `O_APPEND`, and the descriptor.
unfoldable pub after_trunc : ℕ → ℕ → ℤ → Io → Run (ℤ × Io)
after_trunc flags entry status io =
    if not (succeeded status)
    then ok (minus_one, io)
    else if not io.force_access && has flags append && has flags rdonly && not (has flags rdwr)
    then ok (minus_one, io)
    else take_desc entry flags io

-- `O_TRUNC`.
unfoldable pub open_truncated : Env → List ℕ → ℕ → ℕ → Bool → Io → Run (ℤ × Io)
open_truncated env path flags entry created io = do
  (status, fs) ←
      if has flags trunc && not created
      then write_file env.old env.now path 0 env.empty io.fs
      else ok (success, io.fs)
  after_trunc flags entry status (record io { fs = fs })

unfoldable pub open_entry : Env → List ℕ → ℕ → ℕ → Bool → Io → Run (ℤ × Io)
open_entry env path flags entry created io = elim (find_entry (named path) 0 io.fs.entry_v) [
  | none ↦ fault
  | some (i, s) ↦
      if not (s.entry.type == type_file)
      then ok (minus_one, io)
      else if not io.force_access && dev_refuses flags s.entry
      then ok (minus_one, io)
      else if has flags excl && not created
      then ok (minus_one, io)
      else open_truncated env path flags entry created io
]

unfoldable pub open_file : Env → List ℕ → ℕ → Io → Run (ℤ × Io)
open_file env path flags io = do
  (found, io') ← open_index env path flags (reset io)
  elim found [
    | none ↦ ok (minus_one, io')
    | some (entry, created) ↦ open_entry env path flags entry created io'
  ]
