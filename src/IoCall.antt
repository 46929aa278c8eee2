-- ===== src/IoCall.antt =====
-- The calls on file descriptors, source/kernel/iocall.c. A `size_t` result of -1 is `size_error`.
-- `Env` is what the calls are given from outside: the clock, the table of mounts (or NULL), the
-- header that a new block spells and the address of the literal "".
pub mod Read
pub mod Descriptors
pub mod Words
pub mod Queue
mod Tests
use deputy_kernel.Base.{
  ℕ, zero, suc, ◌+◌, ◌-◌, ◌*◌, ◌/◌, ◌%◌, ◌^◌, bit_and, Bool, true, false, not, ◌||◌, ◌&&◌, List, [],
  ◌∷◌, ◌==◌, ltb, leb, if◌then◌else◌, Option, none, some, Run, ok, fault, ◌>>=◌, load, store,
  load_at, store_at, replicate, ℤ, pos, negsuc, minus_one, within, difference,
}
use deputy_kernel.Memory.{Memory, malloc, free}
use deputy_kernel.Utils.Buffers.{Bytes, poke, fill, ncopy}
use deputy_kernel.CoreFs.{
  Date, Entry, Stored, Fs, type_file, success, entry_not_found, named, find_entry, index,
  max_entcount,
}
use deputy_kernel.CoreFs.Change.{read_file, write_file}

abbrev pub max_fd : ℕ
max_fd = 64

abbrev pub type_fd : ℕ
type_fd = 3

abbrev pub type_chardev : ℕ
type_chardev = 3

abbrev pub size_error : ℕ
size_error = 2 ^ 32 - 1

-- The flags of `open`.
abbrev pub rdonly : ℕ
rdonly = 1

abbrev pub wronly : ℕ
wronly = 2

abbrev pub rdwr : ℕ
rdwr = 4

abbrev pub creat : ℕ
creat = 8

abbrev pub excl : ℕ
excl = 16

abbrev pub trunc : ℕ
trunc = 32

abbrev pub append : ℕ
append = 64

-- `iocall_FileDesc_t`
pub record FileDesc : Type 0 where
  pub entry : ℕ
  pub flags : ℕ
  pub ptr : ℕ
  pub op : Bool

pub record Io : Type 0 where
  pub file_desc : List FileDesc
  pub initialized : Bool
  pub force_access : Bool
  pub fs : Fs

pub record Env : Type 0 where
  pub now : Date
  pub mount_v : Option (List ℕ)
  pub old : Entry
  pub empty : ℕ

-- `flags & bit`
abbrev pub has : ℕ → ℕ → Bool
has flags bit = not (bit_and flags bit == 0)

abbrev pub may : ℕ → ℕ → Bool
may flags bit = has flags bit || has flags rdwr

-- A `uint32_t` in memory, lowest byte first.
unfoldable pub load_word : Bytes → ℕ → ℕ
load_word mem a = mem a + mem (a + 1) * 2 ^ 8 + mem (a + 2) * 2 ^ 16 + mem (a + 3) * 2 ^ 24

unfoldable pub store_word : Bytes → ℕ → ℕ → Bytes
store_word mem a w =
    poke
      (poke (poke (poke mem a (w % 2 ^ 8)) (a + 1) (w / 2 ^ 8 % 2 ^ 8)) (a + 2)
        (w / 2 ^ 16 % 2 ^ 8))
      (a + 3) (w / 2 ^ 24 % 2 ^ 8)

unfoldable pub set_bytes : Bytes → Io → Io
set_bytes mem io = record io {
  fs = record (io.fs) { memory = record (io.fs.memory) { bytes = mem } };
}

-- What a device file holds: the number of bytes that wait, and the bytes.
unfoldable pub take_waiting : (chardev buf count size : ℕ) → Bytes → ℕ × Bytes
take_waiting chardev buf count size mem =
    let waiting = load_word mem chardev in
    let limit = if leb count waiting then count else waiting in
    let copied = ncopy buf (chardev + 4) limit mem in
    let remain = waiting - limit in
    let left =
      if ltb limit waiting
      then store_word
          (fill (chardev + 4 + remain) 0 ((size + 2 ^ 32 - 4 - remain) % 2 ^ 32)
            (ncopy (chardev + 4) (chardev + 4 + limit) remain copied))
          chardev remain
      else fill (chardev + 4) 0 ((size + 2 ^ 32 - 4) % 2 ^ 32) (store_word copied chardev 0) in
    (limit, left)

-- The permission bits of the device file, of which `bit` or O_RDWR is needed.
unfoldable pub dev_allows : ℕ → Stored → Io → Run Bool
dev_allows bit s io =
    if io.force_access then ok true else elim (find_entry (named s.entry.name) 0 io.fs.entry_v) [
      | none ↦ fault
      | some (i, t) ↦ ok (may t.entry.devperm bit)
    ]

unfoldable pub read_plain : Env → ℤ → FileDesc → Stored → (buf count : ℕ) → Io → Run (ℕ × Io)
read_plain env fdesc desc s buf count io = if leb s.entry.size desc.ptr then ok (0, io) else do
  (content, fs) ← read_file env.now s.entry.name env.mount_v io.fs
  elim content [
    | none ↦ ok (size_error, record io { fs = fs })
    | some addr ↦ (do
      let remain = s.entry.size - desc.ptr
      let limit = if ltb remain count then remain else count
      file_desc ← store_at io.file_desc fdesc (record desc { ptr = (desc.ptr + limit) % 2 ^ 32 })
      ok (
        limit,
        set_bytes (ncopy buf (addr + desc.ptr) limit fs.memory.bytes)
            (record io { fs = fs; file_desc = file_desc }),
      ))
  ]

unfoldable pub read_device : Env → Stored → (buf count : ℕ) → Io → Run (ℕ × Io)
read_device env s buf count io = do
  allowed ← dev_allows rdonly s io
  if not allowed then ok (size_error, io) else do
    (content, fs) ← read_file env.now s.entry.name env.mount_v io.fs
    elim content [
      | none ↦ ok (size_error, record io { fs = fs })
      | some addr ↦
          let (n, mem) = take_waiting addr buf count s.entry.size fs.memory.bytes in
          ok (n, set_bytes mem (record io { fs = fs }))
    ]

-- `TYPEFD - fd`
abbrev pub read_slot : ℤ → ℤ
read_slot fd = elim fd [ pos n ↦ difference type_fd n | negsuc n ↦ pos (type_fd + suc n) ]

unfoldable pub read_desc : Env → ℤ → FileDesc → (buf count : ℕ) → Io → Run (ℕ × Io)
read_desc env fdesc desc buf count io =
    if desc.entry == 0 || not io.force_access && not (may desc.flags rdonly)
    then ok (size_error, io)
    else do
      slot ← load io.fs.entry_v desc.entry
      elim slot [
        | none ↦ ok (size_error, io)
        | some s ↦
            if not (s.entry.type == type_file)
            then ok (size_error, io)
            else if s.entry.ftype == type_file
            then read_plain env fdesc desc s buf count io
            else if s.entry.ftype == type_chardev
            then read_device env s buf count io
            else ok (size_error, io)
      ]

unfoldable pub read : Env → ℤ → (buf count : ℕ) → Io → Run (ℕ × Io)
read env fd buf count io =
    if not (within type_fd (type_fd + max_fd) fd) then ok (size_error, io) else do
      desc ← load_at io.file_desc (read_slot fd)
      read_desc env (read_slot fd) desc buf count io
