-- ===== src/Boot/Main.antt =====
-- `kernel_main` of source/kernel/kernel.c: the module as the root directory, the device files, and a
-- round of the loop that reads them. Its tests stand under `if (false)`, and what it logs is left out.
pub mod Devices
mod Tests
use deputy_kernel.Base.{
  ℕ, ◌+◌, Bool, not, List, [], ◌∷◌, ◌==◌, if◌then◌else◌, Option, none, some, Run, ok, fault, panic,
  ◌>>=◌, load, pos, negsuc,
}
use deputy_kernel.Memory.{blk_size}
use deputy_kernel.CoreFs.{Date, Entry, Fs, stat}
use deputy_kernel.CoreFs.Header.{ftype_offset, touch}
use deputy_kernel.CoreFs.Change.{create_dir, write_file}
use deputy_kernel.Hw.Ports.{Ports}
use deputy_kernel.Input.Controller.{i8042_proc}
use deputy_kernel.Input.Send.{keyboard_path, mouse_path, send}
use deputy_kernel.IoCall.{Io, Env, type_chardev, rdonly, read}
use deputy_kernel.IoCall.Descriptors.{succeeded, open_file}
use deputy_kernel.Multitask.{Tasks, spawn}
use deputy_kernel.Multitask.Exec.{exec}
use deputy_kernel.Tarfs.{Target, tarfs_mount}
use deputy_kernel.Utils.Buffers.{Bytes, poke_all, range_bytes}

-- "/" and "/dev/".
abbrev pub root_path : List ℕ
root_path = 47 ∷ []

abbrev pub dev_path : List ℕ
dev_path = 47 ∷ 100 ∷ 101 ∷ 118 ∷ 47 ∷ []

-- The module at `kernel_limit` is mounted if there is one. `none` is a run out of fuel.
unfoldable pub mount_module :
    Entry → Date → (junk : List ℕ) → (kernel_limit size fuel : ℕ) → Target → Run (Option Target)
mount_module old now junk kernel_limit size fuel t = if size == 0 then ok (some t) else do
  (status, t') ← tarfs_mount old now junk (some root_path) kernel_limit size fuel t
  elim status [
    | none ↦ ok none
    | some s ↦ elim s [ pos n ↦ ok (some t') | negsuc n ↦ if n == 0 then panic else ok (some t') ]
  ]

abbrev pub as_device : Entry → Entry
as_device ent = record ent { ftype = type_chardev; devperm = rdonly }

-- `ftype` and `devperm` in memory.
unfoldable pub put_device : ℕ → Bytes → Bytes
put_device a = poke_all (type_chardev ∷ rdonly ∷ []) (a + ftype_offset)

-- A device file of one block; `page` is the block of zeros.
unfoldable pub device_file : Entry → Date → (page : ℕ) → List ℕ → Fs → Run Fs
device_file old now page path fs = do
  (status, fs') ← write_file old now path blk_size page fs
  if not (succeeded status) then panic else elim (stat path fs') [
    | none ↦ panic
    | some i ↦ (do
      slot ← load fs'.entry_v i
      elim slot [ none ↦ fault | some s ↦ touch i s as_device put_device fs' ])
  ]

unfoldable pub device_files : Entry → Date → (page : ℕ) → Fs → Run Fs
device_files old now page fs = do
  (status, fs') ← create_dir old now dev_path fs
  if not (succeeded status) then panic else do
    fs'' ← device_file old now page keyboard_path fs'
    device_file old now page mouse_path fs''

-- "kernel_idle" and "/system/test.elf".
abbrev pub idle_name : List ℕ
idle_name = 107 ∷ 101 ∷ 114 ∷ 110 ∷ 101 ∷ 108 ∷ 95 ∷ 105 ∷ 100 ∷ 108 ∷ 101 ∷ []

abbrev pub test_path : List ℕ
test_path =
    47 ∷ 115 ∷ 121 ∷ 115 ∷ 116 ∷ 101 ∷ 109 ∷ 47 ∷ 116 ∷ 101 ∷ 115 ∷ 116 ∷ 46 ∷ 101 ∷ 108 ∷ 102 ∷ []

-- The first processes; the memory manager is that of the tasks. What `exec` answers is not looked at.
unfoldable pub start_tasks :
    Date → (kernel_idle : ℕ) → Option (List ℕ) → Tasks → Fs → Run (Tasks × Fs)
start_tasks now kernel_idle mount_v t fs = do
  (pid, t') ← spawn (some idle_name) kernel_idle t
  elim pid [
    | negsuc n ↦ panic
    | pos i ↦ (do
      (started, t'', fs') ← exec now (some test_path) mount_v t' (record fs { memory = t'.memory })
      ok (t'', fs'))
  ]

-- What is read from a device file into `buf`, if `count` bytes come.
unfoldable pub read_all : Env → List ℕ → (buf count : ℕ) → Io → Run (Option (List ℕ) × Io)
read_all env path buf count io = do
  (fd, opened) ← open_file env path rdonly io
  (n, io') ← read env fd buf count opened
  ok (if n == count then some (range_bytes io'.fs.memory.bytes buf count) else none, io')

-- A round up to its `yield`: the key and the packet that are logged. `addr`, `key_buf` and
-- `mouse_buf` lie on the stack; `none` is a poll out of fuel.
module _ {S : Type 0} (p : Ports S) (env : Env) (addr key_buf mouse_buf : ℕ) where
  unfoldable pub main_round :
      (fuel : ℕ) (init_lock : Bool)
      → Io
      → S
      → Run (Option ((Option (List ℕ) × Option (List ℕ)) × Io × S))
  main_round fuel init_lock io s = elim (i8042_proc p fuel init_lock s) [
    | none ↦ ok none
    | some (event, t) ↦ (do
      sent ← send env addr event io
      (pressed, io') ← read_all env keyboard_path key_buf 1 sent
      (moved, io'') ← read_all env mouse_path mouse_buf 3 io'
      ok (some ((pressed, moved), io'', t)))
  ]
