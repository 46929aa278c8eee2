-- ===== src/IoCall/Tests.antt =====
-- Runs of source/kernel/iocall.c, and its theorems at a table with one file.
use deputy_kernel.Base.{
  ◌≡◌, refl, true, false, [], ◌∷◌, none, some, ok, replicate, pos, minus_one, load, store,
}
use deputy_kernel.Memory.{unused, owner, inner}
use deputy_kernel.CoreFs.{Date, Entry, Fs, text_eq, is_empty, named, find_entry, index}
use deputy_kernel.IoCall.{Io, Env, rdonly}
use deputy_kernel.IoCall.Descriptors.{
  closed, reset, open_index, open_entry, open_truncated, after_trunc, take_desc, find_closed,
  open_file, close, dev_refuses,
}

abbrev now : Date
now = record { sec = 1; min = 2; hour = 3; day = 4; mon = 5; year = 2025 }

-- The file "/a" at the index 1.
abbrev file : Entry
file = record {
  name = 47 ∷ 97 ∷ [];
  user = pos 0;
  group = pos 0;
  size = 3;
  ctime = now;
  mtime = now;
  atime = now;
  perm = 511;
  type = 0;
  ftype = 0;
  devperm = 0;
  mountslot = pos 0;
}

abbrev fs : Fs
fs = record {
  init_lock = true;
  entry_v = none ∷ some (record { address = 0x11000; entry = file }) ∷ [];
  memory = record {
    init_lock = true;
    space = 0x10000;
    limit = 0x14000;
    block_v = unused ∷ owner 2 ∷ inner ∷ unused ∷ [];
    block_c = 4;
    bytes = λ a. a;
  };
}

abbrev env : Env
env = record { now = now; mount_v = none; old = file; empty = 0x400 }

-- The file is open already, as descriptor 3.
abbrev first : Io
first = record {
  file_desc = record { entry = 1; flags = rdonly; ptr = 2; op = false } ∷ replicate 63 closed;
  initialized = false;
  force_access = false;
  fs = fs;
}

-- Opened again: the first descriptor is lost.
abbrev second : Io
second = record first {
  file_desc = record { entry = 1; flags = rdonly; ptr = 0; op = false } ∷ replicate 63 closed;
}

open_runs : open_file env file.name rdonly first ≡ ok (pos 3, second)
unfolding open_file reset open_index open_entry open_truncated after_trunc take_desc find_closed
    dev_refuses index find_entry named text_eq is_empty load store
open_runs = refl

-- Closing the open descriptor looks at another one, which is closed.
close_runs : close (pos 3) second ≡ ok (minus_one, second)
unfolding close load
close_runs = refl
