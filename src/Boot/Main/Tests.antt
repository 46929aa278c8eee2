-- ===== src/Boot/Main/Tests.antt =====
-- A key that is pressed, from the controller to the loop.
use deputy_kernel.Base.{
  ℕ, ◌≡◌, refl, true, false, List, [], ◌∷◌, ◌==◌, if◌then◌else◌, none, some, Option, Run, ok, fault,
  panic, pos, replicate,
}
use deputy_kernel.Base.{load, store}
use deputy_kernel.CoreFs.{index, find_entry, named, is_empty, text_eq}
use deputy_kernel.CoreFs.Header.{put_date, touch}
use deputy_kernel.CoreFs.Change.{read_file}
use deputy_kernel.Hw.Ports.{port_inb}
use deputy_kernel.Input.Controller.{i8042_proc, proc_keyboard, rescan, key_event}
use deputy_kernel.Input.Keyboard.{key_code}
use deputy_kernel.Input.Keymap.{key_at}
use deputy_kernel.Input.Send.{send, key_send, send_write}
use deputy_kernel.IoCall.{
  read, read_desc, read_device, take_waiting, dev_allows, set_bytes, load_word, store_word,
}
use deputy_kernel.IoCall.Descriptors.{
  open_file, open_index, open_entry, open_truncated, after_trunc, take_desc, find_closed,
  dev_refuses, reset, write, write_desc, write_device, put_waiting, close,
}
use deputy_kernel.Utils.Buffers.{poke_all, fill, ncopy, range_bytes}
use deputy_kernel.Boot.Main.{read_all}
use deputy_kernel.Memory.{unused, owner}
use deputy_kernel.CoreFs.{Date, Entry}
use deputy_kernel.Hw.Ports.{Ports}
use deputy_kernel.Input.Send.{keyboard_path, mouse_path}
use deputy_kernel.IoCall.{Io, Env}
use deputy_kernel.IoCall.Descriptors.{closed}
use deputy_kernel.Boot.Main.{as_device, main_round}

abbrev now : Date
now = record { sec = 1; min = 2; hour = 3; day = 4; mon = 5; year = 2025 }

abbrev plain : List ℕ → Entry
plain path = record {
  name = path;
  user = pos 0;
  group = pos 0;
  size = 4096;
  ctime = now;
  mtime = now;
  atime = now;
  perm = 511;
  type = 0;
  ftype = 0;
  devperm = 0;
  mountslot = pos 0;
}

abbrev io : Io
io = record {
  file_desc = replicate 64 closed;
  initialized = false;
  force_access = false;
  fs = record {
    init_lock = true;
    entry_v =
        none
        ∷ some (record { address = 0x11000; entry = as_device (plain keyboard_path) })
        ∷ some (record { address = 0x13000; entry = as_device (plain mouse_path) })
        ∷ [];
    memory = record {
      init_lock = true;
      space = 0x10000;
      limit = 0x14000;
      block_v = unused ∷ owner 1 ∷ unused ∷ owner 1 ∷ [];
      block_c = 4;
      bytes = λ a. 0;
    };
  };
}

abbrev env : Env
env = record { now = now; mount_v = none; old = plain []; empty = 0x400 }

-- The output buffer is full, with the code 1C of the key A.
abbrev ports : Ports ℕ
ports = record {
  input = λ width port s. (if port == 0x64 then 1 else 0x1C, s);
  output = λ width port v s. s;
  pause = λ s. s;
}

abbrev logged :
    Run (Option ((Option (List ℕ) × Option (List ℕ)) × Io × ℕ))
    → Option (Option (List ℕ) × Option (List ℕ))
logged (ok (some r)) = some r.0
logged (ok none) = none
logged fault = none
logged panic = none

pressed_key :
    logged (main_round ports env 0x500 0x600 0x700 5 true io 0) ≡ some (some (43 ∷ []), none)
unfolding main_round read_all i8042_proc port_inb proc_keyboard rescan send key_event key_code
    key_at key_send send_write poke_all open_file open_index open_entry open_truncated after_trunc
    take_desc find_closed dev_refuses reset index find_entry named is_empty text_eq read_file
    put_date touch write write_desc write_device dev_allows put_waiting close read read_desc
    read_device take_waiting load store set_bytes load_word store_word fill ncopy range_bytes
pressed_key = refl
