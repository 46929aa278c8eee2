-- ===== src/Input/Tests.antt =====
-- Runs of the keyboard and mouse controller.
use deputy_kernel.Base.{
  ℕ, ◌+◌, ◌/◌, ◌<◌, ◌≡◌, refl, ◌⊎◌, ◌↔◌, arith, true, false, [], ◌∷◌, ◌==◌, if◌then◌else◌, some,
  load,
}
use deputy_kernel.Utils.Buffers.{Bytes}
use deputy_kernel.Hw.Acpi.{Acpi}
use deputy_kernel.Hw.Ports.{Ports, port_inb, port_outb}
use deputy_kernel.Input.Keyboard.{key_code, key_release, code_of}
use deputy_kernel.Input.Keymap.{key_at}
use deputy_kernel.Input.Controller.{nothing, key, i8042_proc, proc_keyboard, rescan, key_event}
use deputy_kernel.Input.Scan.{designated, i8042_proc-Sent}
use deputy_kernel.Input.Init.{
  Flags, go, outside, i8042_init, init_controller, read_config, self_test, find_second, test_ports,
  test_port, read_answer,
}
use deputy_kernel.Input.Controller.{wait, wait_for}
use deputy_kernel.Input.Init.Log.{BadTest, before_tests, i8042_init-outside}

-- A controller that always has a byte, and counts the reads.
abbrev ports : (ℕ → ℕ) → Ports ℕ
ports bytes = record {
  input = λ width port s. (if port == 100 then 1 else bytes s, s + 1);
  output = λ width port v s. s;
  pause = λ s. s;
}

-- The arrow up is released: the bytes E0, F0 and 75.
abbrev arrow_up : ℕ → ℕ
arrow_up s = if s == 2 then 224 else if s == 3 then 240 else 117

i8042_proc-Sent_example :
    ((key_code (designated (224 ∷ 240 ∷ []) 117) ≡ 0)
      × (i8042_proc (ports arrow_up) 3 true 0 ≡ some (nothing, 5)))
    ⊎ ((e : ℕ) × (i8042_proc (ports arrow_up) 3 true 0 ≡ some (key e, 5))
        × (0 < key_code (designated (224 ∷ 240 ∷ []) 117))
        × (code_of e ≡ key_code (designated (224 ∷ 240 ∷ []) 117))
        × (e / key_release ≡ 1))
unfolding port_inb
i8042_proc-Sent_example =
    i8042_proc-Sent (ports arrow_up) (224 ∷ 240 ∷ []) 117 3 0 5 (refl, (refl, tt)) refl
      (omega arith) refl refl (refl, (refl, (refl, refl)))

arrow_up_runs : i8042_proc (ports arrow_up) 3 true 0 ≡ some (key 208, 5)
unfolding i8042_proc proc_keyboard rescan key_event key_at key_code port_inb
arrow_up_runs = refl

abbrev acpi : Acpi
acpi = record { oemid = []; revision = 0; support = false; fadt = 0; mcfg = 0 }

abbrev flags : Flags
flags = record { init_lock = false; first = false; second = false }

abbrev memory : Bytes
memory = λ a. 0

-- Every answer is 55: the self test passes, and the test of the first port is out of the log.
answers_55 : i8042_init (ports (λ s. 85)) acpi memory flags 0 ≡ outside
unfolding i8042_init init_controller read_config self_test find_second test_ports test_port
    read_answer wait wait_for port_inb port_outb load
answers_55 = refl

i8042_init-outside_example : (i8042_init (ports (λ s. 85)) acpi memory flags 0 ≡ outside) ↔ (
    (d : Flags) × (t : ℕ) × (before_tests
        (ports (λ s. 85))
        (record { init_lock = true; first = true; second = false })
        0
      ≡ go tt d t)
    × BadTest (ports (λ s. 85)) d t)
i8042_init-outside_example = i8042_init-outside (ports (λ s. 85)) acpi memory flags 0 refl refl
