-- ===== src/Input/Controller.antt =====
-- `i8042_proc` of source/hw/i8042.c, the poll of the keyboard and mouse controller. It gives what
-- it sends on; `none` is a run out of fuel, in the loop over the prefixes of a scan code.
use deputy_kernel.Base.{
  ℕ, zero, suc, ◌/◌, ◌%◌, ◌^◌, Bool, true, false, not, ◌&&◌, ◌==◌, if◌then◌else◌, Option, none,
  some,
}
use deputy_kernel.Hw.Ports.{Ports, bit, port_inb}
use deputy_kernel.Input.Keyboard.{key_code, set_release}
use deputy_kernel.Input.Keymap.{key_table, ext_key_table, key_at}

abbrev pub index_port : ℕ
index_port = 100

abbrev pub data_port : ℕ
data_port = 96

-- I8042_KEY_EXTENDED and I8042_KEY_RELEASE, the two prefixes.
abbrev pub extended : ℕ
extended = 224

abbrev pub released : ℕ
released = 240

-- What a poll sends: a key, or the three bytes of a mouse packet.
pub data Event : Type 0 where
  nothing : Event
  key : ℕ → Event
  mouse : (s x y : ℕ) → Event

-- The bits OUTPUTFULL, INPUTFULL and 2NDOUTFULL of the status.
abbrev pub output_full : ℕ → Bool
output_full = bit 0

abbrev pub input_empty : ℕ → Bool
input_empty v = not (bit 1 v)

abbrev pub second_full : ℕ → Bool
second_full = bit 5

-- `extflag ? i8042_ExtKeyTable[scan] : i8042_KeyTable[scan]`, and what is sent for it.
unfoldable pub key_event : (ext rel : Bool) → (scan : ℕ) → Event
key_event ext rel scan =
    let k = key_code (key_at (if ext then ext_key_table else key_table) scan) in
    if k == 0 then nothing else key (if rel then set_release k else k)

-- A packet is sent if its bit 3 is set and it has no overflow.
unfoldable pub mouse_event : (s x y : ℕ) → Event
mouse_event s x y = if bit 3 s && s / 2 ^ 6 % 4 == 0 then mouse s x y else nothing

module _ {S : Type 0} (p : Ports S) where
  -- `while (!ready(status) && --timeout) { pause }` from a timeout of `n`: the timeout left.
  unfoldable pub wait : (ready : ℕ → Bool) (pause : S → S) → ℕ → S → ℕ × S
  wait ready pause zero s = (0, s)
  wait ready pause (suc n) s =
      let (v, t) = port_inb p index_port s in
      let rest = wait ready pause n (pause t) in
      if ready v then (suc n, t) else if n == 0 then (0, t) else rest

  -- The wait and the test that follows it.
  unfoldable pub wait_for : (ready : ℕ → Bool) (pause : S → S) → ℕ → S → Bool × S
  wait_for ready pause n s =
      let (left, t) = wait ready pause n s in let (v, u) = port_inb p index_port t in (ready v, u)

  -- From the label `rescan`: the flags and the scan code.
  unfoldable pub rescan : ℕ → (ext rel : Bool) → S → Option ((Bool × Bool × ℕ) × S)
  rescan zero ext rel s = none
  rescan (suc n) ext rel s =
      let (scan, t) = port_inb p data_port (p.pause s) in
      let after_ext = rescan n true rel t in
      let after_rel = rescan n ext true t in
      if scan == extended
      then after_ext
      else if scan == released
      then after_rel
      else some ((ext, rel, scan), t)

  unfoldable pub proc_keyboard : ℕ → S → Option (Event × S)
  proc_keyboard fuel s = elim (rescan fuel false false s) [
    | none ↦ none
    | some ((ext, rel, scan), t) ↦ some (key_event ext rel scan, t)
  ]

  -- A byte of a packet after the first, waited for five times.
  unfoldable pub next_byte : S → Option ℕ × S
  next_byte s =
      let (full, t) = wait_for output_full p.pause 5 s in
      let (b, u) = port_inb p data_port t in if full then (some b, u) else (none, t)

  unfoldable pub proc_mouse : S → Event × S
  proc_mouse s =
      let (b, t) = port_inb p data_port s in
      let (ox, u) = next_byte t in
      elim ox [
        | none ↦ (nothing, u)
        | some x ↦
            let (oy, v) = next_byte u in
            elim oy [ none ↦ (nothing, v) | some y ↦ (mouse_event b x y, v) ]
      ]

  unfoldable pub i8042_proc : ℕ → (init_lock : Bool) → S → Option (Event × S)
  i8042_proc fuel init_lock s =
      if not init_lock
      then some (nothing, s)
      else let (v, t) = port_inb p index_port s in
        if not (output_full v)
        then some (nothing, t)
        else let (w, u) = port_inb p index_port t in
          if second_full w then some (proc_mouse u) else proc_keyboard fuel u
