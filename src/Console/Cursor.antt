-- ===== src/Console/Cursor.antt =====
-- The cursor of source/kernel/console.c stays on the screen.
use deputy_kernel.Base.{
  ℕ, zero, suc, ◌+◌, ◌-◌, ◌*◌, ◌/◌, ◌%◌, ◌^◌, ◌<◌, ◌≤◌, ◌≡◌, ◌≢◌, refl, ap, sym, ◌∙◌, subst, true,
  List, [], ◌∷◌, ◌++◌, arith, length, set, length-set, ok, store-set, get_elem?, some, leb, ◌==◌,
  ℕ_discrete, Bool-cases, inl, inr,
}
use deputy_kernel.Console.{
  Console, width, height, cell, update, scroll, scroll_times, serial, put_cells, advance,
  wrap_cursor, print_char, print_from, print, clear,
}
use deputy_kernel.Console.Scroll.{scroll_once-lem, fill_cells-Cells}

-- The screen has its size, and the cursor is on it.
pub record OnScreen (s : Console) : Type 0 where
  pub active : s.active ≡ true
  pub size : length s.memory ≡ width * height
  pub cursor : s.cursor < width * height

-- Everything between two tests for the end of the screen.
record Near (s : Console) : Type 0 where
  active : s.active ≡ true
  size : length s.memory ≡ width * height
  cursor : s.cursor ≤ width * height

-- What the cursor does is not changed by the bytes sent to ports.
OnScreen-ports :
    {s : Console} (ports : List (ℕ × ℕ)) → OnScreen s → OnScreen (record s { ports = ports })
OnScreen-ports ports v = record { active = v.active; size = v.size; cursor = v.cursor }

serial-ports :
    (chr : ℕ) (s : Console) → (ports : List (ℕ × ℕ)) × (serial chr s ≡ record s { ports = ports })
unfolding serial
serial-ports chr s = elim (Bool-cases s.hard_serial) [
  | inr e ↦ (s.ports, ground (arith, e))
  | inl e ↦ elim (Bool-cases (chr == 0x0A)) [
    | inl q ↦ (s.ports ++ (0x3F8, 0x0D) ∷ (0x3F8, 0x0A) ∷ [], ground (arith, e, q))
    | inr q ↦ (s.ports ++ (0x3F8, chr) ∷ [], ground (arith, e, q))
  ]
]

serial-OnScreen : (chr : ℕ) {s : Console} → OnScreen s → OnScreen (serial chr s)
serial-OnScreen chr {s} v =
    let (ports, e) = serial-ports chr s in subst OnScreen (sym e) (OnScreen-ports ports v)

put_cells-Near :
    (c n : ℕ) (s : Console)
    → s.active ≡ true
    → length s.memory ≡ width * height
    → s.cursor + n ≤ width * height
    → (s' : Console) × (put_cells c n s ≡ ok s') × Near s'
unfolding put_cells
put_cells-Near c zero s a z h = (s, refl, record { active = a; size = z; cursor = omega arith })
put_cells-Near c (suc n) s a z h =
    let (s', run, v) =
      put_cells-Near c n
        (record s { memory = set s.memory s.cursor c; cursor = (s.cursor + 1) % 2 ^ 16 }) a
        (length-set s.memory s.cursor c ∙ z) (omega arith) in
    (s', rw (store-set s.memory s.cursor c (omega (arith, z))) run, v)

wrap_cursor-OnScreen :
    {s : Console} → Near s → (s' : Console) × (wrap_cursor s ≡ ok s') × OnScreen s'
unfolding wrap_cursor scroll scroll_times
wrap_cursor-OnScreen {s} v = elim (Bool-cases (leb 2000 s.cursor)) [
  | inr e ↦ (
    s,
    ground (arith, e),
    record { active = v.active; size = v.size; cursor = ground (arith, e) },
  )
  | inl e ↦
      let (s', run, same, size, cells) = scroll_once-lem s v.size in
      (
        record s' { cursor = (height - 1) * width },
        ground (arith, e, run, v.active),
        record { active = ap (λ k. k.active) same ∙ v.active; size = size; cursor = omega arith },
      )
]

advance-Near :
    (chr : ℕ) {s : Console} → OnScreen s → (s' : Console) × (advance chr s ≡ ok s') × Near s'
unfolding advance
advance-Near chr {s} v = elim (ℕ_discrete chr 0x0A) [
  | yes e ↦ (
    record s { cursor = (s.cursor / width + 1) * width % 2 ^ 16 },
    ground (arith, e),
    record { active = v.active; size = v.size; cursor = omega (arith, v.cursor) },
  )
  | no ne ↦ elim (ℕ_discrete chr 0x09) [
    | yes e ↦
        let (s', run, w) =
          put_cells-Near (cell s.color 0x20) (8 - s.cursor % 8) s v.active v.size
            (omega (arith, v.cursor)) in
        (s', ground (arith, e, run), w)
    | no ne' ↦
        let (s', run, w) =
          put_cells-Near (cell s.color chr) 1 s v.active v.size (omega (arith, v.cursor)) in
        (s', ground (arith, ne, ne', run), w)
  ]
]

print_char-OnScreen :
    (chr : ℕ) {s : Console} → OnScreen s → (s' : Console) × (print_char chr s ≡ ok s') × OnScreen s'
unfolding print_char
print_char-OnScreen chr v =
    let (s', run, w) = advance-Near chr (serial-OnScreen chr v) in
    let (s'', run', w') = wrap_cursor-OnScreen w in (s'', rw run run', w')

update-ports :
    (low high : ℕ) (s : Console)
    → OnScreen s
    → (ports : List (ℕ × ℕ)) × (update low high s ≡ record s { ports = ports })
unfolding update
update-ports low high s v = (
  s.ports
      ++ (0x3D4, 0x0F)
        ∷ (0x3D5, s.cursor % 2 ^ 8)
        ∷ (0x3D4, 0x0E)
        ∷ (0x3D5, s.cursor / 2 ^ 8 % 2 ^ 8)
        ∷ [],
  ground (arith, v.active, v.cursor),
)

update-OnScreen : (low high : ℕ) {s : Console} → OnScreen s → OnScreen (update low high s)
update-OnScreen low high {s} v =
    let (ports, e) = update-ports low high s v in subst OnScreen (sym e) (OnScreen-ports ports v)

print_from-OnScreen :
    (low high : ℕ) (str : List ℕ) (n : ℕ) {s : Console}
    → OnScreen s
    → n ≤ length str
    → (s' : Console) × (print_from low high str n s ≡ ok s') × OnScreen s'
unfolding print_from
print_from-OnScreen low high str zero {s} v h =
    (update low high s, refl, update-OnScreen low high v)
print_from-OnScreen low high [] (suc n) v h = absurd (omega arith)
print_from-OnScreen low high (chr ∷ str) (suc n) {s} v h = elim (ℕ_discrete chr 0) [
  | yes e ↦ (s, ground (arith, e), v)
  | no ne ↦
      let (s', run, w) = print_char-OnScreen chr v in
      let (s'', run', w') = print_from-OnScreen low high str n w (omega arith) in
      (s'', ground (arith, ne, run, run'), w')
]

-- `console_print` of at most as many characters as the string has, with the console active, 2000
-- cells and the cursor on the screen, writes no cell outside the screen and leaves the cursor on
-- it.
pub print-OnScreen :
    (low high : ℕ) (str : List ℕ) (len : ℕ) {s : Console}
    → OnScreen s
    → len ≤ length str
    → (s' : Console) × (print low high str len s ≡ ok s') × OnScreen s'
unfolding print
print-OnScreen low high str len {s} v h =
    let (s', run, w) = print_from-OnScreen low high str len (update-OnScreen low high v) h in
    (s', ground (arith, v.active, run), w)

-- An update of a cursor that is known puts it on the screen.
pub update-clamped :
    (low high : ℕ) (s : Console)
    → s.active ≡ true
    → s.cursor ≢ 0xFFFF
    → (update low high s).cursor < width * height
unfolding update
update-clamped low high s a h = ground (arith, a)

update-memory : (low high : ℕ) (s : Console) → (update low high s).memory ≡ s.memory
unfolding update
update-memory low high s = ground arith

update-active : (low high : ℕ) (s : Console) → (update low high s).active ≡ s.active
unfolding update
update-active low high s = ground arith

-- `console_clear` of an active console of 2000 cells, whatever its cursor, leaves 0 in every cell
-- and the cursor at 0.
pub clear-OnScreen :
    (low high : ℕ) (s : Console)
    → s.active ≡ true
    → length s.memory ≡ width * height
    → (s' : Console) × (clear low high s ≡ ok s')
      × OnScreen s'
      × (s'.cursor ≡ 0)
      × ((i : ℕ) → i < width * height → get_elem? s'.memory i ≡ some 0)
unfolding clear
clear-OnScreen low high s a z =
    let e = update-memory low high s in
    let b = fill_cells-Cells 0 2000 0 (update low high s).memory (omega (arith, z, ap length e)) in
    let cleared = record (update low high s) { memory = b.result; cursor = 0 } in
    let on : OnScreen cleared = record {
      active = update-active low high s ∙ a;
      size = b.size ∙ ap length e ∙ z;
      cursor = omega arith;
    } in
    let (ports, q) = update-ports low high cleared on in
    (
      update low high cleared,
      ground (arith, a, b.run),
      update-OnScreen low high on,
      ap (λ k. k.cursor) q,
      λ i h. ap (λ k. get_elem? k.memory i) q ∙ b.at i ∙ ground arith,
    )
