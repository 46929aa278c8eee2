-- ===== src/Console.antt =====
-- The text console, source/kernel/console.c: the cells of the screen and the cursor. What is read
-- from the cursor's ports is an argument; what is written to ports is collected, port and byte.
pub mod Scroll
pub mod Cursor
mod Tests
use deputy_kernel.Base.{
  ℕ, zero, suc, ◌+◌, ◌-◌, ◌*◌, ◌/◌, ◌%◌, ◌^◌, Bool, true, false, not, ◌||◌, List, [], ◌∷◌, ◌++◌,
  ◌==◌, ltb, leb, if◌then◌else◌, Run, ok, fault, ◌>>=◌, load, store, replicate, ℤ, pos, negsuc,
}

-- `CONSOLE_WIDTH` and `CONSOLE_HEIGHT`
abbrev pub width : ℕ
width = 80

abbrev pub height : ℕ
height = 25

-- The variables of console.c, the cells at `console_Memory`, and the bytes written to ports.
pub record Console : Type 0 where
  pub active : Bool
  pub hard_serial : Bool
  pub memory : List ℕ
  pub color : ℕ
  pub cursor : ℕ
  pub ports : List (ℕ × ℕ)

-- `(uint16_t)(console_Color << 8) | chr`; a `char` is signed.
abbrev pub cell : ℕ → ℕ → ℕ
cell color chr = if ltb chr 128 then color * 2 ^ 8 + chr else 0xFF00 + chr

-- The cursor that the two ports report: low byte and high byte.
unfoldable pub update : (low high : ℕ) → Console → Console
update low high s =
    if not s.active
    then s
    else if s.cursor == 0xFFFF
    then record s {
      cursor = (low + high * 2 ^ 8) % 2 ^ 16;
      ports = s.ports ++ (0x3D4, 0x0F) ∷ (0x3D4, 0x0E) ∷ [];
    }
    else let cursor = if leb (width * height) s.cursor then width * height - 1 else s.cursor in
      record s {
        cursor = cursor;
        ports =
            s.ports
            ++ (0x3D4, 0x0F)
              ∷ (0x3D5, cursor % 2 ^ 8)
              ∷ (0x3D4, 0x0E)
              ∷ (0x3D5, cursor / 2 ^ 8 % 2 ^ 8)
              ∷ [];
      }

-- The first loop over `j`: each row takes the next one.
unfoldable pub move_rows : ℕ → ℕ → List ℕ → Run (List ℕ)
move_rows zero j memory = ok memory
move_rows (suc n) j memory = do
  c ← load memory (j + width)
  memory' ← store memory j c
  move_rows n (suc j) memory'

-- A loop that writes one cell to consecutive places.
unfoldable pub fill_cells : ℕ → ℕ → ℕ → List ℕ → Run (List ℕ)
fill_cells c zero j memory = ok memory
fill_cells c (suc n) j memory = do memory' ← store memory j c; fill_cells c n (suc j) memory'

unfoldable pub scroll_once : Console → Run Console
scroll_once s = do
  memory ← move_rows (width * (height - 1)) 0 s.memory
  memory' ← fill_cells (cell s.color 0) width ((height - 1) * width) memory
  ok (record s { memory = memory' })

unfoldable pub scroll_times : ℕ → Console → Run Console
scroll_times zero s = ok s
scroll_times (suc n) s = do s' ← scroll_once s; scroll_times n s'

unfoldable pub scroll : ℤ → Console → Run Console
scroll (pos times) s = if not s.active then ok s else scroll_times times s
scroll (negsuc times) s = ok s

unfoldable pub clear : (low high : ℕ) → Console → Run Console
clear low high s = if not s.active then ok s else do
  let s' = update low high s
  memory ← fill_cells 0 (width * height) 0 s'.memory
  ok (update low high (record s' { memory = memory; cursor = 0 }))

unfoldable pub serial : ℕ → Console → Console
serial chr s =
    if not s.hard_serial
    then s
    else if chr == 0x0A
    then record s { ports = s.ports ++ (0x3F8, 0x0D) ∷ (0x3F8, 0x0A) ∷ [] }
    else record s { ports = s.ports ++ (0x3F8, chr) ∷ [] }

-- `console_Memory[console_Cursor] = c; console_Cursor++`, so many times.
unfoldable pub put_cells : ℕ → ℕ → Console → Run Console
put_cells c zero s = ok s
put_cells c (suc n) s = do
  memory ← store s.memory s.cursor c
  put_cells c n (record s { memory = memory; cursor = (s.cursor + 1) % 2 ^ 16 })

-- A newline, a tab or another character, before the test for the end of the screen.
unfoldable pub advance : ℕ → Console → Run Console
advance chr s =
    if chr == 0x0A
    then ok (record s { cursor = (s.cursor / width + 1) * width % 2 ^ 16 })
    else if chr == 0x09
    then put_cells (cell s.color 0x20) (8 - s.cursor % 8) s
    else put_cells (cell s.color chr) 1 s

-- Past the end of the screen the text scrolls.
unfoldable pub wrap_cursor : Console → Run Console
wrap_cursor s = elim (leb (width * height) s.cursor) [
  | false ↦ ok s
  | true ↦ (do s' ← scroll (pos 1) s; ok (record s' { cursor = (height - 1) * width }))
]

unfoldable pub print_char : ℕ → Console → Run Console
print_char chr s = do s' ← advance chr (serial chr s); wrap_cursor s'

-- The loop over the string, of `len` characters: a NUL returns without the last update.
unfoldable pub print_from : (low high : ℕ) → List ℕ → ℕ → Console → Run Console
print_from low high str zero s = ok (update low high s)
print_from low high [] (suc n) s = fault
print_from low high (chr ∷ str) (suc n) s = elim (chr == 0) [
  | true ↦ ok s
  | false ↦ (do s' ← print_char chr s; print_from low high str n s')
]

unfoldable pub print : (low high : ℕ) → List ℕ → ℕ → Console → Run Console
print low high str len s =
    if not s.active then ok s else print_from low high str len (update low high s)
