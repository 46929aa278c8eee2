-- ===== src/Utils/Numbers.antt =====
-- The number formats of source/kernel/utils.c: `utils_bcd2dec`, `utils_oct2bin`, `utils_itoa`,
-- `utils_xtoa` and `atoi`. An `int` that the code computes with is kept as its 32-bit word, and wraps.
pub mod Decimal
pub mod Octal
mod Tests
use deputy_kernel.Base.{
  ℕ, zero, suc, ◌+◌, ◌-◌, ◌*◌, ◌/◌, ◌%◌, ◌^◌, Bool, true, false, not, ◌&&◌, List, [], ◌∷◌, ◌==◌,
  ltb, leb, if◌then◌else◌, Run, ok, fault, ◌>>=◌, load, store, replicate, ℤ, pos, negsuc,
}

-- `sizeof(utils_RABuffer)`
abbrev pub buffer_size : ℕ
buffer_size = 64

unfoldable pub bcd2dec : ℕ → ℕ
bcd2dec bcd = (bcd % 16 + bcd / 16 * 10) % 2 ^ 8

-- A `char`, signed as on i386, as an `int`.
abbrev pub char_word : ℕ → ℕ
char_word c = if ltb c 128 then c else c + (2 ^ 32 - 256)

-- The loop of `utils_oct2bin`, `len` rounds.
unfoldable pub oct2bin_from : List ℕ → ℕ → ℕ → Run ℕ
oct2bin_from str zero n = ok n
oct2bin_from [] (suc len) n = fault
oct2bin_from (c ∷ str) (suc len) n =
    oct2bin_from str len ((n * 8 + char_word c + (2 ^ 32 - 48)) % 2 ^ 32)

unfoldable pub oct2bin : List ℕ → ℕ → Run ℕ
oct2bin str len = oct2bin_from str len 0

-- `do { digit_count++; temp /= 10; } while (temp != 0)`, on fuel.
unfoldable pub count_digits : ℕ → ℕ → ℕ
count_digits zero temp = 0
count_digits (suc n) temp =
    let rest = count_digits n (temp / 10) in if temp / 10 == 0 then 1 else suc rest

-- `(char)(num % 10) + '0'`; only INT_MIN is still negative after `num = -num`.
abbrev pub digit_char : Bool → ℕ → ℕ
digit_char still_negative num = if still_negative then 48 - num % 10 else 48 + num % 10

-- The loop over `i`, from the rounds left less one down to 0.
unfoldable pub write_digits : (is_negative still_negative : Bool) → ℕ → ℕ → List ℕ → Run (List ℕ)
write_digits is_negative still_negative zero num buffer = ok buffer
write_digits is_negative still_negative (suc i) num buffer = elim (is_negative && i == 0) [
  | true ↦ (do buffer' ← store buffer i 0x2D; write_digits is_negative still_negative i num buffer')
  | false ↦ (do
    buffer' ← store buffer i (digit_char still_negative num)
    write_digits is_negative still_negative i (num / 10) buffer')
]

-- The absolute value, and whether `num < 0`. Ten digits are enough for 32 bits.
unfoldable pub itoa_parts : Bool → ℕ → Run (List ℕ)
itoa_parts is_negative num = do
  let digit_count = count_digits 10 num + (if is_negative then 1 else 0)
  buffer ← store (replicate buffer_size 0) digit_count 0
  write_digits is_negative (is_negative && num == 2 ^ 31) digit_count num buffer

-- The buffer that `utils_itoa` returns.
unfoldable pub itoa : ℤ → Run (List ℕ)
itoa (pos n) = itoa_parts false n
itoa (negsuc n) = itoa_parts true (n + 1)

abbrev pub hex_char : ℕ → ℕ
hex_char remainder = if ltb remainder 10 then remainder + 48 else remainder - 10 + 65

-- `while (num != 0)`, on fuel: `i` and the buffer with the lowest digit first.
unfoldable pub write_hex : ℕ → ℕ → ℕ → List ℕ → Run (ℕ × List ℕ)
write_hex zero num i buffer = ok (i, buffer)
write_hex (suc n) num i buffer = elim (num == 0) [
  | true ↦ ok (i, buffer)
  | false ↦ (do
    buffer' ← store buffer i (hex_char (num % 16))
    write_hex n (num / 16) (suc i) buffer')
]

-- The loop over `j` that swaps the first `i` characters.
unfoldable pub swap_from : ℕ → ℕ → ℕ → List ℕ → Run (List ℕ)
swap_from zero j i buffer = ok buffer
swap_from (suc n) j i buffer = do
  temp ← load buffer j
  other ← load buffer (i - j - 1)
  buffer' ← store buffer j other
  buffer'' ← store buffer' (i - j - 1) temp
  swap_from n (suc j) i buffer''

unfoldable pub xtoa : ℕ → Run (List ℕ)
xtoa num = elim (num == 0) [
  | true ↦ (do buffer ← store (replicate buffer_size 0) 0 48; store buffer 1 0)
  | false ↦ (do
    (i, buffer) ← write_hex 8 num 0 (replicate buffer_size 0)
    buffer' ← store buffer i 0
    swap_from (i / 2) 0 i buffer')
]

-- A 32-bit word as an `int`.
abbrev pub to_int : ℕ → ℤ
to_int w = if ltb w (2 ^ 31) then pos w else negsuc (2 ^ 32 - w - 1)

abbrev pub is_digit : ℕ → Bool
is_digit c = leb 48 c && leb c 57

unfoldable pub skip_spaces : List ℕ → Run (List ℕ)
skip_spaces [] = fault
skip_spaces (c ∷ str) = elim (c == 32) [ true ↦ skip_spaces str | false ↦ ok (c ∷ str) ]

unfoldable pub atoi_digits : List ℕ → ℕ → Run ℕ
atoi_digits [] result = fault
atoi_digits (c ∷ str) result = elim (is_digit c) [
  | true ↦ atoi_digits str ((result * 10 + (c - 48)) % 2 ^ 32)
  | false ↦ ok result
]

-- What follows the spaces: a sign and the digits.
unfoldable pub atoi_signed : List ℕ → Run ℤ
atoi_signed [] = fault
atoi_signed (c ∷ str) = elim (c == 0x2D) [
  | true ↦ (do result ← atoi_digits str 0; ok (to_int ((2 ^ 32 - result) % 2 ^ 32)))
  | false ↦ (do result ← atoi_digits (if c == 0x2B then str else c ∷ str) 0; ok (to_int result))
]

unfoldable pub atoi : List ℕ → Run ℤ
atoi str = do rest ← skip_spaces str; atoi_signed rest
