-- ===== src/Utils/Format.antt =====
-- `snprintf` and `printf` of source/kernel/utils.c. A format is a text, without its NUL; `va_arg`
-- takes from a list of arguments, and one of another type, or none, is a fault.
pub mod Agree
pub mod Bounded
mod Tests
use deputy_kernel.Base.{
  ℕ, zero, suc, ◌+◌, ◌-◌, ◌%◌, ◌^◌, true, false, not, ◌||◌, List, [], ◌∷◌, ◌++◌, ◌==◌, ltb,
  if◌then◌else◌, Run, ok, fault, ◌>>=◌, load, store, ℤ,
}
use deputy_kernel.Utils.Numbers.{itoa, xtoa}

-- An argument: for `%d`, `%x`, `%c` and `%s`. A string is its buffer.
pub data Arg : Type 0 where
  int : ℤ → Arg
  hex : ℕ → Arg
  chr : ℕ → Arg
  str : List ℕ → Arg

-- The buffer, and how many characters have been written to it.
pub record Output : Type 0 where
  pub buffer : List ℕ
  pub written : ℕ

-- `buffer[written++] = c`
unfoldable pub write_char : ℕ → Output → Run Output
write_char c out = do
  buffer ← store out.buffer out.written c
  ok (record { buffer = buffer; written = suc out.written })

-- The loops over `j`: the characters before the NUL, as long as there is room.
unfoldable pub write_string : ℕ → List ℕ → Output → Run Output
write_string limit [] out = fault
write_string limit (c ∷ s) out = elim (c == 0) [
  | true ↦ ok out
  | false ↦ elim (ltb out.written limit) [
    | false ↦ ok out
    | true ↦ (do out' ← write_char c out; write_string limit s out')
  ]
]

-- Any other character after a `%`.
unfoldable pub write_other : ℕ → ℕ → Output → Run Output
write_other limit c out = do
  out' ← write_char 0x25 out
  elim (ltb out'.written limit) [ true ↦ write_char c out' | false ↦ ok out' ]

-- The cases of the `switch` on the character after a `%`.
pub data Directive : Type 0 where
  decimal : Directive
  hexadecimal : Directive
  character : Directive
  string : Directive
  other : Directive

unfoldable pub directive : ℕ → Directive
directive c =
    if c == 0x64
    then decimal
    else if c == 0x78
    then hexadecimal
    else if c == 0x63
    then character
    else if c == 0x73
    then string
    else other

-- The `switch`: the output and the arguments left.
unfoldable pub write_arg : ℕ → Directive → ℕ → List Arg → Output → Run (Output × List Arg)
write_arg limit decimal c (int num ∷ args) out = do
  num_str ← itoa num
  out' ← write_string limit num_str out
  ok (out', args)
write_arg limit hexadecimal c (hex num ∷ args) out = do
  hex_str ← xtoa num
  out' ← write_string limit hex_str out
  ok (out', args)
write_arg limit character c (chr a ∷ args) out = elim (ltb out.written limit) [
  | true ↦ (do out' ← write_char (a % 2 ^ 8) out; ok (out', args))
  | false ↦ ok (out, args)
]
write_arg limit string c (str s ∷ args) out = do out' ← write_string limit s out; ok (out', args)
write_arg limit other c args out = do out' ← write_other limit c out; ok (out', args)
write_arg limit d c args out = fault

-- The loop over the format's buffer.
unfoldable pub snprintf_from : ℕ → List ℕ → List Arg → Output → Run Output
snprintf_from limit [] args out = fault
snprintf_from limit (c ∷ []) args out = elim (c == 0 || not (ltb out.written limit)) [
  | true ↦ ok out
  | false ↦ fault
]
snprintf_from limit (c ∷ d ∷ fmt) args out = elim (c == 0 || not (ltb out.written limit)) [
  | true ↦ ok out
  | false ↦ elim (c == 0x25) [
    | false ↦ (do out' ← write_char c out; snprintf_from limit (d ∷ fmt) args out')
    | true ↦ elim (d == 0) [
      | true ↦ ok out
      | false ↦ (do
        (out', args') ← write_arg limit (directive d) d args out
        snprintf_from limit fmt args' out')
    ]
  ]
]

-- The buffer, and the size of the output. `size - 1` is a `size_t` difference.
unfoldable pub snprintf : List ℕ → ℕ → List ℕ → List Arg → Run (ℕ × List ℕ)
snprintf buffer size fmt args = do
  out ←
      snprintf_from ((size + 2 ^ 32 - 1) % 2 ^ 32) fmt args
        (record { buffer = buffer; written = 0 })
  buffer' ← store out.buffer out.written 0
  ok (out.written, buffer')

-- What `putchar` hands to the console, and what `puts` does.
unfoldable pub putchar : ℕ → List ℕ
putchar c = if c == 0 then [] else c ∷ []

unfoldable pub puts : List ℕ → Run (List ℕ)
puts [] = fault
puts (c ∷ s) = elim (c == 0) [ true ↦ ok [] | false ↦ (do t ← puts s; ok (putchar c ++ t)) ]

unfoldable pub print_arg : Directive → ℕ → List Arg → Run (List ℕ × List Arg)
print_arg decimal c (int num ∷ args) = do num_str ← itoa num; t ← puts num_str; ok (t, args)
print_arg hexadecimal c (hex num ∷ args) = do hex_str ← xtoa num; t ← puts hex_str; ok (t, args)
print_arg character c (chr a ∷ args) = ok (putchar (a % 2 ^ 8), args)
print_arg string c (str s ∷ args) = do t ← puts s; ok (t, args)
print_arg other c args = ok (if c == 0x25 then putchar 0x25 else putchar 0x25 ++ putchar c, args)
print_arg d c args = fault

-- What `printf` prints. The character after a `%` is passed over even if it is the NUL.
unfoldable pub printf : List ℕ → List Arg → Run (List ℕ)
printf [] args = fault
printf (c ∷ []) args = elim (c == 0) [ true ↦ ok [] | false ↦ fault ]
printf (c ∷ d ∷ fmt) args = elim (c == 0) [
  | true ↦ ok []
  | false ↦ elim (c == 0x25) [
    | false ↦ (do t ← printf (d ∷ fmt) args; ok (putchar c ++ t))
    | true ↦ (do (t, args') ← print_arg (directive d) d args; t' ← printf fmt args'; ok (t ++ t'))
  ]
]
