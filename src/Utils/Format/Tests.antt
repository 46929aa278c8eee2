-- ===== src/Utils/Format/Tests.antt =====
-- Runs of the formatting functions, and their theorems at a concrete format.
use deputy_kernel.Base.{
  ℕ, ◌≡◌, refl, List, [], ◌∷◌, ◌-◌, suc, arith, ok, fault, replicate, take, drop, length, negsuc,
  store,
}
use deputy_kernel.Utils.Numbers.{itoa, itoa_parts, count_digits, write_digits}
use deputy_kernel.Utils.Strings.Laws.{IsText, terminated}
use deputy_kernel.Utils.Format.{
  int, snprintf, snprintf_from, write_arg, write_other, write_char, directive, printf, print_arg,
  putchar,
}
use deputy_kernel.Utils.Format.Agree.{Text, end, plain, of_int, snprintf-Text, printf-Text}

-- "a%db" with -42
abbrev fmt : List ℕ
fmt = 97 ∷ 0x25 ∷ 0x64 ∷ 98 ∷ []

abbrev text : List ℕ
text = 97 ∷ 0x2D ∷ 52 ∷ 50 ∷ 98 ∷ []

itoa_text : itoa (negsuc 41) ≡ ok (terminated (0x2D ∷ 52 ∷ 50 ∷ []) (replicate 60 0))
unfolding itoa itoa_parts count_digits write_digits store
itoa_text = refl

Text-fmt : Text fmt (int (negsuc 41) ∷ []) text
unfolding IsText
Text-fmt = plain 97 (omega arith) (omega arith) (
    of_int (negsuc 41) (0x2D ∷ 52 ∷ 50 ∷ []) (replicate 60 0) itoa_text
      (omega arith, (omega arith, (omega arith, tt))) (plain 98 (omega arith) (omega arith) end))

snprintf-Text_example :
    let s = take (4 - 1) text in
    snprintf (replicate 8 7) 4 (terminated fmt []) (int (negsuc 41) ∷ [])
    ≡ ok (length s, terminated s (drop (suc (length s)) (replicate 8 7)))
snprintf-Text_example =
    snprintf-Text (replicate 8 7) 4 [] (omega arith) (omega arith) (omega arith) Text-fmt

printf-Text_example : printf (terminated fmt []) (int (negsuc 41) ∷ []) ≡ ok text
printf-Text_example = printf-Text [] Text-fmt

-- "%%" is one character for `printf`, and two for `snprintf`.
printf_percent_runs : printf (0x25 ∷ 0x25 ∷ 0 ∷ []) [] ≡ ok (0x25 ∷ [])
unfolding printf print_arg directive putchar
printf_percent_runs = refl

snprintf_percent_runs :
    snprintf (replicate 8 7) 8 (0x25 ∷ 0x25 ∷ 0 ∷ []) [] ≡ ok (2, 0x25 ∷ 0x25 ∷ 0 ∷ replicate 5 7)
unfolding snprintf snprintf_from write_arg write_other write_char directive store
snprintf_percent_runs = refl

-- A "%" at the end makes `printf` read past the NUL.
printf_end_runs : printf (0x25 ∷ 0 ∷ []) [] ≡ fault
unfolding printf print_arg directive putchar
printf_end_runs = refl
