-- ===== src/Utils/Format/Agree.antt =====
-- `snprintf` and `printf` against the text of a format: where they agree.
pub mod Pieces
use deputy_kernel.Base.{
  ℕ, suc, ◌+◌, ◌-◌, ◌%◌, ◌^◌, ◌<◌, ◌≤◌, ◌≡◌, ◌≢◌, refl, ap, sym, ◌∙◌, true, List, [], ◌∷◌, ◌++◌,
  ltb, arith, ok, ◌>>=◌, store, append-snoc, length, take, drop, length-take, take_all, ℤ, dec_lt,
}
use deputy_kernel.Utils.Numbers.{itoa, xtoa}
use deputy_kernel.Utils.Strings.Laws.{IsText, terminated}
use deputy_kernel.Utils.Format.{
  Arg, int, hex, chr, str, Output, other, directive, snprintf_from, snprintf, putchar, puts,
  print_arg, printf,
}
use deputy_kernel.Utils.Format.Bounded.{
  append-nil, from-nul, from-plain, from-arg, stopped, arg-other, arg-string, arg-int, arg-hex,
  arg-str, arg-chr, write_char-filled, written-filled, store-prefix, filled,
}
use deputy_kernel.Utils.Format.Agree.Pieces.{
  puts-terminated, append_assoc, print-nul, cons_of, print-plain, print_arg-printf, print-string,
  print-int, print-hex, print-str, print-chr, print-other,
}

-- The text of a format and its arguments. A `%%` and a `%` at the end are left out: the two
-- functions print them differently.
pub data Text : List ℕ → List Arg → List ℕ → Type 0 where
  end : {args : List Arg} → Text [] args []
  plain :
      (c : ℕ) {fmt : List ℕ} {args : List Arg} {t : List ℕ}
      → c ≢ 0
      → c ≢ 0x25
      → Text fmt args t
      → Text (c ∷ fmt) args (c ∷ t)
  unknown :
      (c : ℕ) {fmt : List ℕ} {args : List Arg} {t : List ℕ}
      → c ≢ 0
      → c ≢ 0x25
      → directive c ≡ other
      → Text fmt args t
      → Text (0x25 ∷ c ∷ fmt) args (0x25 ∷ c ∷ t)
  of_int :
      (z : ℤ) (s rest : List ℕ) {fmt : List ℕ} {args : List Arg} {t : List ℕ}
      → itoa z ≡ ok (terminated s rest)
      → IsText s
      → Text fmt args t
      → Text (0x25 ∷ 0x64 ∷ fmt) (int z ∷ args) (s ++ t)
  of_hex :
      (n : ℕ) (s rest : List ℕ) {fmt : List ℕ} {args : List Arg} {t : List ℕ}
      → xtoa n ≡ ok (terminated s rest)
      → IsText s
      → Text fmt args t
      → Text (0x25 ∷ 0x78 ∷ fmt) (hex n ∷ args) (s ++ t)
  of_chr :
      (a : ℕ) {fmt : List ℕ} {args : List Arg} {t : List ℕ}
      → a % 2 ^ 8 ≢ 0
      → Text fmt args t
      → Text (0x25 ∷ 0x63 ∷ fmt) (chr a ∷ args) (a % 2 ^ 8 ∷ t)
  of_str :
      (s rest : List ℕ) {fmt : List ℕ} {args : List Arg} {t : List ℕ}
      → IsText s
      → Text fmt args t
      → Text (0x25 ∷ 0x73 ∷ fmt) (str (terminated s rest) ∷ args) (s ++ t)

module _ (limit : ℕ) (buffer rest : List ℕ) (room : limit < length buffer) where
  -- With room left.
  has_room :
      (full : List ℕ) → length full < limit → ltb (filled limit buffer full).written limit ≡ true
  has_room full h = written-filled limit buffer room full ∙ ground arith

  snprintf_from-Text :
      {fmt : List ℕ} {args : List Arg} {t : List ℕ} (full : List ℕ)
      → Text fmt args t
      → snprintf_from limit (terminated fmt rest) args (filled limit buffer full)
        ≡ ok (filled limit buffer (full ++ t))
  snprintf_from-Text full (end {args}) =
      rw (append-nil full) (from-nul limit buffer room rest args (filled limit buffer full))
  snprintf_from-Text full (plain c {fmt} {args} {t} ne ne' x) = elim (dec_lt (length full) limit) [
    | yes h ↦
        let (d, ds, e) = cons_of fmt rest in
        ap (λ k. snprintf_from limit (c ∷ k) args (filled limit buffer full)) e
        ∙ from-plain limit buffer room c d ds args (filled limit buffer full) ne ne'
            (has_room full h) (write_char-filled limit buffer room full c h)
        ∙ ap (λ k. snprintf_from limit k args (filled limit buffer (full ++ c ∷ []))) (sym e)
        ∙ snprintf_from-Text (full ++ c ∷ []) x
        ∙ ap (λ k. ok (filled limit buffer k)) (append-snoc full c t)
    | no h ↦ stopped limit buffer room (c ∷ fmt) rest args full (c ∷ t) (omega arith)
  ]
  snprintf_from-Text full (unknown c {fmt} {args} {t} ne ne' o x) =
      elim (dec_lt (length full) limit) [
        | yes h ↦
            from-arg limit buffer room c (terminated fmt rest) args (filled limit buffer full) ne
              (has_room full h) (arg-other limit buffer room c args full h o)
            ∙ snprintf_from-Text (full ++ 0x25 ∷ c ∷ []) x
            ∙ ap (λ k. ok (filled limit buffer k)) (append_assoc full (0x25 ∷ c ∷ []) t)
        | no h ↦
            stopped limit buffer room (0x25 ∷ c ∷ fmt) rest args full (0x25 ∷ c ∷ t) (omega arith)
      ]
  snprintf_from-Text full (of_int z s rest' {fmt} {args} {t} e u x) =
      elim (dec_lt (length full) limit) [
        | yes h ↦
            let run =
              arg-string limit buffer room 0x64 s rest' (int z) args full
                (arg-int limit buffer room z s rest' args (filled limit buffer full) e) u in
            from-arg limit buffer room 0x64 (terminated fmt rest) (int z ∷ args)
              (filled limit buffer full) (omega arith) (has_room full h) run
            ∙ snprintf_from-Text (full ++ s) x
            ∙ ap (λ k. ok (filled limit buffer k)) (append_assoc full s t)
        | no h ↦
            stopped limit buffer room (0x25 ∷ 0x64 ∷ fmt) rest (int z ∷ args) full (s ++ t)
              (omega arith)
      ]
  snprintf_from-Text full (of_hex n s rest' {fmt} {args} {t} e u x) =
      elim (dec_lt (length full) limit) [
        | yes h ↦
            let run =
              arg-string limit buffer room 0x78 s rest' (hex n) args full
                (arg-hex limit buffer room n s rest' args (filled limit buffer full) e) u in
            from-arg limit buffer room 0x78 (terminated fmt rest) (hex n ∷ args)
              (filled limit buffer full) (omega arith) (has_room full h) run
            ∙ snprintf_from-Text (full ++ s) x
            ∙ ap (λ k. ok (filled limit buffer k)) (append_assoc full s t)
        | no h ↦
            stopped limit buffer room (0x25 ∷ 0x78 ∷ fmt) rest (hex n ∷ args) full (s ++ t)
              (omega arith)
      ]
  snprintf_from-Text full (of_chr a {fmt} {args} {t} ne x) = elim (dec_lt (length full) limit) [
    | yes h ↦
        from-arg limit buffer room 0x63 (terminated fmt rest) (chr a ∷ args)
          (filled limit buffer full) (omega arith) (has_room full h)
          (arg-chr limit buffer room a args full h)
        ∙ snprintf_from-Text (full ++ a % 2 ^ 8 ∷ []) x
        ∙ ap (λ k. ok (filled limit buffer k)) (append-snoc full (a % 2 ^ 8) t)
    | no h ↦
        stopped limit buffer room (0x25 ∷ 0x63 ∷ fmt) rest (chr a ∷ args) full (a % 2 ^ 8 ∷ t)
          (omega arith)
  ]
  snprintf_from-Text full (of_str s rest' {fmt} {args} {t} u x) =
      elim (dec_lt (length full) limit) [
        | yes h ↦
            let run =
              arg-string limit buffer room 0x73 s rest' (str (terminated s rest')) args full
                (arg-str limit buffer room (terminated s rest') args (filled limit buffer full))
                u in
            from-arg limit buffer room 0x73 (terminated fmt rest) (str (terminated s rest') ∷ args)
              (filled limit buffer full) (omega arith) (has_room full h) run
            ∙ snprintf_from-Text (full ++ s) x
            ∙ ap (λ k. ok (filled limit buffer k)) (append_assoc full s t)
        | no h ↦
            stopped limit buffer room (0x25 ∷ 0x73 ∷ fmt) rest (str (terminated s rest') ∷ args)
              full (s ++ t) (omega arith)
      ]

filled-nil :
    (limit : ℕ) (buffer : List ℕ) → filled limit buffer [] ≡ record { buffer = buffer; written = 0 }
filled-nil limit buffer =
    let e : take {A = ℕ} limit [] ≡ [] = take_all [] limit (omega arith) in rw e refl

snprintf_lem :
    (buffer : List ℕ) (size limit : ℕ) (fmt : List ℕ) (args : List Arg) {out : Output} {b : List ℕ}
    → (size + 2 ^ 32 - 1) % 2 ^ 32 ≡ limit
    → snprintf_from limit fmt args (record { buffer = buffer; written = 0 }) ≡ ok out
    → store out.buffer out.written 0 ≡ ok b
    → snprintf buffer size fmt args ≡ ok (out.written, b)
unfolding snprintf
snprintf_lem buffer size limit fmt args l e f = rw (l, e, f) refl

-- `snprintf` into a buffer of at least `size` bytes, with `size` from 1 to below 2 ^ 32, for a
-- format with a text (one without `%%` and without a `%` at its end, and arguments of the types
-- it names, where the byte of a `%c` is not 0): it writes the first `size` - 1 characters of the
-- text and a NUL, leaves the rest of the buffer, and returns how many characters it wrote.
pub snprintf-Text :
    (buffer : List ℕ) (size : ℕ) {fmt : List ℕ} (rest : List ℕ) {args : List Arg} {t : List ℕ}
    → 1 ≤ size
    → size ≤ length buffer
    → size < 2 ^ 32
    → Text fmt args t
    → let s = take (size - 1) t in
      snprintf buffer size (terminated fmt rest) args
      ≡ ok (length s, terminated s (drop (suc (length s)) buffer))
snprintf-Text buffer size {fmt} rest {args} {t} low high small x =
    let room : size - 1 < length buffer = omega arith in
    let limit : (size + 2 ^ 32 - 1) % 2 ^ 32 ≡ size - 1 = omega arith in
    let run = snprintf_from-Text (size - 1) buffer rest room [] x in
    let nul =
      store-prefix (size - 1) buffer room (take (size - 1) t) 0
        (omega (arith, length-take (size - 1) t)) in
    let from_start =
      ap (λ o. snprintf_from (size - 1) (terminated fmt rest) args o)
        (filled-nil (size - 1) buffer) in
    snprintf_lem buffer size (size - 1) (terminated fmt rest) args limit (sym from_start ∙ run) nul

-- `printf` of a format with a text (one without `%%` and without a `%` at its end, and arguments
-- of the types it names, where the byte of a `%c` is not 0) prints that text.
pub printf-Text :
    {fmt : List ℕ} (rest : List ℕ) {args : List Arg} {t : List ℕ}
    → Text fmt args t
    → printf (terminated fmt rest) args ≡ ok t
printf-Text rest (end {args}) = print-nul rest args
printf-Text rest (plain c {fmt} {args} ne ne' x) =
    print-plain c (terminated fmt rest) args ne ne' (printf-Text rest x)
printf-Text rest (unknown c {fmt} {args} ne ne' o x) =
    print_arg-printf c (terminated fmt rest) args (print-other c args ne ne' o) (printf-Text rest x)
printf-Text rest (of_int z s rest' {fmt} {args} e u x) =
    print_arg-printf 0x64 (terminated fmt rest) (int z ∷ args) (print-int z s rest' args e u)
      (printf-Text rest x)
printf-Text rest (of_hex n s rest' {fmt} {args} e u x) =
    print_arg-printf 0x78 (terminated fmt rest) (hex n ∷ args) (print-hex n s rest' args e u)
      (printf-Text rest x)
printf-Text rest (of_chr a {fmt} {args} ne x) =
    print_arg-printf 0x63 (terminated fmt rest) (chr a ∷ args) (print-chr a args ne)
      (printf-Text rest x)
printf-Text rest (of_str s rest' {fmt} {args} u x) =
    print_arg-printf 0x73 (terminated fmt rest) (str (terminated s rest') ∷ args)
      (print-str s rest' args u) (printf-Text rest x)
