-- ===== src/Utils/Format/Bounded.antt =====
-- How far the steps of `snprintf` write, for a buffer that is longer than the limit.
use deputy_kernel.Base.{
  ℕ, zero, suc, ◌%◌, ◌^◌, ◌<◌, ◌≤◌, ◌≡◌, ◌≢◌, refl, ap, sym, ◌∙◌, true, false, List, [], ◌∷◌, ◌++◌,
  ltb, arith, ok, ◌>>=◌, store, store-set, set-append, append-snoc, length, take, drop,
  length-append, length-take, take-snoc_full, take_all, ℤ, dec_lt,
}
use deputy_kernel.Utils.Numbers.{itoa, xtoa}
use deputy_kernel.Utils.Strings.Laws.{IsText, terminated}
use deputy_kernel.Utils.Format.{
  Arg, int, hex, chr, str, Output, write_char, write_string, write_other, other, directive,
  write_arg, snprintf_from,
}

pub append-nil : {A : Type 0} (xs : List A) → xs ++ [] ≡ xs
append-nil [] = refl
append-nil (x ∷ xs) = ap (λ t. x ∷ t) (append-nil xs)

-- The output with the text `full` written, as far as `limit` lets it be.
abbrev pub filled : ℕ → List ℕ → List ℕ → Output
filled limit buffer full = record {
  buffer = take limit full ++ drop (length (take limit full)) buffer;
  written = length (take limit full);
}

drop-cons : (xs : List ℕ) (n : ℕ) → n < length xs → (x : ℕ) × (drop n xs ≡ x ∷ drop (suc n) xs)
drop-cons [] n h = absurd (omega arith)
drop-cons (x ∷ xs) zero h = (x, refl)
drop-cons (x ∷ xs) (suc n) h = drop-cons xs n (omega arith)

module _ (limit : ℕ) (buffer : List ℕ) (room : limit < length buffer) where
  pub store-prefix :
      (xs : List ℕ) (c : ℕ)
      → length xs < length buffer
      → store (xs ++ drop (length xs) buffer) (length xs) c
        ≡ ok (xs ++ c ∷ drop (suc (length xs)) buffer)
  store-prefix xs c h =
      let (x, e) = drop-cons buffer (length xs) h in
      rw e (
        store-set (xs ++ x ∷ drop (suc (length xs)) buffer) (length xs) c
          (omega (arith, length-append xs (x ∷ drop (suc (length xs)) buffer)))
        ∙ ap ok (set-append xs x c (drop (suc (length xs)) buffer)))

  filled-full :
      (full : List ℕ) (c : ℕ)
      → limit ≤ length full
      → filled limit buffer (full ++ c ∷ []) ≡ filled limit buffer full
  filled-full full c h = rw (take-snoc_full full c limit h) refl

  -- The same while all of the text fits.
  short : List ℕ → Output
  short full = record { buffer = full ++ drop (length full) buffer; written = length full }

  filled-short : (full : List ℕ) → length full ≤ limit → filled limit buffer full ≡ short full
  unfolding short
  filled-short full h = rw (take_all full limit h) refl

  write_char-short :
      (full : List ℕ) (c : ℕ)
      → length full < limit
      → write_char c (short full) ≡ ok (short (full ++ c ∷ []))
  unfolding write_char short
  write_char-short full c h =
      let size : length (full ++ c ∷ []) ≡ suc (length full) =
        omega (arith, length-append full (c ∷ [])) in
      rw
        (
          store-prefix full c (omega (arith, room)),
          size,
          append-snoc full c (drop (suc (length full)) buffer),
        )
        refl

  pub write_char-filled :
      (full : List ℕ) (c : ℕ)
      → length full < limit
      → write_char c (filled limit buffer full) ≡ ok (filled limit buffer (full ++ c ∷ []))
  write_char-filled full c h =
      rw
        (
          filled-short full (omega arith),
          filled-short (full ++ c ∷ []) (omega (arith, length-append full (c ∷ []))),
        )
        (write_char-short full c h)

  pub written-filled :
      (full : List ℕ) → ltb (filled limit buffer full).written limit ≡ ltb (length full) limit
  written-filled full = ground (arith, length-take limit full)

  write_string-nul : (r : List ℕ) (out : Output) → write_string limit (0 ∷ r) out ≡ ok out
  unfolding write_string
  write_string-nul r out = refl

  write_string-room :
      (c : ℕ) (s : List ℕ) (out : Output) {out' : Output}
      → c ≢ 0
      → ltb out.written limit ≡ true
      → write_char c out ≡ ok out'
      → write_string limit (c ∷ s) out ≡ write_string limit s out'
  unfolding write_string
  write_string-room c s out ne h e = ground (arith, ne)

  write_string-full :
      (c : ℕ) (s : List ℕ) (out : Output)
      → c ≢ 0
      → ltb out.written limit ≡ false
      → write_string limit (c ∷ s) out ≡ ok out
  unfolding write_string
  write_string-full c s out ne h = ground (arith, ne)

  filled-append_full :
      (full s : List ℕ)
      → limit ≤ length full
      → filled limit buffer (full ++ s) ≡ filled limit buffer full
  filled-append_full full [] h = rw (append-nil full) refl
  filled-append_full full (c ∷ s) h =
      rw
        (
          sym (append-snoc full c s),
          filled-append_full (full ++ c ∷ []) s (omega (arith, length-append full (c ∷ []))),
        )
        (filled-full full c h)

  write_string-filled :
      (full s rest : List ℕ)
      → IsText s
      → write_string limit (terminated s rest) (filled limit buffer full)
        ≡ ok (filled limit buffer (full ++ s))
  unfolding IsText
  write_string-filled full [] rest t =
      rw (append-nil full) (write_string-nul rest (filled limit buffer full))
  write_string-filled full (c ∷ s) rest (ne, t) = elim (dec_lt (length full) limit) [
    | yes h ↦
        write_string-room c (terminated s rest) (filled limit buffer full) ne
          (written-filled full ∙ ground arith) (write_char-filled full c h)
        ∙ write_string-filled (full ++ c ∷ []) s rest t
        ∙ ap (λ x. ok (filled limit buffer x)) (append-snoc full c s)
    | no h ↦
        write_string-full c (terminated s rest) (filled limit buffer full) ne
          (written-filled full ∙ ground arith)
        ∙ ap ok (sym (filled-append_full full (c ∷ s) (omega arith)))
  ]

  write_other-both :
      (c : ℕ) (out out' : Output)
      → write_char 0x25 out ≡ ok out'
      → ltb out'.written limit ≡ true
      → write_other limit c out ≡ write_char c out'
  unfolding write_other
  write_other-both c out out' e h = ground (arith, e, h)

  write_other-one :
      (c : ℕ) (out out' : Output)
      → write_char 0x25 out ≡ ok out'
      → ltb out'.written limit ≡ false
      → write_other limit c out ≡ ok out'
  unfolding write_other
  write_other-one c out out' e h = ground (arith, e, h)

  write_other-filled :
      (full : List ℕ) (c : ℕ)
      → length full < limit
      → write_other limit c (filled limit buffer full)
        ≡ ok (filled limit buffer (full ++ 0x25 ∷ c ∷ []))
  write_other-filled full c h = elim (dec_lt (suc (length full)) limit) [
    | yes q ↦
        write_other-both c (filled limit buffer full) (filled limit buffer (full ++ 0x25 ∷ []))
          (write_char-filled full 0x25 h)
          (written-filled (full ++ 0x25 ∷ []) ∙ ground (arith, length-append full (0x25 ∷ [])))
        ∙ write_char-filled (full ++ 0x25 ∷ []) c (omega (arith, length-append full (0x25 ∷ [])))
        ∙ ap (λ x. ok (filled limit buffer x)) (append-snoc full 0x25 (c ∷ []))
    | no q ↦
        write_other-one c (filled limit buffer full) (filled limit buffer (full ++ 0x25 ∷ []))
          (write_char-filled full 0x25 h)
          (written-filled (full ++ 0x25 ∷ []) ∙ ground (arith, length-append full (0x25 ∷ [])))
        ∙ ap ok (
            sym (
              filled-append_full (full ++ 0x25 ∷ []) (c ∷ [])
                (omega (arith, length-append full (0x25 ∷ [])))))
        ∙ ap (λ x. ok (filled limit buffer x)) (append-snoc full 0x25 (c ∷ []))
  ]

  pub from-nul :
      (rest : List ℕ) (args : List Arg) (out : Output)
      → snprintf_from limit (0 ∷ rest) args out ≡ ok out
  unfolding snprintf_from
  from-nul [] args out = refl
  from-nul (d ∷ rest) args out = refl

  from-stopped :
      (c : ℕ) (fmt : List ℕ) (args : List Arg) (out : Output)
      → ltb out.written limit ≡ false
      → snprintf_from limit (c ∷ fmt) args out ≡ ok out
  unfolding snprintf_from
  from-stopped c [] args out h = ground arith
  from-stopped c (d ∷ fmt) args out h = ground arith

  pub from-plain :
      (c d : ℕ) (fmt : List ℕ) (args : List Arg) (out : Output) {out' : Output}
      → c ≢ 0
      → c ≢ 0x25
      → ltb out.written limit ≡ true
      → write_char c out ≡ ok out'
      → snprintf_from limit (c ∷ d ∷ fmt) args out ≡ snprintf_from limit (d ∷ fmt) args out'
  unfolding snprintf_from
  from-plain c d fmt args out ne ne' h e = ground (arith, ne, ne')

  pub from-arg :
      (d : ℕ) (fmt : List ℕ) (args : List Arg) (out : Output) {out' : Output} {args' : List Arg}
      → d ≢ 0
      → ltb out.written limit ≡ true
      → write_arg limit (directive d) d args out ≡ ok (out', args')
      → snprintf_from limit (0x25 ∷ d ∷ fmt) args out ≡ snprintf_from limit fmt args' out'
  unfolding snprintf_from
  from-arg d fmt args out ne h e = ground (arith, ne)

  -- A full buffer ends the loop.
  pub stopped :
      (fmt rest : List ℕ) (args : List Arg) (full t : List ℕ)
      → limit ≤ length full
      → snprintf_from limit (terminated fmt rest) args (filled limit buffer full)
        ≡ ok (filled limit buffer (full ++ t))
  stopped [] rest args full t h =
      from-nul rest args (filled limit buffer full) ∙ ap ok (sym (filled-append_full full t h))
  stopped (c ∷ fmt) rest args full t h =
      from-stopped c (terminated fmt rest) args (filled limit buffer full)
        (written-filled full ∙ ground arith)
      ∙ ap ok (sym (filled-append_full full t h))

  pub arg-other :
      (c : ℕ) (args : List Arg) (full : List ℕ)
      → length full < limit
      → directive c ≡ other
      → write_arg limit (directive c) c args (filled limit buffer full)
        ≡ ok (filled limit buffer (full ++ 0x25 ∷ c ∷ []), args)
  unfolding write_arg
  arg-other c args full h e = rw e (rw (write_other-filled full c h) refl)

  pub arg-string :
      (d : ℕ) (s rest : List ℕ) (a : Arg) (args : List Arg) (full : List ℕ)
      → write_arg limit (directive d) d (a ∷ args) (filled limit buffer full) ≡ (
          write_string limit (terminated s rest) (filled limit buffer full) >>= λ out.
          ok (out, args))
      → IsText s
      → write_arg limit (directive d) d (a ∷ args) (filled limit buffer full)
        ≡ ok (filled limit buffer (full ++ s), args)
  arg-string d s rest a args full e t = e ∙ rw (write_string-filled full s rest t) refl

  pub arg-int :
      (z : ℤ) (s rest : List ℕ) (args : List Arg) (out : Output)
      → itoa z ≡ ok (terminated s rest)
      → write_arg limit (directive 0x64) 0x64 (int z ∷ args) out
        ≡ (write_string limit (terminated s rest) out >>= λ out'. ok (out', args))
  unfolding write_arg directive
  arg-int z s rest args out e = rw e refl

  pub arg-hex :
      (n : ℕ) (s rest : List ℕ) (args : List Arg) (out : Output)
      → xtoa n ≡ ok (terminated s rest)
      → write_arg limit (directive 0x78) 0x78 (hex n ∷ args) out
        ≡ (write_string limit (terminated s rest) out >>= λ out'. ok (out', args))
  unfolding write_arg directive
  arg-hex n s rest args out e = rw e refl

  pub arg-str :
      (s : List ℕ) (args : List Arg) (out : Output)
      → write_arg limit (directive 0x73) 0x73 (str s ∷ args) out
        ≡ (write_string limit s out >>= λ out'. ok (out', args))
  unfolding write_arg directive
  arg-str s args out = refl

  pub arg-chr :
      (a : ℕ) (args : List Arg) (full : List ℕ)
      → length full < limit
      → write_arg limit (directive 0x63) 0x63 (chr a ∷ args) (filled limit buffer full)
        ≡ ok (filled limit buffer (full ++ a % 2 ^ 8 ∷ []), args)
  unfolding write_arg directive
  arg-chr a args full h = ground (arith, written-filled full, write_char-filled full (a % 2 ^ 8) h)
