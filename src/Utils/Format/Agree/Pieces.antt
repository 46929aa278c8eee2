-- ===== src/Utils/Format/Agree/Pieces.antt =====
-- What `printf` prints for each piece of a format.
use deputy_kernel.Base.{ℕ, ◌%◌, ◌^◌, ◌≡◌, ◌≢◌, refl, ap, List, [], ◌∷◌, ◌++◌, arith, ok, ◌>>=◌, ℤ}
use deputy_kernel.Utils.Numbers.{itoa, xtoa}
use deputy_kernel.Utils.Strings.Laws.{IsText, terminated}
use deputy_kernel.Utils.Format.{
  Arg, int, hex, chr, str, other, directive, putchar, puts, print_arg, printf,
}

pub puts-terminated : (s rest : List ℕ) → IsText s → puts (terminated s rest) ≡ ok s
unfolding puts putchar IsText
puts-terminated [] rest h = refl
puts-terminated (c ∷ s) rest (ne, h) = ground (arith, ne, puts-terminated s rest h)

pub append_assoc : (xs ys zs : List ℕ) → (xs ++ ys) ++ zs ≡ xs ++ (ys ++ zs)
append_assoc [] ys zs = refl
append_assoc (x ∷ xs) ys zs = ap (λ t. x ∷ t) (append_assoc xs ys zs)

pub print-nul : (rest : List ℕ) (args : List Arg) → printf (0 ∷ rest) args ≡ ok []
unfolding printf
print-nul [] args = refl
print-nul (d ∷ rest) args = refl

pub cons_of : (fmt rest : List ℕ) → (d : ℕ) × (ds : List ℕ) × (terminated fmt rest ≡ d ∷ ds)
cons_of [] rest = (0, rest, refl)
cons_of (c ∷ fmt) rest = (c, terminated fmt rest, refl)

pub print-plain :
    (c : ℕ) (ds : List ℕ) (args : List Arg) {t : List ℕ}
    → c ≢ 0
    → c ≢ 0x25
    → printf ds args ≡ ok t
    → printf (c ∷ ds) args ≡ ok (c ∷ t)
unfolding printf putchar
print-plain c [] args ne ne' e = absurd (ground (arith, e))
print-plain c (d ∷ ds) args ne ne' e = ground (arith, ne, ne', e)

pub print_arg-printf :
    (d : ℕ) (fmt : List ℕ) (args : List Arg) {s : List ℕ} {args' : List Arg} {t : List ℕ}
    → print_arg (directive d) d args ≡ ok (s, args')
    → printf fmt args' ≡ ok t
    → printf (0x25 ∷ d ∷ fmt) args ≡ ok (s ++ t)
unfolding printf
print_arg-printf d fmt args e f = rw (e, f) refl

pub print-string :
    (r s rest : List ℕ) (args : List Arg)
    → r ≡ terminated s rest
    → IsText s
    → ◌>>=◌ {B = List ℕ × List Arg} (puts r) (λ t. ok (t, args)) ≡ ok (s, args)
print-string r s rest args e u = rw (e, puts-terminated s rest u) refl

pub print-int :
    (z : ℤ) (s rest : List ℕ) (args : List Arg)
    → itoa z ≡ ok (terminated s rest)
    → IsText s
    → print_arg (directive 0x64) 0x64 (int z ∷ args) ≡ ok (s, args)
unfolding print_arg directive
print-int z s rest args e u = rw e (print-string (terminated s rest) s rest args refl u)

pub print-hex :
    (n : ℕ) (s rest : List ℕ) (args : List Arg)
    → xtoa n ≡ ok (terminated s rest)
    → IsText s
    → print_arg (directive 0x78) 0x78 (hex n ∷ args) ≡ ok (s, args)
unfolding print_arg directive
print-hex n s rest args e u = rw e (print-string (terminated s rest) s rest args refl u)

pub print-str :
    (s rest : List ℕ) (args : List Arg)
    → IsText s
    → print_arg (directive 0x73) 0x73 (str (terminated s rest) ∷ args) ≡ ok (s, args)
unfolding print_arg directive
print-str s rest args u = print-string (terminated s rest) s rest args refl u

pub print-chr :
    (a : ℕ) (args : List Arg)
    → a % 2 ^ 8 ≢ 0
    → print_arg (directive 0x63) 0x63 (chr a ∷ args) ≡ ok (a % 2 ^ 8 ∷ [], args)
unfolding print_arg directive putchar
print-chr a args ne = ground (arith, ne)

pub print-other :
    (c : ℕ) (args : List Arg)
    → c ≢ 0
    → c ≢ 0x25
    → directive c ≡ other
    → print_arg (directive c) c args ≡ ok (0x25 ∷ c ∷ [], args)
unfolding print_arg putchar
print-other c args ne ne' e = rw e (ground (arith, ne, ne'))
