-- ===== src/Utils/Strings/Split/Rows.antt =====
-- The table of `split` of source/kernel/utils.c while it is filled.
use deputy_kernel.Base.{
  ℕ, suc, ◌-◌, ◌<◌, ◌≤◌, ◌≡◌, refl, ap, sym, ◌∙◌, Bool, true, false, List, [], ◌∷◌, ◌++◌, map,
  arith, length, take, replicate, ok, store, load-get_elem?, store-set, get_elem?-append,
  set-append, append-snoc, length-append, length-take, take-snoc, take-snoc_full, dec_lt,
}
use deputy_kernel.Utils.Strings.Split.{Splitter, tok_count, tok_len, put_char, end_token, add_char}

-- A row of `n` bytes with the text `w`.
unfoldable pub row : ℕ → List ℕ → List ℕ
row n w = w ++ replicate (n - length w) 0

-- The table of `n` rows with the first words, cut to their rows.
unfoldable pub rows : ℕ → List (List ℕ) → List (List ℕ)
rows n ws =
    map (λ w. row tok_len (take (tok_len - 1) w)) ws ++ replicate (n - length ws) (row tok_len [])

row-suc : (n : ℕ) (w : List ℕ) → length w < n → row n w ≡ w ++ 0 ∷ replicate (n - suc (length w)) 0
unfolding row
row-suc n w h =
    let e : n - length w ≡ suc (n - suc (length w)) = omega arith in ap (λ k. w ++ replicate k 0) e

store-row :
    (n : ℕ) (w : List ℕ) (chr : ℕ)
    → length w < n
    → store (row n w) (length w) chr ≡ ok (w ++ chr ∷ replicate (n - suc (length w)) 0)
store-row n w chr h = rw (row-suc n w h) (
    store-set (w ++ 0 ∷ replicate (n - suc (length w)) 0) (length w) chr
      (omega (arith, length-append w (0 ∷ replicate (n - suc (length w)) 0)))
    ∙ ap ok (set-append w 0 chr (replicate (n - suc (length w)) 0)))

row-snoc :
    (n : ℕ) (w : List ℕ) (chr : ℕ)
    → w ++ chr ∷ replicate (n - suc (length w)) 0 ≡ row n (w ++ chr ∷ [])
unfolding row
row-snoc n w chr =
    let e : length (w ++ chr ∷ []) ≡ suc (length w) = omega (arith, length-append w (chr ∷ [])) in
    rw e (sym (append-snoc w chr (replicate (n - suc (length w)) 0)))

-- The table while the word `w` is read after the words `done`.
abbrev pub table : List (List ℕ) → List ℕ → List (List ℕ)
table done w =
    map (λ v. row tok_len (take (tok_len - 1) v)) done
    ++ row tok_len (take (tok_len - 1) w)
      ∷ replicate (tok_count - suc (length done)) (row tok_len [])

length-map : {A B : Type 0} (f : A → B) (xs : List A) → length (map f xs) ≡ length xs
length-map f [] = refl
length-map f (x ∷ xs) = ap suc (length-map f xs)

put_char-table :
    (pre post : List (List ℕ)) (w : List ℕ) (k chr : ℕ)
    → k ≡ length pre
    → length w < tok_len
    → put_char (pre ++ row tok_len w ∷ post) k (length w) chr
      ≡ ok (pre ++ (w ++ chr ∷ replicate (tok_len - suc (length w)) 0) ∷ post)
unfolding put_char
put_char-table pre post w k chr e h =
    let at =
      load-get_elem? (pre ++ row tok_len w ∷ post) (length pre)
        (get_elem?-append pre (row tok_len w) post) in
    let new = w ++ chr ∷ replicate (tok_len - suc (length w)) 0 in
    let put =
      store-set (pre ++ row tok_len w ∷ post) (length pre) new
        (omega (arith, length-append pre (row tok_len w ∷ post)))
      ∙ ap ok (set-append pre (row tok_len w) new post) in
    rw e (rw at (rw (store-row tok_len w chr h) put))

unfoldable pub nonempty : List ℕ → Bool
nonempty [] = false
nonempty (x ∷ w) = true

-- The state of `split` while the word `w` is read after the words `done`.
abbrev pub state : List (List ℕ) → List ℕ → Splitter
state done w = record {
  tok = table done w;
  count = length done;
  c = length (take (tok_len - 1) w);
  in_token = nonempty w;
}

nonempty-snoc : (w : List ℕ) (x : ℕ) → nonempty (w ++ x ∷ []) ≡ true
unfolding nonempty
nonempty-snoc [] x = refl
nonempty-snoc (y ∷ w) x = refl

nonempty-length : (w : List ℕ) → 1 ≤ length w → nonempty w ≡ true
unfolding nonempty
nonempty-length [] h = absurd (omega arith)
nonempty-length (y ∷ w) h = refl

put_char-state :
    (done : List (List ℕ)) (w : List ℕ) (chr : ℕ)
    → put_char (table done w) (length done) (length (take (tok_len - 1) w)) chr
      ≡ ok (
          map (λ v. row tok_len (take (tok_len - 1) v)) done
          ++ (take (tok_len - 1) w
              ++ chr ∷ replicate (tok_len - suc (length (take (tok_len - 1) w))) 0)
            ∷ replicate (tok_count - suc (length done)) (row tok_len []))
put_char-state done w chr =
    put_char-table (map (λ v. row tok_len (take (tok_len - 1) v)) done)
      (replicate (tok_count - suc (length done)) (row tok_len [])) (take (tok_len - 1) w)
      (length done) chr (sym (length-map (λ v. row tok_len (take (tok_len - 1) v)) done))
      (omega (arith, length-take 63 w))

add_char-room :
    (chr : ℕ) (sp : Splitter) (tok : List (List ℕ))
    → sp.c < 63
    → put_char sp.tok sp.count sp.c chr ≡ ok tok
    → add_char chr sp ≡ ok (record { tok = tok; count = sp.count; c = suc sp.c; in_token = true })
unfolding add_char
add_char-room chr sp tok h e = ground arith

add_char-dropped : (chr : ℕ) (sp : Splitter) → 63 ≤ sp.c → add_char chr sp ≡ ok sp
unfolding add_char
add_char-dropped chr sp h = ground arith

Splitter_eq :
    (sp : Splitter) {tok : List (List ℕ)} {c : ℕ}
    → tok ≡ sp.tok
    → c ≡ sp.c
    → sp.in_token ≡ true
    → record { tok = tok; count = sp.count; c = c; in_token = true } ≡ sp
Splitter_eq sp e f g = rw (e, f, sym g) refl

add_char-short :
    (done : List (List ℕ)) (w : List ℕ) (chr : ℕ)
    → length w < 63
    → add_char chr (state done w) ≡ ok (state done (w ++ chr ∷ []))
add_char-short done w chr h =
    let kept : length (take 63 w) < 63 = omega (arith, length-take 63 w) in
    let longer : length (take 63 (w ++ chr ∷ [])) ≡ suc (length (take 63 w)) =
      omega (arith, length-append w (chr ∷ []), length-take 63 w, length-take 63 (w ++ chr ∷ [])) in
    let filled = row-snoc tok_len (take 63 w) chr ∙ ap (row tok_len) (sym (take-snoc w chr 63 h)) in
    add_char-room chr (state done w) _ kept (put_char-state done w chr)
    ∙ ap ok (
        Splitter_eq (state done (w ++ chr ∷ []))
          (ap
            (λ r.
              map (λ v. row tok_len (take (tok_len - 1) v)) done
              ++ r ∷ replicate (tok_count - suc (length done)) (row tok_len []))
            filled)
          (sym longer) (nonempty-snoc w chr))

add_char-full :
    (done : List (List ℕ)) (w : List ℕ) (chr : ℕ)
    → 63 ≤ length w
    → add_char chr (state done w) ≡ ok (state done (w ++ chr ∷ []))
add_char-full done w chr h =
    add_char-dropped chr (state done w) (omega (arith, length-take 63 w))
    ∙ rw (take-snoc_full w chr 63 h, nonempty-snoc w chr, nonempty-length w (omega arith)) refl

pub add_char-state :
    (done : List (List ℕ)) (w : List ℕ) (chr : ℕ)
    → add_char chr (state done w) ≡ ok (state done (w ++ chr ∷ []))
add_char-state done w chr = elim (dec_lt (length w) 63) [
  | yes h ↦ add_char-short done w chr h
  | no h ↦ add_char-full done w chr (omega arith)
]

-- The state after the end of the word `w`.
abbrev pub ended : List (List ℕ) → List ℕ → Splitter
ended done w = record { tok = table done w; count = suc (length done); c = 0; in_token = false }

pub end_token-state :
    (done : List (List ℕ)) (w : List ℕ) → end_token (state done w) ≡ ok (ended done w)
unfolding end_token
end_token-state done w =
    rw
      (
        put_char-state done w 0,
        row-suc tok_len (take (tok_len - 1) w) (omega (arith, length-take 63 w)),
      )
      refl

map-snoc :
    {A B : Type 0} (f : A → B) (xs : List A) (x : A) (ys : List B)
    → map f (xs ++ x ∷ []) ++ ys ≡ map f xs ++ f x ∷ ys
map-snoc f [] x ys = refl
map-snoc f (y ∷ xs) x ys = ap (λ t. f y ∷ t) (map-snoc f xs x ys)

pub append-nil : {A : Type 0} (xs : List A) → xs ++ [] ≡ xs
append-nil [] = refl
append-nil (x ∷ xs) = ap (λ t. x ∷ t) (append-nil xs)

pub length-snoc : {A : Type 0} (xs : List A) (x : A) → length (xs ++ x ∷ []) ≡ suc (length xs)
length-snoc xs x = omega (arith, length-append xs (x ∷ []))

-- The table with the word `w`, at its end.
pub table-rows :
    (done : List (List ℕ)) (w : List ℕ) → table done w ≡ rows tok_count (done ++ w ∷ [])
unfolding rows
table-rows done w = rw (length-snoc done w) (
    sym (
      map-snoc (λ v. row tok_len (take (tok_len - 1) v)) done w
        (replicate (tok_count - suc (length done)) (row tok_len []))))

-- The table with no word begun.
pub table-nil :
    (done : List (List ℕ)) → length done < tok_count → table done [] ≡ rows tok_count done
unfolding rows
table-nil done h =
    let e : tok_count - length done ≡ suc (tok_count - suc (length done)) = omega arith in rw e refl

pub ended-state :
    (done : List (List ℕ)) (w : List ℕ)
    → suc (length done) < tok_count
    → ended done w ≡ state (done ++ w ∷ []) []
unfolding nonempty
ended-state done w h =
    let e =
      table-rows done w ∙ sym (table-nil (done ++ w ∷ []) (omega (arith, length-snoc done w))) in
    rw (e, length-snoc done w) refl
