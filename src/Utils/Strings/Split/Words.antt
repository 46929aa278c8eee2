-- ===== src/Utils/Strings/Split/Words.antt =====
-- `split` against the words of a text.
use deputy_kernel.Base.{
  ℕ, zero, suc, ◌<◌, ◌≤◌, ◌≡◌, ◌≢◌, refl, ap, sym, ◌∙◌, true, false, List, [], ◌∷◌, ◌++◌, ◌==◌,
  arith, length, take, ok, ◌>>=◌, append-snoc, take_all, ℕ_discrete, dec_lt,
}
use deputy_kernel.Utils.Strings.Laws.{IsText, terminated}
use deputy_kernel.Utils.Strings.Split.{
  Splitter, tok_count, end_token, add_char, split_loop, split_end, split,
}
use deputy_kernel.Utils.Strings.Split.Rows.{
  row, rows, nonempty, state, add_char-state, ended, end_token-state, append-nil, length-snoc,
  table-rows, table-nil, ended-state,
}

-- A word as it ends: none, if it is empty.
unfoldable pub word : List ℕ → List (List ℕ)
word [] = []
word (x ∷ w) = (x ∷ w) ∷ []

-- The nonempty words between deliminers, the first of them begun by `w`.
unfoldable pub words : ℕ → List ℕ → List ℕ → List (List ℕ)
words deli [] w = word w
words deli (c ∷ s) w = elim (c == deli) [
  | true ↦ word w ++ words deli s []
  | false ↦ words deli s (w ++ c ∷ [])
]

-- What `split` gives for the words `ws`.
abbrev pub result : List (List ℕ) → List (List ℕ) × ℕ
result ws = (rows tok_count (take tok_count ws), length (take tok_count ws))

take-append_over :
    {A : Type 0} (xs ys : List A) (n : ℕ) → n ≤ length xs → take n (xs ++ ys) ≡ take n xs
take-append_over xs ys zero h = refl
take-append_over [] ys (suc n) h = absurd (omega arith)
take-append_over (x ∷ xs) ys (suc n) h = ap (λ t. x ∷ t) (take-append_over xs ys n (omega arith))

result-short :
    (ws : List (List ℕ)) → length ws ≤ tok_count → result ws ≡ (rows tok_count ws, length ws)
result-short ws h = rw (take_all ws tok_count h) refl

split_end-token :
    (sp sp' : Splitter)
    → sp.in_token ≡ true
    → sp.count < tok_count
    → end_token sp ≡ ok sp'
    → split_end sp ≡ ok (sp'.tok, sp'.count)
unfolding split_end
split_end-token sp sp' t h e = ground arith

split_end-state :
    (done : List (List ℕ)) (w : List ℕ)
    → length done < tok_count
    → split_end (state done w) ≡ ok (result (done ++ word w))
unfolding split_end nonempty word
split_end-state done [] h =
    rw (append-nil done, result-short done (omega arith))
      (ap (λ t. ok (t, length done)) (table-nil done h))
split_end-state done (x ∷ w) h =
    let size = length-snoc done (x ∷ w) in
    split_end-token (state done (x ∷ w)) (ended done (x ∷ w)) refl h (end_token-state done (x ∷ w))
    ∙ rw (result-short (done ++ (x ∷ w) ∷ []) (omega (arith, size)), size)
        (ap (λ t. ok (t, suc (length done))) (table-rows done (x ∷ w)))

-- The end of the last word that the table has a row for.
split_end-full :
    (done : List (List ℕ)) (w : List ℕ) (ws : List (List ℕ))
    → suc (length done) ≡ tok_count
    → split_end (ended done w) ≡ ok (result (done ++ w ∷ ws))
unfolding split_end
split_end-full done w ws h =
    let size = length-snoc done w in
    let all : done ++ w ∷ ws ≡ (done ++ w ∷ []) ++ ws = sym (append-snoc done w ws) in
    let cut : take 32 ((done ++ w ∷ []) ++ ws) ≡ done ++ w ∷ [] =
      take-append_over (done ++ w ∷ []) ws 32 (omega (arith, size))
      ∙ take_all (done ++ w ∷ []) 32 (omega (arith, size)) in
    rw (all, cut, size) (ap (λ t. ok (t, suc (length done))) (table-rows done w))

words-between : (deli c : ℕ) (s : List ℕ) → c ≡ deli → words deli (c ∷ s) [] ≡ words deli s []
unfolding words word
words-between deli c s e = ground (arith, e)

words-end :
    (deli c x : ℕ) (s w : List ℕ)
    → c ≡ deli
    → words deli (c ∷ s) (x ∷ w) ≡ (x ∷ w) ∷ words deli s []
unfolding words word
words-end deli c x s w e = ground (arith, e)

words-inside :
    (deli c : ℕ) (s w : List ℕ) → c ≢ deli → words deli (c ∷ s) w ≡ words deli s (w ++ c ∷ [])
unfolding words
words-inside deli c s w e = ground (arith, e)

loop-nul : (deli : ℕ) (rest : List ℕ) (sp : Splitter) → split_loop deli (0 ∷ rest) sp ≡ ok sp
unfolding split_loop
loop-nul deli rest sp = refl

-- The steps of the loop.
module _ (deli c : ℕ) (str : List ℕ) (sp : Splitter) (ne : c ≢ 0) where
  loop-between :
      c ≡ deli → sp.in_token ≡ false → split_loop deli (c ∷ str) sp ≡ split_loop deli str sp
  unfolding split_loop
  loop-between e f = ground (arith, ne)

  loop-end :
      (sp' : Splitter)
      → c ≡ deli
      → sp.in_token ≡ true
      → end_token sp ≡ ok sp'
      → sp'.count < tok_count
      → split_loop deli (c ∷ str) sp ≡ split_loop deli str sp'
  unfolding split_loop
  loop-end sp' e f g h = ground (arith, ne)

  loop-full :
      (sp' : Splitter)
      → c ≡ deli
      → sp.in_token ≡ true
      → end_token sp ≡ ok sp'
      → tok_count ≤ sp'.count
      → split_loop deli (c ∷ str) sp ≡ ok sp'
  unfolding split_loop
  loop-full sp' e f g h = ground (arith, ne)

  loop-inside :
      (sp' : Splitter)
      → c ≢ deli
      → add_char c sp ≡ ok sp'
      → split_loop deli (c ∷ str) sp ≡ split_loop deli str sp'
  unfolding split_loop
  loop-inside sp' e f = ground (arith, ne)

split_loop-words :
    (deli : ℕ) (s rest : List ℕ) (done : List (List ℕ)) (w : List ℕ)
    → IsText s
    → length done < tok_count
    → (split_loop deli (terminated s rest) (state done w) >>= split_end)
      ≡ ok (result (done ++ words deli s w))
unfolding IsText nonempty words
split_loop-words deli [] rest done w t h =
    rw (loop-nul deli rest (state done w)) (split_end-state done w h)
split_loop-words deli (c ∷ s) rest done [] (ne, t) h = elim (ℕ_discrete c deli) [
  | yes e ↦
      rw
        (
          loop-between deli c (terminated s rest) (state done []) ne e refl,
          words-between deli c s e,
        )
        (split_loop-words deli s rest done [] t h)
  | no d ↦
      rw
        (
          loop-inside deli c (terminated s rest) (state done ([])) ne (state done ([] ++ c ∷ [])) d
              (add_char-state done ([]) c),
          words-inside deli c s ([]) d,
        )
        (split_loop-words deli s rest done ([] ++ c ∷ []) t h)
]
split_loop-words deli (c ∷ s) rest done (x ∷ w) (ne, t) h = elim (ℕ_discrete c deli) [
  | yes e ↦ elim (dec_lt (suc (length done)) tok_count) [
    | yes q ↦
        let step = end_token-state done (x ∷ w) ∙ ap ok (ended-state done (x ∷ w) q) in
        rw
          (
            loop-end deli c (terminated s rest) (state done (x ∷ w)) ne
                (state (done ++ (x ∷ w) ∷ []) []) e refl step
                (omega (arith, length-snoc done (x ∷ w))),
            words-end deli c x s w e,
            sym (append-snoc done (x ∷ w) (words deli s [])),
          )
          (split_loop-words deli s rest (done ++ (x ∷ w) ∷ []) [] t
            (omega (arith, length-snoc done (x ∷ w))))
    | no q ↦
        rw
          (
            loop-full deli c (terminated s rest) (state done (x ∷ w)) ne (ended done (x ∷ w)) e refl
                (end_token-state done (x ∷ w)) (omega arith),
            words-end deli c x s w e,
          )
          (split_end-full done (x ∷ w) (words deli s []) (omega arith))
  ]
  | no d ↦
      rw
        (
          loop-inside deli c (terminated s rest) (state done (x ∷ w)) ne
              (state done (x ∷ w ++ c ∷ [])) d (add_char-state done (x ∷ w) c),
          words-inside deli c s (x ∷ w) d,
        )
        (split_loop-words deli s rest done (x ∷ w ++ c ∷ []) t h)
]

-- `split` of a NUL-terminated text never leaves its table: the table holds the first 32 of the
-- nonempty words between deliminers, each cut to 63 characters and filled up with 0, and the
-- result is their number.
pub split-words :
    (s rest : List ℕ) (deli : ℕ)
    → IsText s
    → split (terminated s rest) deli ≡ ok (result (words deli s []))
unfolding split nonempty row
split-words s rest deli t = split_loop-words deli s rest [] [] t (omega arith)
