-- ===== src/Utils/Strings/Split.antt =====
-- `split` of source/kernel/utils.c: the tokens of a string, in a table of fixed size.
pub mod Rows
pub mod Words
use deputy_kernel.Base.{
  ℕ, suc, ◌-◌, Bool, true, false, List, [], ◌∷◌, ◌==◌, ltb, leb, if◌then◌else◌, Run, ok, fault,
  ◌>>=◌, load, store, replicate,
}

-- `UTILS_SPLIT_TOKCOUNT` and `UTILS_SPLIT_TOKLEN`
abbrev pub tok_count : ℕ
tok_count = 32

abbrev pub tok_len : ℕ
tok_len = 64

-- The table and the local variables of `split`.
pub record Splitter : Type 0 where
  pub tok : List (List ℕ)
  pub count : ℕ
  pub c : ℕ
  pub in_token : Bool

-- `(*tok)[count][c] = chr`
unfoldable pub put_char : List (List ℕ) → (count c chr : ℕ) → Run (List (List ℕ))
put_char tok count c chr = do row ← load tok count; row' ← store row c chr; store tok count row'

-- A deliminer inside a token ends it.
unfoldable pub end_token : Splitter → Run Splitter
end_token sp = do
  tok ← put_char sp.tok sp.count sp.c 0
  ok (record { tok = tok; count = suc sp.count; c = 0; in_token = false })

-- A byte of a token: one that the row has no room for is dropped.
unfoldable pub add_char : ℕ → Splitter → Run Splitter
add_char chr sp = elim (ltb sp.c (tok_len - 1)) [
  | false ↦ ok sp
  | true ↦ (do
    tok ← put_char sp.tok sp.count sp.c chr
    ok (record { tok = tok; count = sp.count; c = suc sp.c; in_token = true }))
]

-- The loop over the string.
unfoldable pub split_loop : ℕ → List ℕ → Splitter → Run Splitter
split_loop deli [] sp = fault
split_loop deli (chr ∷ str) sp = elim (chr == 0) [
  | true ↦ ok sp
  | false ↦ elim (chr == deli) [
    | false ↦ (do sp' ← add_char chr sp; split_loop deli str sp')
    | true ↦ elim sp.in_token [
      | false ↦ split_loop deli str sp
      | true ↦ (do
        sp' ← end_token sp
        elim (leb tok_count sp'.count) [ true ↦ ok sp' | false ↦ split_loop deli str sp' ])
    ]
  ]
]

-- The token that the end of the string ends.
unfoldable pub split_end : Splitter → Run (List (List ℕ) × ℕ)
split_end sp = elim sp.in_token [
  | false ↦ ok (sp.tok, sp.count)
  | true ↦ elim (ltb sp.count tok_count) [
    | false ↦ ok (sp.tok, sp.count)
    | true ↦ (do sp' ← end_token sp; ok (sp'.tok, sp'.count))
  ]
]

-- The table of tokens and their number.
unfoldable pub split : List ℕ → ℕ → Run (List (List ℕ) × ℕ)
split str deli = do
  sp ← split_loop deli str (record {
    tok = replicate tok_count (replicate tok_len 0);
    count = 0;
    c = 0;
    in_token = false;
  })
  split_end sp
