-- ===== src/Utils/Strings/Tests.antt =====
-- The theorems on strings and buffers at concrete texts.
use deputy_kernel.Base.{ℕ, ◌≡◌, refl, List, [], ◌∷◌, arith, ok}
use deputy_kernel.Utils.Strings.Laws.{IsText, terminated}
use deputy_kernel.Utils.Strings.Split.{split}
use deputy_kernel.Utils.Strings.Split.Words.{word, words, result, split-words}

-- "/ab//c"
abbrev path : List ℕ
path = 47 ∷ 97 ∷ 98 ∷ 47 ∷ 47 ∷ 99 ∷ []

path-IsText : IsText path
unfolding IsText
path-IsText =
    (omega arith, (omega arith, (omega arith, (omega arith, (omega arith, (omega arith, tt))))))

words_runs : words 47 path [] ≡ (97 ∷ 98 ∷ []) ∷ (99 ∷ []) ∷ []
unfolding words word
words_runs = refl

split-words_example : split (terminated path []) 47 ≡ ok (result (words 47 path []))
split-words_example = split-words path [] 47 path-IsText
