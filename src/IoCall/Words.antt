-- ===== src/IoCall/Words.antt =====
-- A `uint32_t` in memory, written and read.
use deputy_kernel.Base.{ℕ, ◌+◌, ◌^◌, ◌<◌, ◌≤◌, ◌≡◌, refl, ◌⊎◌, arith}
use deputy_kernel.Utils.Buffers.{Bytes}
use deputy_kernel.IoCall.{load_word, store_word}

pub store_word-outside :
    (mem : Bytes) (a w b : ℕ) → (b < a) ⊎ (a + 4 ≤ b) → store_word mem a w b ≡ mem b
unfolding store_word
store_word-outside mem a w b h = ground arith

pub load_word-store_word :
    (mem : Bytes) (a w : ℕ) → w < 2 ^ 32 → load_word (store_word mem a w) a ≡ w
unfolding load_word store_word
load_word-store_word mem a w h = ground arith

pub load_word-agree :
    (mem mem' : Bytes) (a : ℕ)
    → ((b : ℕ) → a ≤ b → b < a + 4 → mem' b ≡ mem b)
    → load_word mem' a ≡ load_word mem a
unfolding load_word
load_word-agree mem mem' a h =
    rw
      (
        h a (omega arith) (omega arith),
        h (a + 1) (omega arith) (omega arith),
        h (a + 2) (omega arith) (omega arith),
        h (a + 3) (omega arith) (omega arith),
      )
      refl
