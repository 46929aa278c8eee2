-- ===== src/Utils/Hash.antt =====
-- `xorshift32`, `fnv1ahash` and `xorcipher` of source/kernel/utils.c.
mod Tests
use deputy_kernel.Base.{
  ℕ, zero, suc, ◌+◌, ◌*◌, ◌/◌, ◌%◌, ◌^◌, bit_xor, List, [], ◌∷◌, ◌==◌, Run, ok, fault, ◌>>=◌, load,
  length,
}

-- `seed` is a 32-bit word: what a shift to the left moves out is lost.
unfoldable pub xorshift32 : ℕ → ℕ
xorshift32 seed =
    let a = bit_xor seed (seed * 2 ^ 21 % 2 ^ 32) in
    let b = bit_xor a (a / 2 ^ 31) in
    let c = bit_xor b (b * 2 ^ 4 % 2 ^ 32) in c * 2685821657736338717 % 2 ^ 32

unfoldable pub fnv1a_from : List ℕ → ℕ → ℕ
fnv1a_from [] hash = hash
fnv1a_from (c ∷ bytes) hash = fnv1a_from bytes (bit_xor hash c * 0x01000193 % 2 ^ 32)

unfoldable pub fnv1ahash : List ℕ → ℕ
fnv1ahash bytes = fnv1a_from bytes 0x811C9DC5

-- The loop over the input's text; an empty key makes the index a remainder by 0.
unfoldable pub xorcipher_from : ℕ → List ℕ → List ℕ → Run (List ℕ)
xorcipher_from i [] key = ok []
xorcipher_from i (c ∷ input) key = elim (length key) [
  | zero ↦ fault
  | suc n ↦ (do
    k ← load key (i % suc n)
    rest ← xorcipher_from (suc i) input key
    ok (bit_xor c k ∷ rest))
]

-- `input` and `key` are texts.
unfoldable pub xorcipher : List ℕ → List ℕ → Run (List ℕ)
xorcipher input key = xorcipher_from 0 input key
