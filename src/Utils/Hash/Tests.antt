-- ===== src/Utils/Hash/Tests.antt =====
-- The hash of source/kernel/utils.c at the published values of FNV-1a, and the cipher there and back.
use deputy_kernel.Base.{◌≡◌, refl, [], ◌∷◌, ok, load}
use deputy_kernel.Utils.Hash.{xorshift32, fnv1ahash, fnv1a_from, xorcipher, xorcipher_from}

-- "a" and "foobar"
fnv1ahash_a_runs : fnv1ahash (97 ∷ []) ≡ 0xE40C292C
unfolding fnv1ahash fnv1a_from
fnv1ahash_a_runs = refl

fnv1ahash_foobar_runs : fnv1ahash (102 ∷ 111 ∷ 111 ∷ 98 ∷ 97 ∷ 114 ∷ []) ≡ 0xBF9CF968
unfolding fnv1ahash fnv1a_from
fnv1ahash_foobar_runs = refl

xorcipher_runs : xorcipher (1 ∷ 2 ∷ 3 ∷ []) (80 ∷ 81 ∷ []) ≡ ok (81 ∷ 83 ∷ 83 ∷ [])
unfolding xorcipher xorcipher_from load
xorcipher_runs = refl

xorcipher_back_runs : xorcipher (81 ∷ 83 ∷ 83 ∷ []) (80 ∷ 81 ∷ []) ≡ ok (1 ∷ 2 ∷ 3 ∷ [])
unfolding xorcipher xorcipher_from load
xorcipher_back_runs = refl

-- The shifts do not move 0.
xorshift32_zero_runs : xorshift32 0 ≡ 0
unfolding xorshift32
xorshift32_zero_runs = refl
