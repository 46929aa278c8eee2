-- ===== src/CoreFs/Header/Laws.antt =====
-- How far the writes to an entry reach.
use deputy_kernel.Base.{
  ℕ, suc, ◌+◌, ◌<◌, ◌≤◌, ◌≡◌, refl, ◌∙◌, ◌⊎◌, arith, List, [], ◌∷◌, ◌++◌, length, length-append,
}
use deputy_kernel.Utils.Buffers.{Bytes, poke, word_bytes, poke_all}
use deputy_kernel.CoreFs.{Date, max_pathlen, sizeof_entry, type_file}
use deputy_kernel.CoreFs.Header.{
  atime_offset, mtime_offset, ctime_offset, user_offset, size_offset, perm_offset, ftype_offset,
  sizeof_date, put_date, put_size, put_entry, put_file,
}

pub poke_all-outside :
    (bs : List ℕ) (a : ℕ) (mem : Bytes) (b : ℕ)
    → (b < a) ⊎ (a + length bs ≤ b)
    → poke_all bs a mem b ≡ mem b
unfolding poke_all
poke_all-outside [] a mem b h = refl
poke_all-outside (c ∷ bs) a mem b h =
    ground (arith, h, poke_all-outside bs (suc a) (poke mem a c) b)

pub put_date-outside :
    (d : Date) (a : ℕ) (mem : Bytes) (b : ℕ)
    → (b < a) ⊎ (a + sizeof_date ≤ b)
    → put_date d a mem b ≡ mem b
unfolding put_date
put_date-outside d a mem b h =
    poke_all-outside _ (a + 6) _ b (omega (arith, h))
    ∙ poke_all-outside _ a mem b (omega (arith, h))

put_entry-outside :
    (now : Date) (path : List ℕ) (type a : ℕ) (mem : Bytes) (b : ℕ)
    → length path < max_pathlen
    → (b < a) ⊎ (a + sizeof_entry ≤ b)
    → put_entry now path type a mem b ≡ mem b
unfolding put_entry word_bytes
put_entry-outside now path type a mem b short h =
    poke_all-outside _ (a + perm_offset) _ b (omega (arith, h))
    ∙ put_date-outside now (a + atime_offset) _ b (omega (arith, h))
    ∙ put_date-outside now (a + mtime_offset) _ b (omega (arith, h))
    ∙ put_date-outside now (a + ctime_offset) _ b (omega (arith, h))
    ∙ poke_all-outside _ (a + user_offset) _ b (omega (arith, h))
    ∙ poke_all-outside (path ++ 0 ∷ []) a mem b (omega (arith, h, length-append path (0 ∷ [])))

-- A new file's entry is written inside its place.
pub put_file-outside :
    (now : Date) (path : List ℕ) (size a : ℕ) (mem : Bytes) (b : ℕ)
    → length path < max_pathlen
    → (b < a) ⊎ (a + sizeof_entry ≤ b)
    → put_file now path size a mem b ≡ mem b
unfolding put_file put_size word_bytes
put_file-outside now path size a mem b short h =
    poke_all-outside _ (a + ftype_offset) _ b (omega (arith, h))
    ∙ poke_all-outside _ (a + size_offset) _ b (omega (arith, h))
    ∙ put_entry-outside now path type_file a mem b short h
