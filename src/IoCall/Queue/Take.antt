-- ===== src/IoCall/Queue/Take.antt =====
-- A read takes the oldest bytes from the queue of a device file.
use deputy_kernel.Base.{
  ℕ, ◌+◌, ◌-◌, ◌%◌, ◌^◌, ◌<◌, ◌≤◌, min, ◌≡◌, refl, ap, ap₂, sym, subst, ◌∙◌, ◌⊎◌, inr, arith, ◌++◌,
  dec_lt,
}
use deputy_kernel.Utils.Buffers.{Bytes, fill, ncopy, range_bytes}
use deputy_kernel.Utils.Buffers.Laws.{fill-at, ncopy-copied, ncopy-outside}
use deputy_kernel.Utils.Buffers.Ranges.{range_bytes-agree, range_bytes-add}
use deputy_kernel.IoCall.{load_word, store_word, take_waiting}
use deputy_kernel.IoCall.Words.{store_word-outside, load_word-store_word, load_word-agree}
use deputy_kernel.IoCall.Queue.{queue, IsDevice, Apart}

module _ (dev size buf count : ℕ) (mem : Bytes) (d : IsDevice dev size mem)
    (apart : Apart buf count dev size) where
  abbrev waiting : ℕ
  waiting = load_word mem dev

  abbrev given_count : ℕ
  given_count = min count waiting

  abbrev copied : Bytes
  copied = ncopy buf (dev + 4) given_count mem

  abbrev some_left : Bytes
  some_left =
      store_word
        (fill (dev + 4 + (waiting - given_count)) 0 (size - 4 - (waiting - given_count))
          (ncopy (dev + 4) (dev + 4 + given_count) (waiting - given_count) copied))
        dev (waiting - given_count)

  abbrev none_left : Bytes
  none_left = fill (dev + 4) 0 (size - 4) (store_word copied dev 0)

  take_waiting-some :
      count < waiting → take_waiting dev buf count size mem ≡ (given_count, some_left)
  unfolding take_waiting
  take_waiting-some lt =
      let e : given_count ≡ count = omega arith in
      let r = d.room in
      let b = d.bound in
      let f : (size + 2 ^ 32 - 4 - (waiting - count)) % 2 ^ 32 ≡ size - 4 - (waiting - count) =
        omega arith in
      rw e (ground (arith, lt, f))

  take_waiting-none :
      waiting ≤ count → take_waiting dev buf count size mem ≡ (given_count, none_left)
  unfolding take_waiting
  take_waiting-none le =
      let e : given_count ≡ waiting = omega arith in
      let r = d.room in
      let b = d.bound in
      let f : (size + 2 ^ 32 - 4) % 2 ^ 32 ≡ size - 4 = omega arith in rw e (ground (arith, le, f))

  -- What is left behind, byte by byte.
  record Left (mem' : Bytes) : Type 0 where
    outside : (a : ℕ) → (a < dev) ⊎ (dev + size ≤ a) → mem' a ≡ copied a
    number : load_word mem' dev ≡ waiting - given_count
    moved :
        (i : ℕ) → i < waiting - given_count → mem' (dev + 4 + i) ≡ mem (dev + 4 + given_count + i)

  some_left-Left : count < waiting → Left some_left
  some_left-Left lt =
      let r = d.room in
      let b = d.bound in
      record {
        outside = λ a out.
            store_word-outside _ dev (waiting - given_count) a (omega (arith, out))
            ∙ ground (
              arith,
              fill-at (dev + 4 + (waiting - given_count)) 0 (size - 4 - (waiting - given_count))
                  (ncopy (dev + 4) (dev + 4 + given_count) (waiting - given_count) copied) a,
              ncopy-outside (dev + 4) (dev + 4 + given_count) (waiting - given_count) copied a,
              out,
            );
        number = load_word-store_word _ dev (waiting - given_count) (omega arith);
        moved = λ i below.
            store_word-outside _ dev (waiting - given_count) (dev + 4 + i) (inr (omega arith))
            ∙ ground (
              arith,
              fill-at (dev + 4 + (waiting - given_count)) 0 (size - 4 - (waiting - given_count))
                  (ncopy (dev + 4) (dev + 4 + given_count) (waiting - given_count) copied)
                  (dev + 4 + i),
              ncopy-copied (dev + 4) (dev + 4 + given_count) (waiting - given_count) copied
                  (waiting - given_count) i,
              ncopy-outside buf (dev + 4) given_count mem (dev + 4 + given_count + i),
              apart,
            );
      }

  none_left-Left : waiting ≤ count → Left none_left
  none_left-Left le =
      let r = d.room in
      let b = d.bound in
      record {
        outside = λ a out. ground (
          arith,
          fill-at (dev + 4) 0 (size - 4) (store_word copied dev 0) a,
          store_word-outside copied dev 0 a,
          out,
        );
        number =
            load_word-agree (store_word copied dev 0) none_left dev (λ a from to.
              ground (arith, fill-at (dev + 4) 0 (size - 4) (store_word copied dev 0) a))
            ∙ load_word-store_word copied dev 0 (omega arith)
            ∙ omega arith;
        moved = λ i below. absurd (omega arith);
      }

  -- What a read of `count` bytes into `buf` does to the queue.
  pub record Taken (result : ℕ × Bytes) : Type 0 where
    pub count_given : result.0 ≡ min count (load_word mem dev)
    pub oldest : range_bytes result.1 buf result.0 ++ queue dev result.1 ≡ queue dev mem
    pub device : IsDevice dev size result.1
    pub kept :
        (a : ℕ) → (a < dev) ⊎ (dev + size ≤ a) → (a < buf) ⊎ (buf + count ≤ a) → result.1 a ≡ mem a

  Left-Taken : (mem' : Bytes) → Left mem' → Taken (given_count, mem')
  unfolding queue
  Left-Taken mem' l =
      let r = d.room in
      let total : given_count + (waiting - given_count) ≡ waiting = omega arith in
      record {
        count_given = refl;
        oldest =
            ap₂ (λ xs ys. xs ++ ys)
              (range_bytes-agree given_count buf (dev + 4) mem' mem (λ i lt.
                l.outside (buf + i) (omega (arith, apart, lt))
                ∙ ncopy-copied buf (dev + 4) given_count mem given_count i lt (omega arith)
                    (omega (arith, apart))))
              (ap (λ n. range_bytes mem' (dev + 4) n) l.number
                ∙ range_bytes-agree (waiting - given_count) (dev + 4) (dev + 4 + given_count) mem'
                    mem l.moved)
            ∙ sym (range_bytes-add mem (dev + 4) given_count (waiting - given_count))
            ∙ ap (λ n. range_bytes mem (dev + 4) n) total;
        device = record { room = omega (arith, l.number); bound = d.bound };
        kept = λ a out out'.
            l.outside a out ∙ ncopy-outside buf (dev + 4) given_count mem a (omega (arith, out'));
      }

  -- A read of `count` bytes from a device file whose waiting bytes fit it, into a buffer outside
  -- the file, gives the oldest bytes, `count` of them or all that wait: these and then the bytes
  -- that are left are those that waited before. It leaves a file whose waiting bytes fit it, and
  -- changes no byte outside the file and the buffer.
  pub take_waiting-Taken : Taken (take_waiting dev buf count size mem)
  take_waiting-Taken = elim (dec_lt count waiting) [
    | yes lt ↦
        subst (λ r. Taken r) (sym (take_waiting-some lt)) (Left-Taken some_left (some_left-Left lt))
    | no ge ↦
        let le : waiting ≤ count = omega (arith, ge) in
        subst (λ r. Taken r) (sym (take_waiting-none le)) (Left-Taken none_left (none_left-Left le))
  ]
