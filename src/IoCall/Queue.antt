-- ===== src/IoCall/Queue.antt =====
-- A device file of source/kernel/iocall.c is a queue of bytes.
pub mod Take
mod Tests
use deputy_kernel.Base.{
  ℕ, zero, suc, ◌+◌, ◌-◌, ◌*◌, ◌/◌, ◌%◌, ◌^◌, ◌<◌, ◌≤◌, min, ◌≡◌, refl, ap, ap₂, sym, subst, ◌∙◌,
  ◌⊎◌, inl, inr, arith, List, [], ◌∷◌, ◌++◌, ◌==◌, leb, ltb, true, false, if◌then◌else◌,
  append-snoc, dec_lt,
}
use mathlib.Core.List.{append-nil}
use deputy_kernel.Utils.Buffers.{Bytes, poke, fill, ncopy, range_bytes}
use deputy_kernel.Utils.Buffers.Laws.{fill-at, ncopy-copied, ncopy-outside}
use deputy_kernel.Utils.Buffers.Ranges.{range_bytes-agree, range_bytes-add}
use deputy_kernel.IoCall.{load_word, store_word, take_waiting}
use deputy_kernel.IoCall.Descriptors.{put_waiting}
use deputy_kernel.IoCall.Words.{store_word-outside, load_word-store_word, load_word-agree}

-- The bytes that wait in the device file at `dev`, the oldest first.
pub queue : ℕ → Bytes → List ℕ
queue dev mem = range_bytes mem (dev + 4) (load_word mem dev)

-- The bytes that wait fit the file behind their number.
pub record IsDevice (dev size : ℕ) (mem : Bytes) : Type 0 where
  pub room : load_word mem dev + 4 ≤ size
  pub bound : size < 2 ^ 32

-- The ranges share no byte.
abbrev pub Apart : (a m b n : ℕ) → Type 0
Apart a m b n = (a + m ≤ b) ⊎ (b + n ≤ a)

module _ (dev size : ℕ) where
  -- The memory after one more byte.
  abbrev pushed : Bytes → ℕ → Bytes
  pushed mem v = store_word (poke mem (dev + 4 + load_word mem dev) v) dev (load_word mem dev + 1)

  pushed-count :
      (mem : Bytes) (v : ℕ)
      → IsDevice dev size mem
      → load_word (pushed mem v) dev ≡ load_word mem dev + 1
  pushed-count mem v d =
      let r = d.room in
      let b = d.bound in
      load_word-store_word (poke mem (dev + 4 + load_word mem dev) v) dev (load_word mem dev + 1)
        (omega arith)

  pushed-outside :
      (mem : Bytes) (v a : ℕ)
      → IsDevice dev size mem
      → load_word mem dev + 4 < size
      → (a < dev) ⊎ (dev + size ≤ a)
      → pushed mem v a ≡ mem a
  pushed-outside mem v a d lt out =
      store_word-outside (poke mem (dev + 4 + load_word mem dev) v) dev (load_word mem dev + 1) a
        (omega (arith, out, lt))
      ∙ ground (arith, out, lt)

  pushed-queue :
      (mem : Bytes) (v : ℕ)
      → IsDevice dev size mem
      → queue dev (pushed mem v) ≡ queue dev mem ++ v ∷ []
  unfolding queue range_bytes
  pushed-queue mem v d =
      let w = load_word mem dev in
      rw (pushed-count mem v d) (
        range_bytes-add (pushed mem v) (dev + 4) w 1
        ∙ ap₂ (λ xs ys. xs ++ ys)
            (range_bytes-agree w (dev + 4) (dev + 4) (pushed mem v) mem
              (λ i lt. before (dev + 4 + i) (omega arith) (omega (arith, lt))))
            (ap (λ b. b ∷ []) last))
    where
      before : (a : ℕ) → dev + 4 ≤ a → a < dev + 4 + load_word mem dev → pushed mem v a ≡ mem a
      before a from to =
          store_word-outside (poke mem (dev + 4 + load_word mem dev) v) dev (load_word mem dev + 1)
            a (inr from)
          ∙ ground (arith, to)

      last : pushed mem v (dev + 4 + load_word mem dev) ≡ v
      last =
          store_word-outside (poke mem (dev + 4 + load_word mem dev) v) dev (load_word mem dev + 1)
            (dev + 4 + load_word mem dev) (inr (omega arith))
          ∙ ground arith

  -- What a write of `n` bytes that lie at `buf` does to the queue.
  pub record Put (buf n c : ℕ) (mem : Bytes) (result : ℕ × Bytes) : Type 0 where
    pub count : result.0 ≡ c + min n (size - 4 - load_word mem dev)
    pub queued :
        queue dev result.1
        ≡ queue dev mem ++ range_bytes mem buf (min n (size - 4 - load_word mem dev))
    pub device : IsDevice dev size result.1
    pub kept : (a : ℕ) → (a < dev) ⊎ (dev + size ≤ a) → result.1 a ≡ mem a

  put_waiting-full :
      (n buf c : ℕ) (mem : Bytes)
      → IsDevice dev size mem
      → size ≤ load_word mem dev + 4
      → put_waiting dev buf size (suc n) c mem ≡ put_waiting dev (suc buf) size n c mem
  unfolding put_waiting
  put_waiting-full n buf c mem d full = let r = d.room in let b = d.bound in ground arith

  put_waiting-step :
      (n buf c : ℕ) (mem : Bytes)
      → IsDevice dev size mem
      → load_word mem dev + 4 < size
      → put_waiting dev buf size (suc n) c mem
        ≡ put_waiting dev (suc buf) size n (suc c) (pushed mem (mem buf))
  unfolding put_waiting
  put_waiting-step n buf c mem d lt = let b = d.bound in ground arith

  pushed-IsDevice :
      (mem : Bytes) (v : ℕ)
      → IsDevice dev size mem
      → load_word mem dev + 4 < size
      → IsDevice dev size (pushed mem v)
  pushed-IsDevice mem v d lt = record {
    room = omega (arith, pushed-count mem v d, lt);
    bound = d.bound;
  }

  Put-zero : (buf c : ℕ) (mem : Bytes) → IsDevice dev size mem → Put buf 0 c mem (c, mem)
  unfolding range_bytes
  Put-zero buf c mem d = record {
    count = omega arith;
    queued =
        let e : min 0 (size - 4 - load_word mem dev) ≡ 0 = omega arith in
        rw e (sym (append-nil (queue dev mem)));
    device = d;
    kept = λ a out. refl;
  }

  -- A byte that finds no room changes nothing.
  Put-full :
      (n buf c : ℕ) (mem : Bytes) (r : ℕ × Bytes)
      → size ≤ load_word mem dev + 4
      → Put (suc buf) n c mem r
      → Put buf (suc n) c mem r
  unfolding range_bytes
  Put-full n buf c mem r full h =
      let e : min n (size - 4 - load_word mem dev) ≡ 0 = omega arith in
      let e' : min (suc n) (size - 4 - load_word mem dev) ≡ 0 = omega arith in
      record {
        count = omega (arith, h.count);
        queued =
            rw e' (
              subst (λ k. queue dev r.1 ≡ queue dev mem ++ range_bytes mem (suc buf) k) e h.queued);
        device = h.device;
        kept = h.kept;
      }

  -- The queue after one more byte and those that follow it.
  Put-queue :
      (n buf : ℕ) (mem : Bytes)
      → IsDevice dev size mem
      → load_word mem dev + 4 < size
      → Apart buf (suc n) dev size
      → queue dev (pushed mem (mem buf))
          ++ range_bytes
              (pushed mem (mem buf))
              (suc buf)
              (min n (size - 4 - load_word (pushed mem (mem buf)) dev))
        ≡ queue dev mem ++ range_bytes mem buf (min (suc n) (size - 4 - load_word mem dev))
  unfolding range_bytes
  Put-queue n buf mem d lt apart =
      let k = min n (size - 4 - (load_word mem dev + 1)) in
      let e : min (suc n) (size - 4 - load_word mem dev) ≡ suc k = omega arith in
      rw (pushed-count mem (mem buf) d, pushed-queue mem (mem buf) d, e)
        (append-snoc (queue dev mem) (mem buf) (range_bytes (pushed mem (mem buf)) (suc buf) k)
          ∙ ap (λ xs. queue dev mem ++ mem buf ∷ xs)
              (range_bytes-agree k (suc buf) (suc buf) (pushed mem (mem buf)) mem (λ i below.
                pushed-outside mem (mem buf) (suc buf + i) d lt (omega (arith, below, apart)))))

  Put-step :
      (n buf c : ℕ) (mem : Bytes) (r : ℕ × Bytes)
      → IsDevice dev size mem
      → load_word mem dev + 4 < size
      → Apart buf (suc n) dev size
      → Put (suc buf) n (suc c) (pushed mem (mem buf)) r
      → Put buf (suc n) c mem r
  Put-step n buf c mem r d lt apart h = record {
    count = omega (arith, h.count, pushed-count mem (mem buf) d, lt);
    queued = h.queued ∙ Put-queue n buf mem d lt apart;
    device = h.device;
    kept = λ a out. h.kept a out ∙ pushed-outside mem (mem buf) a d lt out;
  }

  -- A device file is a queue of bytes. A write of `n` bytes that lie outside a file whose waiting
  -- bytes fit it puts the first of them, as many as find room, behind those that wait, in order,
  -- adds their number to the count, leaves a file whose waiting bytes fit it, and changes no byte
  -- outside the file.
  pub put_waiting-Put :
      (n buf c : ℕ) (mem : Bytes)
      → IsDevice dev size mem
      → Apart buf n dev size
      → Put buf n c mem (put_waiting dev buf size n c mem)
  unfolding put_waiting
  put_waiting-Put zero buf c mem d apart = Put-zero buf c mem d
  put_waiting-Put (suc n) buf c mem d apart = elim (dec_lt (load_word mem dev + 4) size) [
    | no ge ↦
        subst (λ r. Put buf (suc n) c mem r)
          (sym (put_waiting-full n buf c mem d (omega (arith, ge))))
          (Put-full n buf c mem (put_waiting dev (suc buf) size n c mem) (omega (arith, ge))
            (put_waiting-Put n (suc buf) c mem d (omega arith)))
    | yes lt ↦
        subst (λ r. Put buf (suc n) c mem r) (sym (put_waiting-step n buf c mem d lt))
          (Put-step n buf c mem (put_waiting dev (suc buf) size n (suc c) (pushed mem (mem buf))) d
            lt apart
            (put_waiting-Put n (suc buf) (suc c) (pushed mem (mem buf))
              (pushed-IsDevice mem (mem buf) d lt) (omega arith)))
  ]
