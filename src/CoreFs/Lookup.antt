-- ===== src/CoreFs/Lookup.antt =====
-- What the searches of source/kernel/corefs.c find.
use deputy_kernel.Base.{
  ℕ, zero, suc, ◌+◌, ◌≡◌, ◌≢◌, refl, sym, ap, ◌∙◌, Bool, true, false, List, [], ◌∷◌, Option, none,
  some, arith, get_elem?, set, Bool-cases, inl, inr,
}
use deputy_kernel.CoreFs.{Entry, Stored, text_eq, named, find_entry}

-- The first entry with the property.
pub record Found (test : Entry → Bool) (i : ℕ) (v : List (Option Stored)) (k : ℕ) (s : Stored)
    : Type 0 where
  pub place : ℕ
  pub offset : k ≡ i + place
  pub at : get_elem? v place ≡ some (some s)
  pub holds : test s.entry ≡ true

pub some-injective : {A : Type 0} (a b : A) → some a ≡ some b → a ≡ b
some-injective a b e = cc

pub none≢some : {A : Type 0} (a : A) → none ≢ some a
none≢some a e = cc

find_nil : (test : Entry → Bool) (i : ℕ) → find_entry test i [] ≡ none
unfolding find_entry
find_nil test i = refl

skip_none :
    (test : Entry → Bool) (i : ℕ) (v : List (Option Stored))
    → find_entry test i (none ∷ v) ≡ find_entry test (suc i) v
unfolding find_entry
skip_none test i v = refl

skip_other :
    (test : Entry → Bool) (i : ℕ) (s : Stored) (v : List (Option Stored))
    → test s.entry ≡ false
    → find_entry test i (some s ∷ v) ≡ find_entry test (suc i) v
unfolding find_entry
skip_other test i s v e = rw (find_entry, e) refl

stop_here :
    (test : Entry → Bool) (i : ℕ) (s : Stored) (v : List (Option Stored))
    → test s.entry ≡ true
    → find_entry test i (some s ∷ v) ≡ some (i, s)
unfolding find_entry
stop_here test i s v e = rw (find_entry, e) refl

Found-suc :
    {test : Entry → Bool} {i : ℕ} (o : Option Stored) {v : List (Option Stored)} {k : ℕ}
    {s : Stored}
    → Found test (suc i) v k s
    → Found test i (o ∷ v) k s
Found-suc o f = record {
  place = suc f.place;
  offset = omega (arith, f.offset);
  at = f.at;
  holds = f.holds;
}

pub find_entry-Found :
    (test : Entry → Bool) (i : ℕ) (v : List (Option Stored)) (k : ℕ) (s : Stored)
    → find_entry test i v ≡ some (k, s)
    → Found test i v k s
unfolding find_entry
find_entry-Found test i [] k s e = absurd (ground (arith, e))
find_entry-Found test i (none ∷ v) k s e = Found-suc none (find_entry-Found test (suc i) v k s e)
find_entry-Found test i (some t ∷ v) k s e = elim (Bool-cases (test t.entry)) [
  | inr h ↦
      Found-suc (some t) (find_entry-Found test (suc i) v k s (sym (skip_other test i t v h) ∙ e))
  | inl h ↦
      let same = some-injective (i, t) (k, s) (sym (stop_here test i t v h) ∙ e) in
      let this : t ≡ s = ap (λ p. p.1) same in
      let at_i : i ≡ k = ap (λ p. p.0) same in
      record {
        place = 0;
        offset = omega (arith, at_i);
        at = ap (λ x. some (some x)) this;
        holds = ap (λ x. test x.entry) (sym this) ∙ h;
      }
]

-- No entry has the property.
pub find_entry-none :
    (test : Entry → Bool) (i : ℕ) (v : List (Option Stored))
    → find_entry test i v ≡ none
    → (j : ℕ) (s : Stored) → get_elem? v j ≡ some (some s)
    → test s.entry ≡ false
find_entry-none test i [] e j s at = absurd (ground (arith, at))
find_entry-none test i (none ∷ v) e zero s at = absurd (ground (arith, at))
find_entry-none test i (none ∷ v) e (suc j) s at =
    find_entry-none test (suc i) v (sym (skip_none test i v) ∙ e) j s at
find_entry-none test i (some t ∷ v) e zero s at = elim (Bool-cases (test t.entry)) [
  | inl h ↦ absurd (none≢some (i, t) (sym e ∙ stop_here test i t v h))
  | inr h ↦
      ap (λ x. test x.entry) (sym (some-injective t s (some-injective (some t) (some s) at))) ∙ h
]
find_entry-none test i (some t ∷ v) e (suc j) s at = elim (Bool-cases (test t.entry)) [
  | inl h ↦ absurd (none≢some (i, t) (sym e ∙ stop_here test i t v h))
  | inr h ↦ find_entry-none test (suc i) v (sym (skip_other test i t v h) ∙ e) j s at
]

pub find_entry-absent :
    (test : Entry → Bool) (i : ℕ) (v : List (Option Stored))
    → ((j : ℕ) (s : Stored) → get_elem? v j ≡ some (some s) → test s.entry ≡ false)
    → find_entry test i v ≡ none
find_entry-absent test i [] h = find_nil test i
find_entry-absent test i (none ∷ v) h =
    skip_none test i v ∙ find_entry-absent test (suc i) v (λ j s at. h (suc j) s at)
find_entry-absent test i (some t ∷ v) h =
    skip_other test i t v (h 0 t refl) ∙ find_entry-absent test (suc i) v (λ j s at. h (suc j) s at)

pub text_eq-eq : (s t : List ℕ) → text_eq s t ≡ true → s ≡ t
unfolding text_eq
text_eq-eq [] [] e = refl
text_eq-eq [] (d ∷ t) e = absurd (ground (arith, e))
text_eq-eq (c ∷ s) [] e = absurd (ground (arith, e))
text_eq-eq (c ∷ s) (d ∷ t) e =
    let h : text_eq s t ≡ true = ground (arith, e) in
    let same = text_eq-eq s t h in ground (arith, e, same)

-- The entry has the path for its name.
pub named-name : (path : List ℕ) (ent : Entry) → named path ent ≡ true → ent.name ≡ path
unfolding named
named-name path ent h = text_eq-eq ent.name path (ground (arith, h))

-- An entry that changes, but not in what is looked for, is found in its place.
pub find_entry-set :
    (test : Entry → Bool) (k : ℕ) (v : List (Option Stored)) (i : ℕ) (s t : Stored)
    → find_entry test k v ≡ some (k + i, s)
    → test t.entry ≡ true
    → find_entry test k (set v i (some t)) ≡ some (k + i, t)
find_entry-set test k [] i s t found same =
    absurd (none≢some (k + i, s) (sym (find_nil test k) ∙ found))
find_entry-set test k (none ∷ v) zero s t found same =
    let f = find_entry-Found test (suc k) v (k + 0) s (sym (skip_none test k v) ∙ found) in
    absurd (omega (arith, f.offset))
find_entry-set test k (none ∷ v) (suc i) s t found same =
    let e : k + suc i ≡ suc k + i = omega arith in
    skip_none test k (set v i (some t))
    ∙ rw e (
        find_entry-set test (suc k) v i s t
          (sym (skip_none test k v) ∙ found ∙ ap (λ n. some (n, s)) e) same)
find_entry-set test k (some u ∷ v) zero s t found same =
    let e : k + 0 ≡ k = omega arith in stop_here test k t v same ∙ ap (λ n. some (n, t)) (sym e)
find_entry-set test k (some u ∷ v) (suc i) s t found same = elim (Bool-cases (test u.entry)) [
  | inl h ↦
      let e = some-injective (k, u) (k + suc i, s) (sym (stop_here test k u v h) ∙ found) in
      let e0 : k ≡ k + suc i = ap (λ x. x.0) e in absurd (omega (arith, e0))
  | inr h ↦
      let e : k + suc i ≡ suc k + i = omega arith in
      skip_other test k u (set v i (some t)) h
      ∙ rw e (
          find_entry-set test (suc k) v i s t
            (sym (skip_other test k u v h) ∙ found ∙ ap (λ n. some (n, s)) e) same)
]
