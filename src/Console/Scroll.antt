-- ===== src/Console/Scroll.antt =====
-- What a scroll of source/kernel/console.c leaves on the screen.
use deputy_kernel.Base.{
  ℕ, zero, suc, ◌+◌, ◌-◌, ◌*◌, ◌<◌, ◌≤◌, ◌≡◌, refl, ◌∙◌, subst, List, arith, Option, some, length,
  get_elem?, set, length-set, get_elem?-set_self, get_elem?-set_ne, get_elem?-some, Run, ok,
  load-get_elem?, store-set, ltb, leb, ◌&&◌, if◌then◌else◌, dec_lt, ℕ_discrete,
}
use deputy_kernel.Console.{Console, width, height, cell, move_rows, fill_cells, scroll_once}

-- What a loop leaves: the size, and each place.
pub record Cells (memory : List ℕ) (f : ℕ → Option ℕ) (r : Run (List ℕ)) : Type 0 where
  pub result : List ℕ
  pub run : r ≡ ok result
  pub size : length result ≡ length memory
  pub at : (i : ℕ) → get_elem? result i ≡ f i

pub fill_cells-Cells :
    (c n j : ℕ) (memory : List ℕ)
    → j + n ≤ length memory
    → Cells memory
        (λ i. if leb j i && ltb i (j + n) then some c else get_elem? memory i)
        (fill_cells c n j memory)
unfolding fill_cells
fill_cells-Cells c zero j memory h = record {
  result = memory;
  run = refl;
  size = refl;
  at = λ i. ground arith;
}
fill_cells-Cells c (suc n) j memory h =
    let r = fill_cells-Cells c n (suc j) (set memory j c) (omega (arith, length-set memory j c)) in
    record {
      result = r.result;
      run = rw (store-set memory j c (omega arith)) r.run;
      size = r.size ∙ length-set memory j c;
      at = λ i. r.at i ∙ place i;
    }
  where
    place :
        (i : ℕ)
        → (if leb (suc j) i && ltb i (suc j + n) then some c else get_elem? (set memory j c) i)
          ≡ (if leb j i && ltb i (j + suc n) then some c else get_elem? memory i)
    place i = elim (ℕ_discrete j i) [
      | yes e ↦
          let here : get_elem? (set memory j c) i ≡ some c =
            subst (λ k. get_elem? (set memory j c) k ≡ some c) e
              (get_elem?-set_self memory j c (omega arith)) in
          ground (arith, here, e)
      | no ne ↦ ground (arith, get_elem?-set_ne memory j i c ne, ne)
    ]

pub move_rows-Cells :
    (n j : ℕ) (memory : List ℕ)
    → j + n + width ≤ length memory
    → Cells memory
        (λ i. if leb j i && ltb i (j + n) then get_elem? memory (i + width) else get_elem? memory i)
        (move_rows n j memory)
unfolding move_rows
move_rows-Cells zero j memory h = record {
  result = memory;
  run = refl;
  size = refl;
  at = λ i. ground arith;
}
move_rows-Cells (suc n) j memory h =
    let (c, there) = get_elem?-some memory (j + width) (omega arith) in
    let r = move_rows-Cells n (suc j) (set memory j c) (omega (arith, length-set memory j c)) in
    record {
      result = r.result;
      run = rw (load-get_elem? memory (j + width) there, store-set memory j c (omega arith)) r.run;
      size = r.size ∙ length-set memory j c;
      at = λ i. r.at i ∙ place c there i;
    }
  where
    place :
        (c : ℕ)
        → get_elem? memory (j + width) ≡ some c
        → (i : ℕ)
        → (if leb (suc j) i && ltb i (suc j + n)
            then get_elem? (set memory j c) (i + width)
            else get_elem? (set memory j c) i)
          ≡ (if leb j i && ltb i (j + suc n)
              then get_elem? memory (i + width)
              else get_elem? memory i)
    place c there i = elim (dec_lt j i) [
      | yes q ↦ ground (
        arith,
        get_elem?-set_ne memory j i c (λ e. omega arith),
        get_elem?-set_ne memory j (i + width) c (λ e. omega arith),
      )
      | no q ↦ elim (ℕ_discrete j i) [
        | yes e ↦
            let here : get_elem? (set memory j c) i ≡ some c =
              subst (λ k. get_elem? (set memory j c) k ≡ some c) e
                (get_elem?-set_self memory j c (omega arith)) in
            let there' : get_elem? memory (i + width) ≡ some c =
              subst (λ k. get_elem? memory (k + width) ≡ some c) e there in
            ground (arith, here, e, there')
        | no ne ↦ ground (arith, get_elem?-set_ne memory j i c ne)
      ]
    ]

-- One round of `console_scroll` on a screen of 2000 cells: each cell takes the one a row below,
-- the last row is blank in the current colour, and nothing but the cells has changed.
pub scroll_once-lem :
    (s : Console)
    → length s.memory ≡ width * height
    → (s' : Console) × (scroll_once s ≡ ok s')
      × (s' ≡ record s { memory = s'.memory })
      × (length s'.memory ≡ width * height)
      × ((i : ℕ)
          → i < width * height
          → get_elem? s'.memory i ≡ (
              if ltb i (width * (height - 1))
              then get_elem? s.memory (i + width)
              else some (cell s.color 0)))
unfolding scroll_once
scroll_once-lem s h =
    let a = move_rows-Cells (width * (height - 1)) 0 s.memory (omega (arith, h)) in
    let b =
      fill_cells-Cells (cell s.color 0) width ((height - 1) * width) a.result
        (omega (arith, h, a.size)) in
    (
      record s { memory = b.result },
      rw (a.run, b.run) refl,
      refl,
      b.size ∙ a.size ∙ h,
      λ i k. b.at i ∙ ground (arith, a.at i),
    )
