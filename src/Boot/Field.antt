-- ===== src/Boot/Field.antt =====
-- The memory field of the kernel in the memory map, against a description of the map.
use deputy_kernel.Base.{
  ℕ, zero, suc, ◌+◌, ◌*◌, ◌%◌, ◌^◌, ◌<◌, ◌≤◌, ◌≡◌, refl, ◌∙◌, ap, sym, subst, ◌⊎◌, inl, inr, arith,
  ℕ_discrete, some,
}
use deputy_kernel.Base.{dec_lt}
use deputy_kernel.Utils.Buffers.{Bytes}
use deputy_kernel.Boot.{
  MmapEntry, mmap_entry, memory_available, sizeof_mmap, field_with, field_from,
}

module _ (kernel_base : ℕ) (mem : Bytes) (addr length : ℕ) where
  -- The entry with a number, which belongs to the map if it begins inside it.
  abbrev pub numbered : ℕ → MmapEntry
  numbered j = mmap_entry mem ((addr + j * sizeof_mmap) % 2 ^ 32)

  abbrev pub IsKernelField : ℕ → Type 0
  IsKernelField j = ((numbered j).type ≡ memory_available) × ((numbered j).addr ≡ kernel_base)

  -- From the entry `c` on, no entry is the kernel's.
  abbrev pub NoField : ℕ → Type 0
  NoField c = (j : ℕ) → c ≤ j → j * sizeof_mmap < length → ¬ IsKernelField j

  -- The length that the entry `j` gives, after which no entry is the kernel's.
  pub record Last (c field : ℕ) : Type 0 where
    pub number : ℕ
    pub from : c ≤ number
    pub inside : number * sizeof_mmap < length
    pub kernel : IsKernelField number
    pub after : NoField (suc number)
    pub value : field ≡ (numbered number).len % 2 ^ 32

  field_with-cases :
      (j g : ℕ)
      → (IsKernelField j × (field_with kernel_base (numbered j) g ≡ (numbered j).len % 2 ^ 32))
        ⊎ ((¬ IsKernelField j) × (field_with kernel_base (numbered j) g ≡ g))
  unfolding field_with
  field_with-cases j g = elim (ℕ_discrete (numbered j).type memory_available) [
    | no ne ↦ inr (λ h. ne h.0, ground (arith, ne))
    | yes e ↦ elim (ℕ_discrete (numbered j).addr kernel_base) [
      | no ne ↦ inr (λ h. ne h.1, ground (arith, ne, e))
      | yes e' ↦ inl ((e, e'), ground (arith, e, e'))
    ]
  ]

  NoField-step : (c : ℕ) → ¬ IsKernelField c → NoField (suc c) → NoField c
  NoField-step c h none_after j le lt k = elim (ℕ_discrete c j) [
    | yes e ↦ h (subst (λ i. IsKernelField i) (sym e) k)
    | no ne ↦ none_after j (omega (arith, ne)) lt k
  ]

  field_from-step :
      (n c g : ℕ)
      → length + sizeof_mmap ≤ 2 ^ 32
      → c * sizeof_mmap < length
      → field_from kernel_base mem addr length (suc n) (c * sizeof_mmap) g
        ≡ field_from kernel_base mem addr length n
            (suc c * sizeof_mmap)
            (field_with kernel_base (numbered c) g)
  unfolding field_from
  field_from-step n c g fits lt =
      let next : (c * sizeof_mmap + sizeof_mmap) % 2 ^ 32 ≡ suc c * sizeof_mmap = omega arith in
      rw next (ground arith)

  field_from-end :
      (n c g : ℕ)
      → length ≤ c * sizeof_mmap
      → field_from kernel_base mem addr length (suc n) (c * sizeof_mmap) g ≡ some g
  unfolding field_from
  field_from-end n c g ge = ground arith

  past_end : (c : ℕ) → length ≤ c * sizeof_mmap → NoField c
  past_end c ge j le lt = absurd (omega arith)

  -- What the entry `c` and those after it make of `g`.
  Scanned : ℕ → ℕ → ℕ → Type 0
  Scanned c g f = Last c f ⊎ (NoField c × (f ≡ g))

  Scanned-step :
      (c g f : ℕ)
      → c * sizeof_mmap < length
      → Scanned (suc c) (field_with kernel_base (numbered c) g) f
      → Scanned c g f
  unfolding Scanned
  Scanned-step c g f lt (inl l) = inl (record {
    number = l.number;
    from = omega (arith, l.from);
    inside = l.inside;
    kernel = l.kernel;
    after = l.after;
    value = l.value;
  })
  Scanned-step c g f lt (inr (h, e)) = elim (field_with-cases c g) [
    | inl (k, v) ↦ inl (record {
      number = c;
      from = omega arith;
      inside = lt;
      kernel = k;
      after = h;
      value = e ∙ v;
    })
    | inr (k, v) ↦ inr (NoField-step c k h, e ∙ v)
  ]

  field_from-scan :
      (n c g : ℕ)
      → length + sizeof_mmap ≤ 2 ^ 32
      → length ≤ n * sizeof_mmap + c * sizeof_mmap
      → (f : ℕ) × (field_from kernel_base mem addr length (suc n) (c * sizeof_mmap) g ≡ some f)
        × Scanned c g f
  unfolding Scanned
  field_from-scan zero c g fits enough =
      (g, field_from-end zero c g (omega arith), inr (past_end c (omega arith), refl))
  field_from-scan (suc n) c g fits enough = elim (dec_lt (c * sizeof_mmap) length) [
    | no ge ↦ (
      g,
      field_from-end (suc n) c g (omega (arith, ge)),
      inr (past_end c (omega (arith, ge)), refl),
    )
    | yes lt ↦
        let (f, e, r) =
          field_from-scan n (suc c) (field_with kernel_base (numbered c) g) fits (omega arith) in
        (f, field_from-step (suc n) c g fits lt ∙ e, Scanned-step c g f lt r)
  ]

  -- The loop of `kernel_init` over a memory map of at most 2 ^ 32 - 24 bytes ends with fuel for
  -- one round more than there are entries. It gives the length, cut to 32 bits, of the last entry
  -- that is available and begins at the address of the kernel, or 0 if there is none.
  pub field_from-Last :
      (fuel : ℕ)
      → length + sizeof_mmap ≤ 2 ^ 32
      → length + sizeof_mmap ≤ fuel * sizeof_mmap
      → (f : ℕ) × (field_from kernel_base mem addr length fuel 0 0 ≡ some f)
        × (Last 0 f ⊎ (NoField 0 × (f ≡ 0)))
  unfolding Scanned
  field_from-Last zero fits enough = absurd (omega arith)
  field_from-Last (suc n) fits enough = field_from-scan n 0 0 fits (omega arith)

  Last-unique : (f g : ℕ) → Last 0 f → Last 0 g → f ≡ g
  Last-unique f g a b = elim (dec_lt a.number b.number) [
    | yes lt ↦ absurd (a.after b.number lt b.inside b.kernel)
    | no ge ↦ elim (dec_lt b.number a.number) [
      | yes lt ↦ absurd (b.after a.number lt a.inside a.kernel)
      | no ge' ↦
          let same : a.number ≡ b.number = omega (arith, ge, ge') in
          a.value ∙ ap (λ j. (numbered j).len % 2 ^ 32) same ∙ sym b.value
    ]
  ]

  -- A field that the map describes is found.
  pub field_from-found :
      (fuel f : ℕ)
      → length + sizeof_mmap ≤ 2 ^ 32
      → length + sizeof_mmap ≤ fuel * sizeof_mmap
      → Last 0 f
      → field_from kernel_base mem addr length fuel 0 0 ≡ some f
  field_from-found fuel f fits enough l =
      let (g, run, found) = field_from-Last fuel fits enough in
      elim found [
        | inl l' ↦ run ∙ ap (λ x. some x) (Last-unique g f l' l)
        | inr (h, e) ↦ absurd (h l.number l.from l.inside l.kernel)
      ]
