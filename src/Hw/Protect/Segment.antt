-- ===== src/Hw/Protect/Segment.antt =====
-- What a segment of source/hw/protect_init.c holds.
use deputy_kernel.Base.{
  ℕ, true, false, ◌-◌, ◌∙◌, length-set, ◌+◌, ◌*◌, ◌/◌, ◌%◌, ◌^◌, ◌<◌, ◌≡◌, ◌≢◌, refl, some, arith,
  length, set, get_elem?, get_elem?-set_self, get_elem?-set_ne, ok, store-set,
}
use deputy_kernel.Hw.Protect.{GdtEntry, Gdt, gdt_entry, set_gdt_entry, protect_init}

-- How the processor reads an entry.
abbrev pub segment_base : GdtEntry → ℕ
segment_base e = e.base_high * 2 ^ 24 + e.base_middle * 2 ^ 16 + e.base_low

abbrev pub segment_limit : GdtEntry → ℕ
segment_limit e = e.granularity % 2 ^ 4 * 2 ^ 16 + e.limit_low

abbrev pub segment_flags : GdtEntry → ℕ
segment_flags e = e.granularity / 2 ^ 4

-- `protect_setGDTEntry` of an index inside the table, a 32-bit base and an 8-bit granularity: the
-- entry has that base, the low 20 bits of the limit and the high four bits of the granularity,
-- and every other entry is as before.
pub set_gdt_entry-lem :
    (num base limit access granularity : ℕ) (t : Gdt)
    → num < length t.entries
    → base < 2 ^ 32
    → granularity < 2 ^ 8
    → (t' : Gdt) × (e : GdtEntry) × (set_gdt_entry num base limit access granularity t ≡ ok t')
      × (get_elem? t'.entries num ≡ some e)
      × (segment_base e ≡ base)
      × (segment_limit e ≡ limit % 2 ^ 20)
      × (segment_flags e ≡ granularity / 2 ^ 4)
      × ((i : ℕ) → num ≢ i → get_elem? t'.entries i ≡ get_elem? t.entries i)
unfolding set_gdt_entry gdt_entry
set_gdt_entry-lem num base limit access granularity t h k g =
    let e = gdt_entry base limit access granularity in
    (
      record t { entries = set t.entries num e },
      e,
      rw (store-set t.entries num e h) refl,
      get_elem?-set_self t.entries num e h,
      omega arith,
      omega arith,
      omega arith,
      λ i q. get_elem?-set_ne t.entries num i e q,
    )

-- `protect_init`, called first, fills the three entries.
pub protect_init-ok :
    (table : ℕ) (t : Gdt)
    → t.init_lock ≡ false
    → length t.entries ≡ 3
    → (t' : Gdt) × (protect_init table t ≡ ok t')
unfolding protect_init set_gdt_entry
protect_init-ok table t fresh size =
    let a = gdt_entry 0 0 0 0 in
    let b = gdt_entry 0 0xFFFFFFFF 0x9A 0xCF in
    let c = gdt_entry 0 0xFFFFFFFF 0x92 0xCF in
    let v1 = set t.entries 0 a in
    let v2 = set v1 1 b in
    let n1 : length v1 ≡ 3 = length-set t.entries 0 a ∙ size in
    let n2 : length v2 ≡ 3 = length-set v1 1 b ∙ n1 in
    (
      record t { init_lock = true; limit = 8 * 3 - 1; base = table; entries = set v2 2 c },
      rw
          (
            fresh,
            store-set t.entries 0 a (omega (arith, size)),
            store-set v1 1 b (omega (arith, n1)),
            store-set v2 2 c (omega (arith, n2)),
          )
          refl,
    )
