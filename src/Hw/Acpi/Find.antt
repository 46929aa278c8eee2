-- ===== src/Hw/Acpi/Find.antt =====
-- What `acpi_init` leaves in the table.
use deputy_kernel.Base.{
  ℕ, zero, suc, ◌+◌, ◌-◌, ◌≡◌, ◌≢◌, refl, ◌⊎◌, inl, inr, arith, Bool, true, false, ◌==◌,
  if◌then◌else◌, List, Run, ok, panic, ◌>>=◌, bind-ok, Bool-cases, Option, none, some, ℕ_discrete,
}
use deputy_kernel.Utils.Buffers.{Bytes}
use deputy_kernel.Hw.Ports.{Ports}
use deputy_kernel.Hw.Acpi.{Acpi, word32}
use deputy_kernel.Hw.Acpi.Tables.{
  spells, rsd_ptr, facp, mcfg_text, find_text, find_table, root_table, table_count, table_with,
  unconfigured, sizeof_sdt, activate, configure, acpi_init,
}

-- With support there is an FADT, and both tables bear their signatures; without it there is none.
pub record IsConsistent (mem : Bytes) (t : Acpi) : Type 0 where
  pub fadt : (t.support ≡ true) → (t.fadt ≢ 0) × (spells facp mem t.fadt ≡ true)
  pub mcfg : (t.mcfg ≡ 0) ⊎ (spells mcfg_text mem t.mcfg ≡ true)
  pub none_without : t.support ≡ false → (t.fadt ≡ 0) × (t.mcfg ≡ 0)

find_table-spells :
    (text : List ℕ) (mem : Bytes) (n list found : ℕ)
    → (find_table text mem n list found ≡ found)
      ⊎ (spells text mem (find_table text mem n list found) ≡ true)
unfolding find_table
find_table-spells text mem zero list found = inl refl
find_table-spells text mem (suc n) list found =
    elim (Bool-cases (spells text mem (word32 mem list))) [
      | inl e ↦ ground (arith, find_table-spells text mem n (list + 4) (word32 mem list))
      | inr e ↦ ground (arith, find_table-spells text mem n (list + 4) found)
    ]

table_with-IsConsistent :
    (active : Bool) (mem : Bytes) (a sdt fadt : ℕ)
    → fadt ≢ 0
    → spells facp mem fadt ≡ true
    → IsConsistent mem (table_with active mem a sdt fadt)
unfolding table_with
table_with-IsConsistent true mem a sdt fadt n h = record {
  fadt = λ e. (n, h);
  mcfg = find_table-spells mcfg_text mem (table_count mem sdt) (sdt + sizeof_sdt) 0;
  none_without = λ e. absurd (cc);
}
table_with-IsConsistent false mem a sdt fadt n h = record {
  fadt = λ e. absurd (cc);
  mcfg = inl refl;
  none_without = λ e. (refl, refl);
}

unconfigured-IsConsistent : (mem : Bytes) → IsConsistent mem unconfigured
unconfigured-IsConsistent mem = record {
  fadt = λ e. absurd (cc);
  mcfg = inl refl;
  none_without = λ e. (refl, refl);
}

module _ {S : Type 0} (p : Ports S) where
  found-IsConsistent :
      (mem : Bytes) (a sdt fadt : ℕ) (r : Bool × S) (t : Acpi) (u : S)
      → (fadt ≡ 0) ⊎ (spells facp mem fadt ≡ true)
      → ◌≡◌ {A = Run (Acpi × S)}
          (if fadt == 0 then panic else ok (table_with r.0 mem a sdt fadt, r.1))
          (ok (t, u))
      → IsConsistent mem t
  found-IsConsistent mem a sdt fadt r t u h e = elim (ℕ_discrete fadt 0) [
    | yes z ↦ absurd (ground arith)
    | no n ↦ ground (arith, table_with-IsConsistent r.0 mem a sdt fadt n)
  ]

  configure-IsConsistent :
      (has_tsc : ℕ) (mem : Bytes) (a : ℕ) (s : S) (t : Acpi) (u : S)
      → configure p has_tsc mem a s ≡ ok (t, u)
      → IsConsistent mem t
  unfolding configure
  configure-IsConsistent has_tsc mem a s t u e =
      let (sdt, r, k) = bind-ok (root_table mem a) _ (t, u) e in
      let fadt = find_table facp mem (table_count mem sdt) (sdt + sizeof_sdt) 0 in
      found-IsConsistent mem a sdt fadt (activate p has_tsc mem fadt s) t u
        (find_table-spells facp mem (table_count mem sdt) (sdt + sizeof_sdt) 0) k

  -- When `acpi_init` returns from an unset lock, the lock is set and the table is consistent:
  -- with support there is an FADT, whose address is not NULL and where the signature FACP stands;
  -- the MCFG is NULL or bears its signature; without support both are NULL.
  pub acpi_init-IsConsistent :
      (has_tsc : ℕ) (mem : Bytes) (old : Acpi) (s : S) (lock : Bool) (t : Acpi) (u : S)
      → acpi_init p false has_tsc mem old s ≡ ok (lock, t, u)
      → (lock ≡ true) × IsConsistent mem t
  unfolding acpi_init
  acpi_init-IsConsistent has_tsc mem old s lock t u e =
      searched mem has_tsc s lock t u (find_text rsd_ptr mem (0xFFFFF - 0x80000) 0x80000) e
    where
      searched :
          (mem : Bytes) (has_tsc : ℕ) (s : S) (lock : Bool) (t : Acpi) (u : S) (o : Option ℕ)
          → elim o as (λ x. Run (Bool × Acpi × S)) [
            | none ↦ ok (true, unconfigured, s)
            | some a ↦ (do (found, v) ← configure p has_tsc mem a s; ok (true, found, v))
          ]
            ≡ ok (lock, t, u)
          → (lock ≡ true) × IsConsistent mem t
      searched mem has_tsc s lock t u none e = ground (arith, unconfigured-IsConsistent mem)
      searched mem has_tsc s lock t u (some a) e =
          let (f, r, k) = bind-ok (configure p has_tsc mem a s) _ (lock, t, u) e in
          ground (arith, configure-IsConsistent has_tsc mem a s f.0 f.1 r)
