-- ===== src/Hw/Acpi/Tables.antt =====
-- `acpi_init` of source/hw/acpi.c: the search for the tables in memory, their checks, and the switch
-- to the ACPI mode. `pause` of the ports is a delay of 10 ms.
use deputy_kernel.Base.{
  ℕ, zero, suc, ◌+◌, ◌-◌, ◌/◌, ◌%◌, ◌^◌, Bool, true, false, not, ◌&&◌, ◌==◌, if◌then◌else◌, Option,
  none, some, List, [], ◌∷◌, Run, ok, panic, ◌>>=◌,
}
use deputy_kernel.Utils.Buffers.{Bytes}
use deputy_kernel.Hw.Ports.{Ports, bit, port_inw, port_outb}
use deputy_kernel.Hw.Acpi.{Acpi, word32}

abbrev pub sizeof_rsdp : ℕ
sizeof_rsdp = 20

abbrev pub sizeof_xsdp : ℕ
sizeof_xsdp = 16

abbrev pub sizeof_sdt : ℕ
sizeof_sdt = 36

-- `ncompare(a, text, n) == 0` for the bytes of a text.
unfoldable pub spells : List ℕ → Bytes → ℕ → Bool
spells [] mem a = true
spells (c ∷ cs) mem a = mem a == c && spells cs mem (suc a)

-- "RSD PTR ", "FACP" and "MCFG".
abbrev pub rsd_ptr : List ℕ
rsd_ptr = 82 ∷ 83 ∷ 68 ∷ 32 ∷ 80 ∷ 84 ∷ 82 ∷ 32 ∷ []

abbrev pub facp : List ℕ
facp = 70 ∷ 65 ∷ 67 ∷ 80 ∷ []

abbrev pub mcfg_text : List ℕ
mcfg_text = 77 ∷ 67 ∷ 70 ∷ 71 ∷ []

-- The first address, with `left` to try, where the text stands.
unfoldable pub find_text : List ℕ → Bytes → (left a : ℕ) → Option ℕ
find_text text mem zero a = none
find_text text mem (suc n) a =
    let rest = find_text text mem n (suc a) in if spells text mem a then some a else rest

-- The sum of bytes, of which the lowest eight bits are compared with 0.
unfoldable pub sum_bytes : Bytes → (left a : ℕ) → ℕ
sum_bytes mem zero a = 0
sum_bytes mem (suc n) a = mem a + sum_bytes mem n (suc a)

abbrev pub sums_to_zero : Bytes → (n a : ℕ) → Bool
sums_to_zero mem n a = sum_bytes mem n a % 2 ^ 8 == 0

-- The loop over the addresses of tables: the last one with the signature, and `found` if none has it.
unfoldable pub find_table : List ℕ → Bytes → (left list found : ℕ) → ℕ
find_table text mem zero list found = found
find_table text mem (suc n) list found =
    let t = word32 mem list in
    find_table text mem n (list + 4) (if spells text mem t then t else found)

-- The root pointer at `a` with its checks, and the address of the list of tables.
unfoldable pub root_table : Bytes → (a : ℕ) → Run ℕ
root_table mem a =
    let revision = mem (a + 15) in
    if not (sums_to_zero mem sizeof_rsdp a)
    then panic
    else if not (revision == 0) && not (sums_to_zero mem sizeof_xsdp (a + sizeof_rsdp))
    then panic
    else (let sdt =
          if revision == 0 then word32 mem (a + 16) else word32 mem (a + sizeof_rsdp + 4) in
        if sums_to_zero mem (word32 mem (sdt + 4)) sdt then ok sdt else panic)

-- Entries of four bytes, whatever the revision.
unfoldable pub table_count : Bytes → ℕ → ℕ
table_count mem sdt = (word32 mem (sdt + 4) + 2 ^ 32 - sizeof_sdt) % 2 ^ 32 / 4

-- The table before anything is found. The ID spells "UNCFG".
abbrev pub unconfigured : Acpi
unconfigured = record {
  oemid = 85 ∷ 78 ∷ 67 ∷ 70 ∷ 71 ∷ 0 ∷ [];
  revision = 255;
  support = false;
  fadt = 0;
  mcfg = 0;
}

abbrev pub oemid_at : Bytes → ℕ → List ℕ
oemid_at mem a = mem a ∷ mem (a + 1) ∷ mem (a + 2) ∷ mem (a + 3) ∷ mem (a + 4) ∷ mem (a + 5) ∷ []

-- The table once the FADT is found, and the wait has ended.
unfoldable pub table_with : (active : Bool) → Bytes → (a sdt fadt : ℕ) → Acpi
table_with active mem a sdt fadt = record {
  oemid = oemid_at mem (a + 9);
  revision = mem (a + 15);
  support = active;
  fadt = if active then fadt else 0;
  mcfg = if active then find_table mcfg_text mem (table_count mem sdt) (sdt + sizeof_sdt) 0 else 0;
}

module _ {S : Type 0} (p : Ports S) where
  -- `(port_inw(PM1aControlBlock) & 1) == 0`
  unfoldable pub inactive : (control : ℕ) → S → Bool × S
  inactive control s = let (v, t) = port_inw p control s in (not (bit 0 v), t)

  -- The wait: the rounds of `timeout` left.
  unfoldable pub wait_active : (control timeout : ℕ) → S → ℕ × S
  wait_active control zero s = let (off, t) = inactive control s in (0, t)
  wait_active control (suc n) s =
      let (off, t) = inactive control s in
      let rest = wait_active control n (p.pause t) in if off then rest else (suc n, t)

  -- The mode is switched on if it is not: `false` is the timeout.
  unfoldable pub activate : (has_tsc : ℕ) → Bytes → (fadt : ℕ) → S → Bool × S
  activate has_tsc mem fadt s =
      let control = word32 mem (fadt + 64) % 2 ^ 16 in
      let (off, t) = inactive control s in
      let u = port_outb p (word32 mem (fadt + 48) % 2 ^ 16) (mem (fadt + 52)) t in
      let (left, w) = wait_active control 500 u in
      let (still, x) = inactive control u in
      if not off then (true, t) else if bit 1 has_tsc then (not (left == 0), w) else (true, x)

  -- The root pointer is at `a`.
  unfoldable pub configure : (has_tsc : ℕ) → Bytes → (a : ℕ) → S → Run (Acpi × S)
  configure has_tsc mem a s = do
    sdt ← root_table mem a
    let fadt = find_table facp mem (table_count mem sdt) (sdt + sizeof_sdt) 0
    let (active, t) = activate has_tsc mem fadt s
    if fadt == 0 then panic else ok (table_with active mem a sdt fadt, t)

  -- The search goes from the EBDA to the end of lower memory.
  unfoldable pub acpi_init :
      (init_lock : Bool) → (has_tsc : ℕ) → Bytes → Acpi → S → Run (Bool × Acpi × S)
  acpi_init init_lock has_tsc mem table s =
      if init_lock
      then ok (true, table, s)
      else elim (find_text rsd_ptr mem (0xFFFFF - 0x80000) 0x80000) [
        | none ↦ ok (true, unconfigured, s)
        | some a ↦ (do (found, t) ← configure has_tsc mem a s; ok (true, found, t))
      ]
