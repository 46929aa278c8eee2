-- ===== src/Hw/Acpi/Tests.antt =====
-- A memory with a root pointer, a list of one table, and the FADT.
use deputy_kernel.Base.{ℕ, ◌≡◌, refl, true, false, ◌==◌, if◌then◌else◌, [], ◌∷◌, ok}
use deputy_kernel.Utils.Buffers.{Bytes}
use deputy_kernel.Hw.Ports.{Ports, port_inw, port_outb}
use deputy_kernel.Hw.Acpi.{Acpi, word32}
use deputy_kernel.Hw.Acpi.Tables.{
  spells, find_text, sum_bytes, find_table, root_table, table_count, unconfigured, table_with,
  inactive, activate, configure, acpi_init,
}
use deputy_kernel.Hw.Acpi.Find.{IsConsistent, acpi_init-IsConsistent}

abbrev memory : Bytes
memory a =
    if a == 0x80000
    then 82
    else if a == 0x80001
    then 83
    else if a == 0x80002
    then 68
    else if a == 0x80003
    then 32
    else if a == 0x80004
    then 80
    else if a == 0x80005
    then 84
    else if a == 0x80006
    then 82
    else if a == 0x80007
    then 32
    else if a == 0x80008
    then 209
    else if a == 0x80011
    then 0x10
    else if a == 0x1004
    then 40
    else if a == 0x1009
    then 184
    else if a == 0x1025
    then 0x20
    else if a == 0x2000
    then 70
    else if a == 0x2001
    then 65
    else if a == 0x2002
    then 67
    else if a == 0x2003
    then 80
    else 0

-- The ACPI mode is on.
abbrev ports : Ports ℕ
ports = record { input = λ width port s. (1, s); output = λ width port v s. s; pause = λ s. s }

abbrev found : Acpi
found = record {
  oemid = 0 ∷ 0 ∷ 0 ∷ 0 ∷ 0 ∷ 0 ∷ [];
  revision = 0;
  support = true;
  fadt = 0x2000;
  mcfg = 0;
}

acpi_init_runs : acpi_init ports false 3 memory unconfigured 0 ≡ ok (true, found, 0)
unfolding acpi_init configure root_table find_text spells sum_bytes find_table table_count
    table_with activate inactive port_inw port_outb word32
acpi_init_runs = refl

acpi_init-IsConsistent_example : (true ≡ true) × IsConsistent memory found
acpi_init-IsConsistent_example =
    acpi_init-IsConsistent ports 3 memory unconfigured 0 true found 0 acpi_init_runs
