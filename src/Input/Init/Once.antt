-- ===== src/Input/Init/Once.antt =====
-- However the controller answers: `i8042_init` sets its lock and ends.
use deputy_kernel.Hw.Acpi.{Acpi}
use deputy_kernel.Hw.Ports.{Ports}
