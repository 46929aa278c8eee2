-- ===== src/Hw.antt =====
-- The tables that the processor reads, source/hw/.
pub mod Acpi
pub mod Devbus
pub mod Drivers
pub mod Interrupts
pub mod Protect
pub mod Ports
mod Tests
