-- ===== src/Boot/Loaded.antt =====
-- The state in which the start of the machine leaves the kernel.
pub mod Placed
use deputy_kernel.Base.{◌^◌, ◌<◌, ◌≡◌, length, false, ok}
use deputy_kernel.Hw.Ports.{Ports}
use deputy_kernel.Hw.Interrupts.{Idt}
use deputy_kernel.Hw.Interrupts.Gate.{IsIdt}
use deputy_kernel.Boot.{Image, Kernel}

-- The kernel before its first instruction: no component is initialised, the variables have their
-- types' sizes, and the routine for the exception gates keeps the table.
pub record IsUnstarted {S : Type 0} (image : Image) (k : Kernel S) : Type 0 where
  pub memory : k.memory.init_lock ≡ false
  pub frequency : k.cpu.frequency < 2 ^ 64
  pub gdt : k.gdt.init_lock ≡ false
  pub segments : length k.gdt.entries ≡ 3
  pub idt : k.idt.init_lock ≡ false
  pub gates : length k.idt.entries ≡ 256
  pub exceptions : (u : Idt) → IsIdt u → (u' : Idt) × (image.exceptions u ≡ ok u') × IsIdt u'
