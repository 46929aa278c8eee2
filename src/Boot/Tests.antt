-- ===== src/Boot/Tests.antt =====
-- Starts of the machine.
use deputy_kernel.Base.{
  ℕ, ◌+◌, ◌*◌, ◌⊎◌, ◌^◌, ◌≡◌, [], refl, arith, false, ◌==◌, if◌then◌else◌, some, ok, replicate,
}
use deputy_kernel.Hw.Ports.{Ports}
use deputy_kernel.IoCall.{load_word}
use deputy_kernel.Memory.{Memory}
use deputy_kernel.Utils.Buffers.{Bytes}
use deputy_kernel.Hw.Interrupts.{IdtEntry}
use deputy_kernel.Hw.Protect.{GdtEntry}
use deputy_kernel.Boot.{
  Image, Kernel, MultibootInfo, load_long, mmap_entry, memory_size, field_with, field_from,
}
use deputy_kernel.Boot.Field.{Last, NoField, field_from-Last}
use deputy_kernel.Boot.Cpu.{CpuRegs, CpuInfo, cpu_features, idle_round}

-- A memory map of one entry at 0, the module list at 100, and a module of four bytes behind the
-- kernel.
abbrev ram : Bytes
ram a =
    if a == 6
    then 16
    else if a == 14
    then 1
    else if a == 20
    then 1
    else if a == 100
    then 64
    else if a == 102
    then 16
    else if a == 104
    then 68
    else if a == 106
    then 16
    else if a == 1048640
    then 7
    else if a == 1048643
    then 9
    else 0

abbrev machine : Memory
machine = record { init_lock = false; space = 0; limit = 0; block_v = []; block_c = 0; bytes = ram }

abbrev boot_info : MultibootInfo
boot_info = record {
  flags = 64;
  mem_lower = 640;
  mem_upper = 4194303;
  mods_count = 1;
  mods_addr = 100;
  mmap_length = 24;
  mmap_addr = 0;
}

-- 640 KB and 4 GB less 1 KB: the size wraps.
memory_size_wraps : memory_size boot_info ≡ 639 * 1024
unfolding memory_size
memory_size_wraps = refl

field_found : field_from 1048576 ram 0 24 2 0 0 ≡ some 65536
unfolding field_from field_with mmap_entry load_long load_word
field_found = refl

field_from-Last_example :
    (f : ℕ) × (field_from 1048576 ram 0 24 2 0 0 ≡ some f)
    × (Last 1048576 ram 0 24 0 f ⊎ (NoField 1048576 ram 0 24 0 × (f ≡ 0)))
field_from-Last_example = field_from-Last 1048576 ram 0 24 2 (omega arith) (omega arith)

-- A clock that idles a second at a time: the index of the register, and the second.
abbrev clock : Ports (ℕ × ℕ)
clock = record {
  input = λ width port s. (if s.0 == 0 then s.1 else 1, s);
  output = λ width port v s. (v, s.1);
  pause = λ s. s;
}

abbrev processor : (leaf subleaf : ℕ) → CpuRegs
processor leaf subleaf = record { eax = 3 * 2 ^ 26; ebx = 0; ecx = 0; edx = 2 ^ 8 + 2 ^ 29 }

abbrev identified : CpuInfo
identified = record (cpu_features processor 0) { frequency = 1000; has_tsc = 3 }

idle_round_keeps :
    idle_round clock (λ s. (s.1 * 1000, s)) (λ s. (s.0, s.1 + 1)) 0 identified (0, 0)
    ≡ some (identified, (0, 0))
unfolding idle_round
idle_round_keeps = refl

abbrev image : Image
image = record {
  kernel_base = 1048576;
  kernel_limit = 1048592;
  gdt_table = 0x2000;
  idt_table = 0x3000;
  default_handler = 0x4000;
  exceptions = λ t. ok t;
}

abbrev empty_gate : IdtEntry
empty_gate = record { offset_low = 0; selector = 0; reserved = 0; attributes = 0; offset_high = 0 }

abbrev empty_segment : GdtEntry
empty_segment = record {
  limit_low = 0;
  base_low = 0;
  base_middle = 0;
  access = 0;
  granularity = 0;
  base_high = 0;
}

abbrev unstarted : Kernel (ℕ × ℕ)
unstarted = record {
  machine = (0, 0);
  cpu = cpu_features processor 0;
  physical_size = 0;
  memory_size = 0;
  os_module_size = 0;
  gdt = record { init_lock = false; entries = replicate 3 empty_segment; limit = 0; base = 0 };
  idt = record { init_lock = false; entries = replicate 256 empty_gate; limit = 0; base = 0 };
  memory = machine;
}
