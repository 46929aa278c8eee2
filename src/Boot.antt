-- ===== src/Boot.antt =====
-- The start of the machine in `kernel_init` of source/kernel/kernel.c, from the magic number of the
-- boot loader to `memory_init`, with what it reads of include/multiboot.h. `kernel_base` and
-- `kernel_limit` are the addresses that the linker gives the kernel.
pub mod Field
pub mod Loaded
pub mod Cpu
pub mod Main
mod Tests
use deputy_kernel.Base.{
  ℕ, zero, suc, ◌+◌, ◌*◌, ◌%◌, ◌^◌, not, ◌&&◌, [], ◌==◌, ltb, if◌then◌else◌, Option, none, some,
  Run, ok, panic, ◌>>=◌,
}
use deputy_kernel.Hw.Interrupts.{Idt, interrupts_init}
use deputy_kernel.Hw.Ports.{Ports, bit}
use deputy_kernel.Hw.Protect.{Gdt, protect_init}
use deputy_kernel.Boot.Cpu.{CpuRegs, CpuInfo, identify_cpu}
use deputy_kernel.IoCall.{load_word}
use deputy_kernel.Memory.{Memory, sub_size, memory_init}
use deputy_kernel.Utils.Buffers.{Bytes, ncopy, range_bytes}
use deputy_kernel.Utils.Hash.{fnv1ahash}

abbrev pub bootloader_magic : ℕ
bootloader_magic = 0x2BADB002

-- MULTIBOOT_INFO_MEM_MAP, by the number of its bit.
abbrev pub info_mem_map : ℕ
info_mem_map = 6

abbrev pub memory_available : ℕ
memory_available = 1

abbrev pub sizeof_mmap : ℕ
sizeof_mmap = 24

-- The fields of `multiboot_info_t` that are used.
pub record MultibootInfo : Type 0 where
  pub flags : ℕ
  pub mem_lower : ℕ
  pub mem_upper : ℕ
  pub mods_count : ℕ
  pub mods_addr : ℕ
  pub mmap_length : ℕ
  pub mmap_addr : ℕ

-- `multiboot_memory_map_t` and `multiboot_module_t`.
pub record MmapEntry : Type 0 where
  pub addr : ℕ
  pub len : ℕ
  pub type : ℕ

unfoldable pub load_long : Bytes → ℕ → ℕ
load_long mem a = load_word mem a + load_word mem (a + 4) * 2 ^ 32

unfoldable pub mmap_entry : Bytes → ℕ → MmapEntry
mmap_entry mem a = record {
  addr = load_long mem (a + 4);
  len = load_long mem (a + 12);
  type = load_word mem (a + 20);
}

pub record Module : Type 0 where
  pub mod_start : ℕ
  pub mod_end : ℕ

unfoldable pub module_at : Bytes → ℕ → Module
module_at mem a = record { mod_start = load_word mem a; mod_end = load_word mem (a + 4) }

-- `kernel_MemorySize`
unfoldable pub memory_size : MultibootInfo → ℕ
memory_size info = (info.mem_lower * 1024 + info.mem_upper * 1024) % 2 ^ 32

module _ (kernel_base : ℕ) where
  -- `fieldSize` after an entry: its address is compared in 64 bits, its length is cut to 32.
  unfoldable pub field_with : MmapEntry → ℕ → ℕ
  field_with e field =
      if e.type == memory_available && e.addr == kernel_base then e.len % 2 ^ 32 else field

  -- The loop over the memory map, on fuel: `none` is a run that has not ended.
  unfoldable pub field_from : Bytes → (addr length : ℕ) → (fuel i field : ℕ) → Option ℕ
  field_from mem addr length zero i field = none
  field_from mem addr length (suc n) i field =
      let rest =
        field_from mem addr length n ((i + sizeof_mmap) % 2 ^ 32)
          (field_with (mmap_entry mem ((addr + i) % 2 ^ 32)) field) in
      if ltb i length then rest else some field

module _ (kernel_base kernel_limit : ℕ) where
  -- `kernel_PhysicalSize`
  abbrev pub physical_size : ℕ
  physical_size = sub_size kernel_limit kernel_base

  -- The first module goes behind the kernel: its size there, which is 0 if there is no module, and
  -- the memory.
  unfoldable pub load_module : MultibootInfo → (field : ℕ) → Bytes → Run (ℕ × Bytes)
  load_module info field mem =
      if info.mods_count == 0
      then ok (0, mem)
      else let m = module_at mem info.mods_addr in
        let size = sub_size m.mod_end m.mod_start in
        let mem' = ncopy kernel_limit m.mod_start size mem in
        if ltb (sub_size field physical_size) size
        then panic
        else if not (
            fnv1ahash (range_bytes mem m.mod_start size)
            == fnv1ahash (range_bytes mem' kernel_limit size))
        then panic
        else ok (size, mem')

-- What the linker and the assembly files give the kernel: its ends, the two descriptor tables'
-- addresses, the default handler's, and the routine that sets the exception gates.
pub record Image : Type 0 where
  pub kernel_base : ℕ
  pub kernel_limit : ℕ
  pub gdt_table : ℕ
  pub idt_table : ℕ
  pub default_handler : ℕ
  pub exceptions : Idt → Run Idt

-- The variables that `kernel_init` sets up to `memory_init`, and the machine.
pub record Kernel (S : Type 0) : Type 0 where
  pub machine : S
  pub cpu : CpuInfo
  pub physical_size : ℕ
  pub memory_size : ℕ
  pub os_module_size : ℕ
  pub gdt : Gdt
  pub idt : Idt
  pub memory : Memory

module _ {S : Type 0} (image : Image) (info : MultibootInfo) where
  -- What follows the memory map: the module, the descriptor tables, and `memory_init` on what is
  -- left of the field. A field of size 0 is none.
  unfoldable pub start_kernel : (field : ℕ) → Kernel S → Run (Kernel S)
  start_kernel field k = if field == 0 then panic else do
    (size, mem) ← load_module image.kernel_base image.kernel_limit info field k.memory.bytes
    gdt ← protect_init image.gdt_table k.gdt
    idt ← interrupts_init image.default_handler image.idt_table image.exceptions k.idt
    memory ←
        memory_init image.kernel_limit size (sub_size field ((k.physical_size + size) % 2 ^ 32))
          (record (k.memory) { bytes = mem })
    ok (record k { os_module_size = size; gdt = gdt; idt = idt; memory = memory })

  -- The fuels are those of the waits for the clock and of the loop over the memory map.
  unfoldable pub kernel_init :
      (p : Ports S) (tick : S → ℕ × S) (idle : S → S) (cpuid : (leaf subleaf : ℕ) → CpuRegs)
      (magic clock_fuel fuel : ℕ)
      → Kernel S
      → Option (Run (Kernel S))
  kernel_init p tick idle cpuid magic clock_fuel fuel k =
      if not (magic == bootloader_magic)
      then some panic
      else if not (bit info_mem_map info.flags)
      then some panic
      else elim (identify_cpu p tick idle cpuid clock_fuel k.cpu.frequency k.machine) [
        | none ↦ none
        | some (cpu, s) ↦
            elim (field_from image.kernel_base k.memory.bytes info.mmap_addr info.mmap_length fuel 0
              0) [
                | none ↦ none
                | some field ↦ some (
                    start_kernel field (record k {
                      machine = s;
                      cpu = cpu;
                      physical_size = physical_size image.kernel_base image.kernel_limit;
                      memory_size = memory_size info;
                    }))
              ]
      ]
