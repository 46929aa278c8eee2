-- ===== src/Boot/Loaded/Placed.antt =====
-- The module of `kernel_init` (source/kernel/kernel.c) in its place, and the memory behind it.
use deputy_kernel.Base.{
  ℕ, ◌+◌, ◌-◌, ◌*◌, ◌%◌, ◌^◌, ◌<◌, ◌≤◌, ◌≡◌, ◌∙◌, sym, ap, ◌⊎◌, inr, arith, false, ok,
}
use deputy_kernel.Memory.{Memory, blk_size, sizeof_block, sub_size, memory_init}
use deputy_kernel.Memory.Init.{IsField, memory_init-IsValid}
use deputy_kernel.Memory.Malloc.{IsValid}
use deputy_kernel.Utils.Buffers.{Bytes, ncopy}
use deputy_kernel.Utils.Buffers.Ranges.{range_bytes-agree}
use deputy_kernel.Utils.Buffers.Laws.{ncopy-copied, ncopy-outside}
use deputy_kernel.Utils.Hash.{fnv1ahash}
use deputy_kernel.Boot.{MultibootInfo, module_at, load_module}

-- Where the boot loader has put the module, and its size.
abbrev pub module_start : MultibootInfo → Bytes → ℕ
module_start info mem = (module_at mem info.mods_addr).mod_start

abbrev pub module_size : MultibootInfo → Bytes → ℕ
module_size info mem =
    (module_at mem info.mods_addr).mod_end - (module_at mem info.mods_addr).mod_start

memory_init-bytes :
    (kernel_limit size field : ℕ) (m m' : Memory)
    → memory_init kernel_limit size field m ≡ ok m'
    → m'.bytes ≡ m.bytes
unfolding memory_init
memory_init-bytes kernel_limit size field m m' e = ground (arith, e)

-- What the boot loader and the linker see to: the kernel and its module lie in the 32-bit space,
-- the module is in order and does not begin in front of the place it goes to and reach into it,
-- and the field of the kernel holds both and two blocks.
pub record IsBootable (kernel_base kernel_limit field : ℕ) (info : MultibootInfo) (mem : Bytes)
    : Type 0 where
  pub given : 0 < info.mods_count
  pub kernel : kernel_base ≤ kernel_limit
  pub order : (module_at mem info.mods_addr).mod_start ≤ (module_at mem info.mods_addr).mod_end
  pub low : (module_at mem info.mods_addr).mod_end < 2 ^ 32
  pub apart :
      (kernel_limit ≤ (module_at mem info.mods_addr).mod_start)
      ⊎ ((module_at mem info.mods_addr).mod_end ≤ kernel_limit)
  pub room :
      (kernel_limit - kernel_base)
        + ((module_at mem info.mods_addr).mod_end - (module_at mem info.mods_addr).mod_start)
        + 2 * (blk_size + sizeof_block)
      ≤ field
  pub in_memory : kernel_base + field < 2 ^ 32

module _ (kernel_base kernel_limit field : ℕ) (info : MultibootInfo) (mem : Bytes)
    (boot : IsBootable kernel_base kernel_limit field info mem) where
  abbrev source : ℕ
  source = module_start info mem

  abbrev size : ℕ
  size = module_size info mem

  pub sizes :
      (sub_size (module_at mem info.mods_addr).mod_end source ≡ size)
      × (sub_size kernel_limit kernel_base ≡ kernel_limit - kernel_base)
      × (sub_size field (kernel_limit - kernel_base) ≡ field - (kernel_limit - kernel_base))
      × (size ≤ field - (kernel_limit - kernel_base))
      × (sub_size field (((kernel_limit - kernel_base) + size) % 2 ^ 32)
          ≡ field - ((kernel_limit - kernel_base) + size))
  sizes =
      let a = boot.kernel in
      let b = boot.order in
      let c = boot.low in
      let d = boot.room in
      let e = boot.in_memory in (omega arith, omega arith, omega arith, omega arith, omega arith)

  copied :
      (i : ℕ) → i < size → mem (source + i) ≡ ncopy kernel_limit source size mem (kernel_limit + i)
  copied i lt =
      let o = boot.order in
      let a = boot.apart in
      sym (ncopy-copied kernel_limit source size mem size i lt (omega arith) (omega (arith, a, o)))

  pub load_module-copied :
      load_module kernel_base kernel_limit info field mem
      ≡ ok (size, ncopy kernel_limit source size mem)
  unfolding load_module
  load_module-copied =
      let g = boot.given in
      let (a, b, c, d, e) = sizes in
      let hash = ap fnv1ahash (
        range_bytes-agree size source kernel_limit mem (ncopy kernel_limit source size mem)
          copied) in
      rw (a, b, c) (ground (arith, g, d, hash))

  memory_IsField : IsField kernel_limit size (field - ((kernel_limit - kernel_base) + size))
  memory_IsField =
      let k = boot.kernel in
      let r = boot.room in
      let i = boot.in_memory in record { in_memory = omega arith; enough = omega arith }

-- The memory in which the start leaves the machine: the manager works, the module lies behind the
-- kernel, in front of the block table, the managed space ends in the field, and what lies behind
-- the block table is as before.
pub record Started (kernel_base kernel_limit field : ℕ) (info : MultibootInfo) (m m' : Memory)
    : Type 0 where
  pub valid : IsValid m'
  pub loaded :
      (i : ℕ)
      → i < module_size info m.bytes
      → m'.bytes (kernel_limit + i) ≡ m.bytes (module_start info m.bytes + i)
  pub kept :
      (a : ℕ)
      → kernel_limit + module_size info m.bytes + m'.block_c * sizeof_block ≤ a
      → m'.bytes a ≡ m.bytes a
  pub behind : kernel_limit + module_size info m.bytes + m'.block_c * sizeof_block ≤ m'.space
  pub inside : m'.limit ≤ kernel_base + field

module _ (kernel_base kernel_limit field : ℕ) (info : MultibootInfo) (m : Memory)
    (boot : IsBootable kernel_base kernel_limit field info m.bytes)
    (fresh : m.init_lock ≡ false) where
  abbrev rest : ℕ
  rest = field - ((kernel_limit - kernel_base) + module_size info m.bytes)

  abbrev with_module : Memory
  with_module = record m {
    bytes = ncopy kernel_limit (module_start info m.bytes) (module_size info m.bytes) m.bytes;
  }

  pub initialised :
      (m' : Memory) × (memory_init kernel_limit (module_size info m.bytes) rest with_module ≡ ok m')
      × Started kernel_base kernel_limit field info m m'
  initialised =
      let (m', run, valid, behind, inside) =
        memory_init-IsValid kernel_limit (module_size info m.bytes) rest with_module
          (memory_IsField kernel_base kernel_limit field info m.bytes boot) fresh in
      let same =
        memory_init-bytes kernel_limit (module_size info m.bytes) rest with_module m' run in
      let k = boot.kernel in
      let r = boot.room in
      (
        m',
        run,
        record {
          valid = valid;
          loaded = λ i lt.
              ap (λ b. b (kernel_limit + i)) same
              ∙ sym (copied kernel_base kernel_limit field info m.bytes boot i lt);
          kept = λ a out.
              ap (λ b. b a) same
              ∙ ncopy-outside kernel_limit (module_start info m.bytes) (module_size info m.bytes)
                  m.bytes a (inr (omega (arith, out)));
          behind = behind;
          inside = omega (arith, inside);
        },
      )
