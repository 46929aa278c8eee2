-- ===== src/Boot/Cpu.antt =====
-- What `kernel_init` of source/kernel/kernel.c finds out about the processor, and the idle task,
-- `kernel_idle`. `cpuid` is the instruction that `utils_cpuid` is; `tick` reads the time stamp
-- counter, and `idle` is what passes between two looks at the clock.
pub mod Sane
use deputy_kernel.Base.{
  ℕ, zero, suc, ◌+◌, ◌-◌, ◌/◌, ◌%◌, ◌^◌, List, [], ◌∷◌, ◌++◌, ◌==◌, if◌then◌else◌, Option, none,
  some,
}
use deputy_kernel.Clock.{rdtsc, sleep}
use deputy_kernel.Hw.Ports.{Ports}
use deputy_kernel.Utils.Buffers.{word_bytes}

-- The four registers of an answer.
pub record CpuRegs : Type 0 where
  pub eax : ℕ
  pub ebx : ℕ
  pub ecx : ℕ
  pub edx : ℕ

-- `kernel_CPUInfo_t`
pub record CpuInfo : Type 0 where
  pub vendor : List ℕ
  pub brand : List ℕ
  pub frequency : ℕ
  pub cores : ℕ
  pub threads : ℕ
  pub has_tsc : ℕ
  pub has_sse : ℕ
  pub has_avx : ℕ
  pub has_vtx : ℕ
  pub has_aes : ℕ
  pub has_x64 : ℕ

-- `(w >> k) & 1`
abbrev pub bit_of : ℕ → ℕ → ℕ
bit_of k w = w / 2 ^ k % 2

unfoldable pub vendor_name : CpuRegs → List ℕ
vendor_name r = word_bytes r.ebx ++ word_bytes r.edx ++ word_bytes r.ecx ++ 0 ∷ []

unfoldable pub brand_part : CpuRegs → List ℕ
brand_part r = word_bytes r.eax ++ word_bytes r.ebx ++ word_bytes r.ecx ++ word_bytes r.edx

module _ (cpuid : (leaf subleaf : ℕ) → CpuRegs) where
  unfoldable pub brand_name : List ℕ
  brand_name =
      brand_part (cpuid 0x80000002 0)
      ++ brand_part (cpuid 0x80000003 0)
      ++ brand_part (cpuid 0x80000004 0)
      ++ 0 ∷ []

  -- The count of leaf 4, plus one; the code then replaces 0 by 1.
  unfoldable pub core_count : ℕ
  core_count = let cores = (cpuid 4 0).eax / 2 ^ 26 % 2 ^ 6 + 1 in if cores == 0 then 1 else cores

  unfoldable pub thread_count : ℕ
  thread_count =
      let threads = (cpuid 1 0).ebx / 2 ^ 16 % 2 ^ 8 in if threads == 0 then core_count else threads

  -- All fields but the frequency and the bit of a stable counter; both keep what they had.
  unfoldable pub cpu_features : (frequency : ℕ) → CpuInfo
  cpu_features frequency =
      let edx = (cpuid 1 0).edx in
      let ecx = (cpuid 1 0).ecx in
      record {
        vendor = vendor_name (cpuid 0 0);
        brand = brand_name;
        frequency = frequency;
        cores = core_count;
        threads = thread_count;
        has_tsc = bit_of 8 edx;
        has_sse = bit_of 25 edx;
        has_avx = bit_of 28 ecx;
        has_vtx = bit_of 5 ecx;
        has_aes = bit_of 25 ecx;
        has_x64 = bit_of 29 (cpuid 0x80000001 0).edx;
      }

module _ {S : Type 0} (p : Ports S) (tick : S → ℕ × S) (idle : S → S) where
  -- `tsc2 - tsc1` of two readings a second apart, after what comes between the first and the wait.
  unfoldable pub second_of : (has_tsc fuel : ℕ) → S → Option (ℕ × S)
  second_of has_tsc fuel s =
      let (tsc1, t) = rdtsc tick has_tsc s in
      elim (sleep p idle fuel 1 t) [
        | none ↦ none
        | some u ↦ let (tsc2, v) = rdtsc tick has_tsc u in some ((tsc2 + 2 ^ 64 - tsc1) % 2 ^ 64, v)
      ]

  -- The identification of the processor: the frequency is measured if the counter is stable.
  unfoldable pub identify_cpu :
      (cpuid : (leaf subleaf : ℕ) → CpuRegs) (fuel frequency : ℕ) → S → Option (CpuInfo × S)
  identify_cpu cpuid fuel frequency s =
      let info = cpu_features cpuid frequency in
      if info.has_tsc == 0
      then some (info, s)
      else if bit_of 8 (cpuid 0x80000007 0).edx == 0
      then some (info, s)
      else elim (sleep p idle fuel 1 s) [
        | none ↦ none
        | some t ↦ elim (second_of info.has_tsc fuel t) [
          | none ↦ none
          | some (frequency', u) ↦
              some (record info { frequency = frequency'; has_tsc = info.has_tsc + 2 }, u)
        ]
      ]

  -- A round of `kernel_idle` up to its `yield`: a counter that is not stable is measured again.
  unfoldable pub idle_round : (fuel : ℕ) → CpuInfo → S → Option (CpuInfo × S)
  idle_round fuel info s =
      if bit_of 1 info.has_tsc == 0
      then elim (second_of info.has_tsc fuel s) [
        | none ↦ none
        | some (frequency, t) ↦ some (record info { frequency = frequency }, t)
      ]
      else some (info, s)
