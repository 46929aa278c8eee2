-- ===== src/Boot/Cpu/Sane.antt =====
-- The table of the processor holds values of its types.
use deputy_kernel.Base.{
  ℕ, ◌+◌, ◌^◌, ◌<◌, ◌≤◌, ◌≡◌, ◌≢◌, refl, sym, subst, ◌⊎◌, inl, inr, arith, length, get_elem?, some,
  Option-cases, ℕ_discrete,
}
use deputy_kernel.Clock.{sleep}
use deputy_kernel.Hw.Ports.{Ports}
use deputy_kernel.Utils.Buffers.{word_bytes}
use deputy_kernel.Boot.Cpu.{
  CpuRegs, CpuInfo, bit_of, vendor_name, brand_part, brand_name, core_count, thread_count,
  cpu_features, second_of, identify_cpu,
}

-- The names are terminated in their arrays of 13 and 49 bytes, there is a core and a thread, and
-- every flag is a bit, beside that of a stable counter, which comes only with a counter.
pub record IsSane (info : CpuInfo) : Type 0 where
  pub vendor : (length info.vendor ≡ 13) × (get_elem? info.vendor 12 ≡ some 0)
  pub brand : (length info.brand ≡ 49) × (get_elem? info.brand 48 ≡ some 0)
  pub frequency : info.frequency < 2 ^ 64
  pub cores : (0 < info.cores) × (info.cores ≤ 64)
  pub threads : (0 < info.threads) × (info.threads < 256)
  pub has_tsc : (info.has_tsc < 2) ⊎ (info.has_tsc ≡ 3)
  pub has_sse : info.has_sse < 2
  pub has_avx : info.has_avx < 2
  pub has_vtx : info.has_vtx < 2
  pub has_aes : info.has_aes < 2
  pub has_x64 : info.has_x64 < 2

module _ (cpuid : (leaf subleaf : ℕ) → CpuRegs) where
  core_count-bounds : (0 < core_count cpuid) × (core_count cpuid ≤ 64)
  unfolding core_count
  core_count-bounds = (ground arith, ground arith)

  thread_count-bounds : (0 < thread_count cpuid) × (thread_count cpuid < 256)
  unfolding thread_count
  thread_count-bounds =
      let c = core_count-bounds in (ground (arith, c.0, c.1), ground (arith, c.0, c.1))

  cpu_features-IsSane : (f : ℕ) → f < 2 ^ 64 → IsSane (cpu_features cpuid f)
  unfolding cpu_features vendor_name word_bytes brand_name brand_part
  cpu_features-IsSane f h = record {
    vendor = (refl, refl);
    brand = (refl, refl);
    frequency = h;
    cores = core_count-bounds;
    threads = thread_count-bounds;
    has_tsc = inl (omega arith);
    has_sse = omega arith;
    has_avx = omega arith;
    has_vtx = omega arith;
    has_aes = omega arith;
    has_x64 = omega arith;
  }

  cpu_features-has_tsc : (f : ℕ) → (cpu_features cpuid f).has_tsc < 2
  unfolding cpu_features
  cpu_features-has_tsc f = omega arith

module _ {S : Type 0} (p : Ports S) (tick : S → ℕ × S) (idle : S → S) where
  second_of-lt :
      (has_tsc fuel : ℕ) (s : S) (f : ℕ) (t : S)
      → second_of p tick idle has_tsc fuel s ≡ some (f, t)
      → f < 2 ^ 64
  unfolding second_of
  second_of-lt has_tsc fuel s f t run = ground (arith, run)

  stable : (cpuid : (leaf subleaf : ℕ) → CpuRegs) (f g : ℕ) → CpuInfo
  stable cpuid f g = record (cpu_features cpuid f) {
    frequency = g;
    has_tsc = (cpu_features cpuid f).has_tsc + 2;
  }

  identify_cpu-cases :
      (cpuid : (leaf subleaf : ℕ) → CpuRegs) (fuel f : ℕ) (s : S) (info : CpuInfo) (t : S)
      → identify_cpu p tick idle cpuid fuel f s ≡ some (info, t)
      → (info ≡ cpu_features cpuid f)
        ⊎ ((g : ℕ) × (g < 2 ^ 64)
            × ((cpu_features cpuid f).has_tsc ≢ 0)
            × (info ≡ stable cpuid f g))
  unfolding identify_cpu stable
  identify_cpu-cases cpuid fuel f s info t run =
      elim (ℕ_discrete (cpu_features cpuid f).has_tsc 0) [
        | yes e ↦ inl (first (cpu_features cpuid f, s) (ground (arith, e, run)))
        | no ne ↦ elim (ℕ_discrete (bit_of 8 (cpuid 0x80000007 0).edx) 0) [
          | yes e ↦ inl (first (cpu_features cpuid f, s) (ground (arith, ne, e, run)))
          | no ne' ↦ elim (Option-cases (sleep p idle fuel 1 s)) [
            | inl h ↦ absurd (ground (arith, ne, ne', h, run))
            | inr (u, h) ↦
                elim (Option-cases (second_of p tick idle (cpu_features cpuid f).has_tsc fuel u)) [
                  | inl h' ↦ absurd (ground (arith, ne, ne', h, h', run))
                  | inr ((g, v), h') ↦ inr (
                    g,
                    second_of-lt (cpu_features cpuid f).has_tsc fuel u g v h',
                    ne,
                    first (stable cpuid f g, v) (ground (arith, ne, ne', h, h', run)),
                  )
                ]
          ]
        ]
      ]
    where
      first : (x : CpuInfo × S) → some x ≡ some (info, t) → info ≡ x.0
      first (i, u) e = cc

  -- The values that the processor's answers give.
  pub identify_cpu-IsSane :
      (cpuid : (leaf subleaf : ℕ) → CpuRegs) (fuel f : ℕ) (s : S) (info : CpuInfo) (t : S)
      → f < 2 ^ 64
      → identify_cpu p tick idle cpuid fuel f s ≡ some (info, t)
      → IsSane info
  unfolding stable
  identify_cpu-IsSane cpuid fuel f s info t h run =
      let sane = cpu_features-IsSane cpuid f h in
      elim (identify_cpu-cases cpuid fuel f s info t run) [
        | inl e ↦ subst (λ i. IsSane i) (sym e) sane
        | inr (g, lt, counter, e) ↦
            subst (λ i. IsSane i) (sym e)
              (record {
                vendor = sane.vendor;
                brand = sane.brand;
                frequency = lt;
                cores = sane.cores;
                threads = sane.threads;
                has_tsc = inr (omega (arith, cpu_features-has_tsc cpuid f, counter));
                has_sse = sane.has_sse;
                has_avx = sane.has_avx;
                has_vtx = sane.has_vtx;
                has_aes = sane.has_aes;
                has_x64 = sane.has_x64;
              })
      ]
