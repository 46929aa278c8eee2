-- ===== src/Multitask/Exec/Loading.antt =====
-- Loading writes inside the block only.
use deputy_kernel.Base.{ℕ, ◌+◌, ◌-◌, ◌^◌, ◌<◌, ◌≤◌, ◌⊎◌}

module _ (base low high : ℕ) (order : low ≤ high) (bound : high < 2 ^ 32)
    (top : base + (high - low) < 2 ^ 32) where
  abbrev Outside : ℕ → Type 0
  Outside a = (a < base) ⊎ (base + (high - low) ≤ a)
