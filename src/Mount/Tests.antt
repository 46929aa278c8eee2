-- ===== src/Mount/Tests.antt =====
-- Runs of source/kernel/mountmgr.c, and its theorems at concrete tables.
use deputy_kernel.Base.{◌≡◌, refl, ◌∷◌, true, arith, ok, replicate, pos, load, store}
use deputy_kernel.Mount.{Mounts, get_slot, get_slot_from, free_slot}
use deputy_kernel.Mount.Slots.{IsReady, free_slot-get_slot}

abbrev one_mounted : Mounts
one_mounted = record { init_lock = true; mount_v = 0x5000 ∷ replicate 1023 0 }

one_mounted-IsReady : IsReady one_mounted
one_mounted-IsReady = record { started = refl; size = refl }

abbrev two_mounted : Mounts
two_mounted = record { init_lock = true; mount_v = 0x5000 ∷ 0x7000 ∷ replicate 1022 0 }

get_slot_runs : get_slot 0x7000 one_mounted ≡ ok (pos 1, two_mounted)
unfolding get_slot get_slot_from load store
get_slot_runs = refl

free_slot-get_slot_example : free_slot (pos 1) two_mounted ≡ ok (pos 0, one_mounted)
free_slot-get_slot_example =
    free_slot-get_slot 0x7000 (pos 1, two_mounted) one_mounted-IsReady (omega arith) get_slot_runs
      (λ e. cc)
