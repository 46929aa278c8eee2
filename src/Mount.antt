-- ===== src/Mount.antt =====
-- The mount manager, source/kernel/mountmgr.c: a table of data pointers. A status of -1 is `minus_one`.
pub mod Slots
mod Tests
use deputy_kernel.Base.{
  ℕ, zero, suc, Bool, true, false, not, ◌||◌, List, Option, none, some, ◌==◌, if◌then◌else◌, Run,
  ok, panic, ◌>>=◌, load, store, replicate, ℤ, pos, minus_one, within, load_at, store_at,
}
use deputy_kernel.Memory.{Memory, calloc}

-- `MOUNTMGR_MOUNTLIMIT`
abbrev pub mount_limit : ℕ
mount_limit = 1024

pub record Mounts : Type 0 where
  pub init_lock : Bool
  pub mount_v : List ℕ

-- The loop of `mountmgr_getSlot` from slot `i` on.
unfoldable pub get_slot_from : ℕ → ℕ → ℕ → Mounts → Run (ℤ × Mounts)
get_slot_from p i zero m = ok (minus_one, m)
get_slot_from p i (suc n) m = do
  old ← load m.mount_v i
  let rest = get_slot_from p (suc i) n m
  if old == 0 then (do v ← store m.mount_v i p; ok (pos i, record m { mount_v = v })) else rest

unfoldable pub get_slot : ℕ → Mounts → Run (ℤ × Mounts)
get_slot p m =
    if not m.init_lock || p == 0 then ok (minus_one, m) else get_slot_from p 0 mount_limit m

-- The table is read before the slot is checked.
unfoldable pub free_slot : ℤ → Mounts → Run (ℤ × Mounts)
free_slot slot m = if not m.init_lock then ok (minus_one, m) else do
  old ← load_at m.mount_v slot
  if old == 0 || not (within 0 mount_limit slot)
      then ok (minus_one, m)
      else (do v ← store_at m.mount_v slot 0; ok (pos 0, record m { mount_v = v }))

-- The lock is set before the table is allocated.
unfoldable pub mountmgr_init : Memory → Mounts → Run (Memory × Mounts)
mountmgr_init mem m = if m.init_lock then ok (mem, m) else do
  (table, mem') ← calloc mount_limit 4 mem
  if table == 0
      then panic
      else ok (mem', record { init_lock = true; mount_v = replicate mount_limit 0 })
