-- ===== src/Syscall/Dispatch.antt =====
-- The handler over the table that `syscall_init` fills.
use deputy_kernel.Base.{
  ℕ, zero, suc, ◌<◌, ◌≤◌, ◌≡◌, ◌≢◌, refl, arith, ◌==◌, if◌then◌else◌, List, ◌∷◌, replicate, Run, ok,
  fault, ◌>>=◌, load, store, load-fault,
}
use deputy_kernel.Syscall.{
  Registers, Calls, ent_count, sys_exit, sys_spawn, sys_read, sys_write, sys_open, sys_close,
  syscall_handler, fill_table,
}

-- The function behind a number.
abbrev pub routine : Calls → ℕ → ℕ
routine c n =
    if n == sys_exit
    then c.exit
    else if n == sys_spawn
    then c.spawn
    else if n == sys_read
    then c.read
    else if n == sys_write
    then c.write
    else if n == sys_open
    then c.open_call
    else if n == sys_close
    then c.close
    else 0

abbrev empty_rest : List ℕ
empty_rest = replicate 249 0

abbrev pub filled : Calls → List ℕ
filled c = 0 ∷ c.exit ∷ c.spawn ∷ c.read ∷ c.write ∷ c.open_call ∷ c.close ∷ empty_rest

fill_table_lem : (c : Calls) → fill_table c (replicate ent_count 0) ≡ ok (filled c)
unfolding fill_table store
fill_table_lem c = refl

load-replicate : (n i : ℕ) → i < n → load {A = ℕ} (replicate n 0) i ≡ ok 0
unfolding load
load-replicate zero i h = absurd (omega arith)
load-replicate (suc n) zero h = refl
load-replicate (suc n) (suc i) h = load-replicate n i (omega arith)

load-filled : (c : Calls) (n : ℕ) → n < ent_count → load (filled c) n ≡ ok (routine c n)
unfolding load
load-filled c zero h = refl
load-filled c (suc zero) h = refl
load-filled c (suc (suc zero)) h = refl
load-filled c (suc (suc (suc zero))) h = refl
load-filled c (suc (suc (suc (suc zero)))) h = refl
load-filled c (suc (suc (suc (suc (suc zero))))) h = refl
load-filled c (suc (suc (suc (suc (suc (suc zero)))))) h = refl
load-filled c (suc (suc (suc (suc (suc (suc (suc n))))))) h = ground (arith, load-replicate 249 n)

module _ {S : Type 0} (call : (addr ebx ecx edx esi edi : ℕ) → S → Run (ℕ × S)) where
  handler-entry :
      (table : List ℕ) (r : Registers) (s : S) (a : ℕ)
      → load table r.eax ≡ ok a
      → r.eax < ent_count
      → a ≢ 0
      → syscall_handler call table r s ≡ (
          call a r.ebx r.ecx r.edx r.esi r.edi s >>= λ (result, t).
          ok (record r { eax = result }, t))
  unfolding syscall_handler
  handler-entry table r s a e h n = ground arith

  handler-none :
      (table : List ℕ) (r : Registers) (s : S) (a : ℕ)
      → load table r.eax ≡ ok a
      → a ≡ 0
      → syscall_handler call table r s ≡ ok (r, s)
  unfolding syscall_handler
  handler-none table r s a e n = ground arith

  handler-outside :
      (table : List ℕ) (r : Registers) (s : S)
      → load table r.eax ≡ fault
      → syscall_handler call table r s ≡ fault
  unfolding syscall_handler
  handler-outside table r s e = ground arith

  -- The entries of `syscall_init` can be written to the zero table, and with the table that
  -- results: a number below 256 that has a function whose address is not NULL calls it with the
  -- five argument registers, and the result goes to eax; one that has none changes nothing; a
  -- number from 256 on reads outside the table.
  pub syscall_handler-routine :
      (c : Calls) (r : Registers) (s : S)
      → (table : List ℕ) × (fill_table c (replicate ent_count 0) ≡ ok table)
        × (r.eax < ent_count
            → routine c r.eax ≢ 0
            → syscall_handler call table r s ≡ (
                call (routine c r.eax) r.ebx r.ecx r.edx r.esi r.edi s >>= λ (result, t).
                ok (record r { eax = result }, t)))
        × (r.eax < ent_count → routine c r.eax ≡ 0 → syscall_handler call table r s ≡ ok (r, s))
        × (ent_count ≤ r.eax → syscall_handler call table r s ≡ fault)
  syscall_handler-routine c r s = (
    filled c,
    fill_table_lem c,
    λ h n. handler-entry (filled c) r s (routine c r.eax) (load-filled c r.eax h) h n,
    λ h n. handler-none (filled c) r s (routine c r.eax) (load-filled c r.eax h) n,
    λ h. handler-outside (filled c) r s (load-fault (filled c) r.eax (omega arith)),
  )
