-- ===== src/Syscall/Tests.antt =====
-- A call by its number, where each function gives its address.
use deputy_kernel.Base.{ℕ, ◌+◌, ◌≤◌, ◌<◌, ◌≡◌, ◌≢◌, List, replicate, Run, ok, fault, ◌>>=◌}
use deputy_kernel.Syscall.{Registers, Calls, ent_count, fill_table, syscall_handler}
use deputy_kernel.Syscall.Dispatch.{routine, syscall_handler-routine}

abbrev calls : Calls
calls = record {
  exit = 0x1010;
  spawn = 0x1020;
  read = 0x1030;
  write = 0x1040;
  open_call = 0x1050;
  close = 0x1060;
  handler = 0x1070;
  yield_router = 0x1080;
}

abbrev registers : Registers
registers = record { eax = 4; ebx = 3; ecx = 0x5000; edx = 12; esi = 0; edi = 0 }

abbrev answer : (addr ebx ecx edx esi edi : ℕ) → ℕ → Run (ℕ × ℕ)
answer addr ebx ecx edx esi edi s = ok (addr + edx, s + 1)

syscall_handler-routine_example :
    (table : List ℕ) × (fill_table calls (replicate ent_count 0) ≡ ok table)
    × (4 < ent_count
        → routine calls 4 ≢ 0
        → syscall_handler answer table registers 7 ≡ (
            answer (routine calls 4) 3 0x5000 12 0 0 7 >>= λ (result, t).
            ok (record registers { eax = result }, t)))
    × (4 < ent_count
        → routine calls 4 ≡ 0
        → syscall_handler answer table registers 7 ≡ ok (registers, 7))
    × (ent_count ≤ 4 → syscall_handler answer table registers 7 ≡ fault)
syscall_handler-routine_example = syscall_handler-routine answer calls registers 7
