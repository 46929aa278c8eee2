-- ===== src/Hw/Tests.antt =====
-- Runs of the descriptor tables, and their theorems at concrete tables.
use deputy_kernel.Base.{
  ℕ, ◌≡◌, ◌≢◌, refl, true, false, [], ◌∷◌, arith, ok, some, get_elem?, length-replicate, replicate,
  pos, store,
}
use deputy_kernel.Hw.Interrupts.{IdtEntry, Idt, set_gate}
use deputy_kernel.Hw.Interrupts.Gate.{offset, IsIdt, set_gate-lem}
use deputy_kernel.Hw.Protect.{GdtEntry, Gdt, gdt_entry, set_gdt_entry, protect_init}

abbrev empty_gate : IdtEntry
empty_gate = record { offset_low = 0; selector = 0; reserved = 0; attributes = 0; offset_high = 0 }

abbrev idt : Idt
idt = record { init_lock = true; entries = replicate 256 empty_gate; limit = 0; base = 0 }

idt-IsIdt : IsIdt idt
idt-IsIdt = record { started = refl; size = length-replicate {A = IdtEntry} 256 empty_gate }

set_gate-lem_example :
    (t' : Idt) × (e : IdtEntry) × (set_gate 0x5000 (pos 0x80) 0x123456 idt ≡ ok t')
    × IsIdt t'
    × (get_elem? t'.entries 0x80 ≡ some e)
    × (offset e ≡ 0x123456)
    × ((i : ℕ) → 0x80 ≢ i → get_elem? t'.entries i ≡ get_elem? idt.entries i)
set_gate-lem_example =
    set_gate-lem 0x5000 0x80 0x123456 idt-IsIdt (omega arith) (omega arith) (omega arith)

abbrev empty_segment : GdtEntry
empty_segment = record {
  limit_low = 0;
  base_low = 0;
  base_middle = 0;
  access = 0;
  granularity = 0;
  base_high = 0;
}

abbrev gdt : Gdt
gdt = record { init_lock = false; entries = replicate 3 empty_segment; limit = 0; base = 0 }

-- The three segments of the kernel.
protect_init_runs :
    protect_init 0x9000 gdt
    ≡ ok (record {
      init_lock = true;
      entries =
          gdt_entry 0 0 0 0
          ∷ gdt_entry 0 0xFFFFFFFF 0x9A 0xCF
          ∷ gdt_entry 0 0xFFFFFFFF 0x92 0xCF
          ∷ [];
      limit = 23;
      base = 0x9000;
    })
unfolding protect_init set_gdt_entry store
protect_init_runs = refl
