-- ===== src/Multitask/Exec.antt =====
-- `exec` of source/kernel/multitask.c, and `program_exec` of source/kernel/program.c: a 32-bit ELF
-- file becomes a process. The tasks and the file system share one memory manager.
pub mod Image
pub mod Loading
mod Tests
use deputy_kernel.Base.{
  ℕ, zero, suc, ◌+◌, ◌-◌, ◌*◌, ◌/◌, ◌%◌, ◌^◌, Bool, true, false, not, ◌||◌, ◌&&◌, List, [], ◌∷◌,
  ◌==◌, ltb, if◌then◌else◌, Option, none, some, Run, ok, ◌>>=◌, ℤ, pos, negsuc, minus_one, load,
  store,
}
use deputy_kernel.Memory.{Memory, blk_size, malloc, free}
use deputy_kernel.Utils.Buffers.{Bytes, fill, ncopy}
use deputy_kernel.CoreFs.{Date, Fs, is_empty, stat}
use deputy_kernel.CoreFs.Change.{read_file}
use deputy_kernel.Multitask.{Tasks, spawn}

-- The bytes 7F, "ELF".
abbrev pub prog_magic : ℕ
prog_magic = 0x464C457F

abbrev pub pt_load : ℕ
pt_load = 1

-- A field of four bytes, and of two.
unfoldable pub field32 : Bytes → ℕ → ℕ
field32 mem a = mem a + mem (a + 1) * 2 ^ 8 + mem (a + 2) * 2 ^ 16 + mem (a + 3) * 2 ^ 24

unfoldable pub field16 : Bytes → ℕ → ℕ
field16 mem a = mem a + mem (a + 1) * 2 ^ 8

-- The fields of `multitask_ProgELF32EH_t` that are used.
pub record ElfHeader : Type 0 where
  pub entry : ℕ
  pub phoff : ℕ
  pub phnum : ℕ

unfoldable pub elf_header : Bytes → ℕ → ElfHeader
elf_header mem image = record {
  entry = field32 mem (image + 24);
  phoff = field32 mem (image + 28);
  phnum = field16 mem (image + 44);
}

-- The fields of `multitask_ProgELF32PH_t` that are used, `sizeof_ph` bytes apart.
pub record Segment : Type 0 where
  pub kind : ℕ
  pub offset : ℕ
  pub vaddr : ℕ
  pub filesz : ℕ
  pub memsz : ℕ

abbrev pub sizeof_ph : ℕ
sizeof_ph = 32

unfoldable pub segment_at : Bytes → ℕ → Segment
segment_at mem ph = record {
  kind = field32 mem ph;
  offset = field32 mem (ph + 4);
  vaddr = field32 mem (ph + 8);
  filesz = field32 mem (ph + 16);
  memsz = field32 mem (ph + 20);
}

-- The bounds after one segment, which counts only if it is loaded.
unfoldable pub low_with : Segment → ℕ → ℕ
low_with s low = if s.kind == pt_load && ltb s.vaddr low then s.vaddr else low

unfoldable pub high_with : Segment → ℕ → ℕ
high_with s high =
    let end = (s.vaddr + s.memsz) % 2 ^ 32 in
    if s.kind == pt_load && ltb high end then end else high

-- The loop over the headers that bounds the addresses of what is loaded: (`min_vaddr`, `max_vaddr`).
unfoldable pub bounds_from : Bytes → (left ph low high : ℕ) → ℕ × ℕ
bounds_from mem zero ph low high = (low, high)
bounds_from mem (suc n) ph low high =
    bounds_from mem n (ph + sizeof_ph) (low_with (segment_at mem ph) low)
      (high_with (segment_at mem ph) high)

-- `v & ~(MEMORY_BLKSIZE - 1)`
abbrev pub align_down : ℕ → ℕ
align_down v = v / blk_size * blk_size

-- The bounds, on whole blocks.
unfoldable pub image_bounds : Bytes → (image : ℕ) → ElfHeader → ℕ × ℕ
image_bounds mem image eh =
    let (low, high) = bounds_from mem eh.phnum ((image + eh.phoff) % 2 ^ 32) (2 ^ 32 - 1) 0 in
    (align_down low, align_down ((high + blk_size - 1) % 2 ^ 32))

-- One segment at its place: the bytes of the file, then zeros.
unfoldable pub load_segment : (image shift : ℕ) → Segment → Bytes → Bytes
load_segment image shift s mem =
    let dst = (shift + s.vaddr) % 2 ^ 32 in
    fill ((dst + s.filesz) % 2 ^ 32) 0 ((s.memsz + 2 ^ 32 - s.filesz) % 2 ^ 32)
      (ncopy dst ((image + s.offset) % 2 ^ 32) s.filesz mem)

-- The second loop over the headers. `shift` is what is added to a virtual address.
unfoldable pub load_segments : (image shift left ph : ℕ) → Bytes → Bytes
load_segments image shift zero ph mem = mem
load_segments image shift (suc n) ph mem =
    let s = segment_at mem ph in
    load_segments image shift n (ph + sizeof_ph)
      (if not (s.kind == pt_load) then mem else load_segment image shift s mem)

abbrev pub with_bytes : Bytes → Memory → Memory
with_bytes mem m = record m { bytes = mem }

-- The end of `exec`: the process, or the block back.
unfoldable pub start : List ℕ → (base entry : ℕ) → Tasks → Run (ℤ × Tasks)
start path base entry t = do
  (pid, t') ← spawn (some path) ((base + entry) % 2 ^ 32) t
  elim pid [
    | negsuc n ↦ (do memory ← free base t'.memory; ok (minus_one, record t' { memory = memory }))
    | pos i ↦ (do
      p ← load t'.proc_v i
      v ← store t'.proc_v i (record p { file = true })
      ok (pos i, record t' { proc_v = v }))
  ]

-- The file is at `image`.
unfoldable pub exec_image : List ℕ → ℕ → Tasks → Run (ℤ × Tasks)
exec_image path image t =
    if not (field32 t.memory.bytes image == prog_magic) then ok (minus_one, t) else do
      let eh = elf_header t.memory.bytes image
      let (low, high) = image_bounds t.memory.bytes image eh
      (base, memory) ← malloc ((high + 2 ^ 32 - low) % 2 ^ 32) t.memory
      if base == 0 then ok (minus_one, record t { memory = memory }) else do
        let mem =
            load_segments image ((base + 2 ^ 32 - low) % 2 ^ 32) eh.phnum
              ((image + eh.phoff) % 2 ^ 32) memory.bytes
        start path base eh.entry (record t { memory = with_bytes mem memory })

-- The path is `none` for NULL, and the file system's memory manager is that of the tasks.
unfoldable pub exec : Date → Option (List ℕ) → Option (List ℕ) → Tasks → Fs → Run (ℤ × Tasks × Fs)
exec now none mount_v t fs = ok (minus_one, t, fs)
exec now (some path) mount_v t fs =
    if not t.init_lock || is_empty path then ok (minus_one, t, fs) else elim (stat path fs) [
      | none ↦ ok (minus_one, t, fs)
      | some i ↦ (do
        (content, fs') ← read_file now path mount_v (record fs { memory = t.memory })
        let t' = record t { memory = fs'.memory }
        elim content [
          | none ↦ ok (minus_one, t', fs')
          | some image ↦ (do
            (pid, t'') ← exec_image path image t'
            ok (pid, t'', record fs' { memory = t''.memory }))
        ])
    ]

-- `program_exec` loads at a fixed base, and starts a process whatever `spawn` answers.
abbrev pub program_base : ℕ
program_base = 0x4000000

unfoldable pub program_image : List ℕ → ℕ → Tasks → Run (ℤ × Tasks)
program_image path image t =
    if not (field32 t.memory.bytes image == prog_magic) then ok (minus_one, t) else do
      let eh = elf_header t.memory.bytes image
      let mem =
          load_segments image program_base eh.phnum ((image + eh.phoff) % 2 ^ 32) t.memory.bytes
      (pid, t') ←
          spawn (some path) ((program_base + eh.entry) % 2 ^ 32)
            (record t { memory = with_bytes mem t.memory })
      ok (pos 0, t')

unfoldable pub program_exec :
    Date → Option (List ℕ) → Option (List ℕ) → Tasks → Fs → Run (ℤ × Tasks × Fs)
program_exec now none mount_v t fs = ok (minus_one, t, fs)
program_exec now (some path) mount_v t fs = elim (stat path fs) [
  | none ↦ ok (minus_one, t, fs)
  | some i ↦ (do
    (content, fs') ← read_file now path mount_v (record fs { memory = t.memory })
    let t' = record t { memory = fs'.memory }
    elim content [
      | none ↦ ok (minus_one, t', fs')
      | some image ↦ (do
        (pid, t'') ← program_image path image t'
        ok (pid, t'', record fs' { memory = t''.memory }))
    ])
]
