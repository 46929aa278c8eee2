-- ===== src/Lib.antt =====
-- Deputy kernel: a model of the C sources of a small 32-bit x86 kernel, and what it proves of
-- them.
--
-- The kernel boots through Multiboot, sets up its descriptor tables, its memory manager, its
-- drivers and its file system, and then runs processes that switch to each other by `yield`. The
-- block allocator (source/kernel/memory.c) is under everything: the process table, the stacks of
-- processes, the table of mounts, and the entries and the bytes of files come from it. The
-- string, number and buffer functions of source/kernel/utils.c are called from all of these, and
-- what they print goes to the console.
--
-- Files and what they model:
--
--   Base: lists with `get_elem?` and `set`, the outcome `Run` of code (a result, `fault` for an
--     access outside an object, `panic` for the macro PANIC), C's `int` as ℤ where a status can
--     be negative.
--   Utils/Buffers: `fill`, `ncopy`, `ncompare` of source/kernel/utils.c over an address space of
--     bytes.
--   Utils/Strings: `length` (as `string_length`), `copy`, `compare`, and in Split `split`, over
--     NUL-terminated buffers.
--   Utils/Numbers: `utils_bcd2dec`, `utils_oct2bin`, `utils_itoa`, `utils_xtoa`, `atoi`.
--   Utils/Format: `snprintf`, `printf`, `puts`, `putchar`.
--   Utils/Hash: `xorshift32`, `fnv1ahash`, `xorcipher`.
--   Memory: every function of source/kernel/memory.c, under the same name: `malloc`, `calloc`,
--     `realloc`, `free`, `mavail`, `memory_init`. Its variables are the record `Memory`.
--   Mount: every function of source/kernel/mountmgr.c.
--   Multitask: source/kernel/multitask.c: `sentry`, `spawn`, `kill`, `yield`, `exit`,
--     `multitask_init`, and in Multitask/Exec `exec` with `program_exec` of
--     source/kernel/program.c. Its variables are the record `Tasks`, which holds the state of the
--     allocator that it calls.
--   Console: source/kernel/console.c: the cells of the screen, the cursor, and the bytes sent to
--     ports.
--   CoreFs: source/kernel/corefs.c: searches in CoreFs, changes in CoreFs/Change. The table is a
--     list of entries with their addresses, over the allocator's state; CoreFs/Header has where
--     `fs_Entry_t` of include/kernel.h has its fields, and writes what is changed in an entry to
--     the bytes at its address too.
--   IoCall: source/kernel/iocall.c: `read` in IoCall, `write`, `open` (as `open_file`) and
--     `close` in IoCall/Descriptors, over the core file system.
--   Hw: the tables of source/hw/interrupts.c and source/hw/protect_init.c; Hw/Ports:
--     source/hw/port.c; Hw/Devbus: source/hw/devbus.c, with the scan in Hw/Devbus/Scan;
--     Hw/Drivers: source/kernel/drivers.c; Hw/Acpi: the table of include/hw/acpi.h, and in
--     Hw/Acpi/Tables `acpi_init` of source/hw/acpi.c.
--   Input: `i8042_proc` and `i8042_init` of source/hw/i8042.c (in Input/Controller and
--     Input/Init), the codes of include/drv/keyboard.h and the tables of scan codes, and in
--     Input/Send `key_send` and `mouse_send`.
--   Ramdisk: source/drv/ramdisk.c, over the allocator and the address space.
--   Fat32: source/fs/fat32.c: the layout of a volume in Fat32, `fat32_loadTree` and `fat32_mount`
--     in Fat32/Tree.
--   Tarfs: source/fs/tarfs.c.
--   Syscall: the table and the handler of source/kernel/syscall.c.
--   Boot: the start in `kernel_init` of source/kernel/kernel.c, with the tables of
--     include/multiboot.h: the checks, the memory map, the module, and the calls of
--     `protect_init`, `interrupts_init` and `memory_init` in Boot, the identification of the
--     processor and `kernel_idle` in Boot/Cpu, and in Boot/Main `kernel_main`: the module as
--     root, the device files and the loop.
--   Clock: `utils_readRTC`, `date`, `delay`, `sleep` and `unit` of source/kernel/utils.c.
--
-- A function takes the state of its module and returns its result beside the new state. A
-- `size_t` or `uint32_t` is a natural number, and the code's wrap-around is written out where a
-- sum or a product can pass 2 ^ 32. What hardware answers is a parameter: a record of the
-- instructions on ports, or of loads and stores on mapped registers, for a machine with any
-- state. A loop of a C `for` is a function that recurses on the number of rounds left or on the
-- list that it runs over. Fuel is used in `utils_itoa` (ten digits) and in `utils_xtoa` (eight
-- digits), which is enough for 32 bits, in `i8042_proc`, whose loop ends only if the controller
-- stops sending prefixes, in `sleep` and `delay`, which wait for a clock, in the loop over the
-- memory map of the boot loader, whose index would wrap on a map that fills the address space,
-- and in the walks over an archive, which a size field can hold in place. The bytes of the
-- address space are a function from addresses; the block table is a list of its own, which no
-- block overlaps after `memory_init`, so that the zeros that `memory_init` writes to it are not
-- in the bytes.
--
-- Not modelled: assembly (the context switch `multitask_swi`, the instructions on ports, the
-- frames of interrupts), the driver of USB hosts, the tests and the list of the root directory in
-- `kernel_main`, the log lines that functions print, and files that the Makefile does not build.
pub mod Base
pub mod Utils
pub mod Memory
pub mod Mount
pub mod Multitask
pub mod Console
pub mod CoreFs
pub mod IoCall
pub mod Hw
pub mod Boot
pub mod Clock
pub mod Fat32
pub mod Input
pub mod Ramdisk
pub mod Syscall
pub mod Tarfs
