-- ===== src/Lib.antt =====
-- simbench, microbenchmarks for full-system simulators: a model of its C core with its theorems.
--
-- A simbench image is a bare-metal program. An architecture port (arch/*) sets up the exception
-- vectors and the page tables and offers the operations of include/arch.h and include/mem.h; a
-- platform (platform/*) offers the console and lists the devices; the harness (harness/harness.c)
-- runs each benchmark (benchmarks/*) and prints markers through util/printf.c, by which the host
-- program (host/main.c) takes the time. On x86-64 a benchmark that faults on purpose is resumed by
-- a handler that measures the faulting instruction with the decoder of arch/x86_64/decode.c.
--
-- Files:
-- - Base: C's tests on numbers (Base/Tests), arrays as lists (Base/Lists), the laws of `&` and `|`
--   as arithmetic on bit fields (Base/Bits) and bit by bit (Base/Words), and state passing with
--   abort (Base/Outcome).
-- - Decode: arch/x86_64/decode.c and decode.h, one definition for each function and for each
--   switch. The code behind the `const uint8_t **` is the list of its bytes; reading past its end
--   is a fault, a return of 0 a refusal. `decode_int` ends without a return: a parameter says
--   whether its caller sees zero. Decode/Types has the operands and registers, Decode/Cursor the
--   reading, Decode/Operands and Decode/Inst the functions; Decode/Reads, Decode/Parts and
--   Decode/Length what is read, Decode/Registers and Decode/Memory the operands.
-- - Paging: arch/x86_64/mem.c and heap.c. The state (Paging/Machine) is the memory as words, the
--   page heap, the static variables and CR3; `arch_abort` gives no result. Paging/Entry and
--   Paging/Map have the code, Paging/Walk the processor's four-level walk, Paging/Tree the shape
--   of tables under a root; Paging/Ensure to Paging/Init go from one entry to `mem_init`.
-- - Trap: arch/x86_64/irq.c, exception.c and the start and the hooks of arch.c. The state
--   (Trap/State) is the machine of Paging with the interrupt table, the writes to the local APIC
--   and the handler pointers. Trap/Gate, Trap/Apic, Trap/Handlers and Trap/Start have the code of
--   `irq_init`, Trap/Skip the handlers over the decoder, Trap/Command the command line.
-- - Section: arch/arm/mem.c. The state (Section/Machine) is the section table by index, the static
--   flags, the registers of coprocessor 15 and a trace of the maintenance operations, which also
--   has the calls of the routines of arch/arm/cache.S. Section/Cache has the probes and the
--   maintenance, Section/Map the mappings and `mem_init`.
-- - Vectors: arch/arm/exception.c. Vectors/Install has the code over a memory of words and CPSR.
-- - Armv8: arch/armv8. The state (Armv8/State) is the memory, the static variables and the
--   registers that the code reads and writes. Armv8/Table has txln_table.c, Armv8/Memory the
--   system calls of mem.c, Armv8/Syscall and Armv8/Exception the serving side with the vectors of
--   vectors.S for each mode of the caller, and Armv8/Arch the operations that a benchmark calls.
--   Armv8/Runs has the states that a program reaches. Armv8/Walk is the processor's walk,
--   Armv8/Tree the shape of the tables by the role of each page; Armv8/Ensure to Armv8/Translate
--   go from one entry to one mapping, Armv8/Range and Armv8/Regions to a region, Armv8/Init,
--   Armv8/Root and Armv8/Boot to `syscall_mem_init`, and Armv8/Identity from the call of
--   `mem_init` to its return.
-- - Util: memcpy.c and memset.c over a memory of bytes (Util/Bytes), and the spinner of debug.c.
-- - Printf: util/printf.c. The buffer is a list, and an access outside it gives no result;
--   `va_arg` is a parameter. Printf/Buffer and Printf/Format have the code up to `vsnprintf`,
--   Printf/Stream the streams and the functions over `vsnprintf`.
-- - Console: platform/x86_64/native/console.c, of which qemu/console.c is a copy.
-- - Platform: platform/arm and platform/armv8, a file for each board. The state (Platform/Bus) is
--   the trace of the loads and stores of device registers and the streams; what a load gives is an
--   arbitrary function of the accesses before it. Platform/Boards and Platform/Arm pick the board
--   as the build does; Platform/Signal is what an interrupt controller makes of the stores,
--   Platform/Swi has rounds of interrupts, Platform/Reach the devices through the section table,
--   and Platform/Print the text that a UART gets.
-- - Native: platform/x86_64/native with arch/x86_64/pit.c, and platform/x86_64/qemu/platform.c,
--   over the trace of the port I/O (Native/Ports) and the states of Trap and Console: the serial
--   port (Native/Serial), the timers (Native/Timer) and `platform_init` (Native/Init, Native/Up).
-- - Benchmarks: benchmarks/memory over an interface of the architecture (Benchmarks/Port): the
--   kernels and their set-up (Benchmarks/Memory), with arch/arm as the architecture
--   (Benchmarks/Arm) and the TLB benchmark on it (Benchmarks/Tlb).
-- - Harness: harness/harness.c as the trace of what it prints, of the mode switches and of the
--   kernels that it runs; a kernel is the text that it prints.
-- - Host: host/main.c over a list of characters; the clock is a number for each read of it.
--
-- Numbers: addresses and words are numbers, with the wrap-around of their width written out where
-- the C code computes with them (64 bits on x86-64, 32 on ARM). A pad size in a format is
-- unbounded.
--
-- Loops are recursions on what they consume: bytes, pages, characters or the room in a buffer. The
-- region loops of ARM and ARMv8 have fuel, since their address can wrap for ever; on ARM the fuel
-- is enough when it has a unit for each section of the region, which 4096 always is; on ARMv8 it
-- is enough above the number of pages of all regions, and a page of a region takes three pages of
-- the heap at most. The loop that waits for the local APIC has fuel too: one unit for each read
-- until it has delivered. The loop of the host's `main` has a unit for each benchmark and one
-- more, and the loops of the UART of
-- ArndaleBoard, of the serial port and of the calibration one for each poll.
--
-- Parameters: linker symbols, device lists, the configuration ARCH_ARMV7 and __ARM, the reads of
-- the local APIC and of the platforms' devices and ports, the arguments that `va_arg` gives, the
-- clock and `fscanf` of the host, what a function without a return gives its caller, the digits
-- that ArndaleBoard prints for its identification register, and what the register of the output
-- operand holds in the asm by which `mem_mmu_enable` of ARM writes the control register.
--
-- Not modelled: messages that go to the debug stream, but for that of `platform_init` of
-- ArndaleBoard, which waits for the UART; assembly but for the paths of vectors.S, single
-- privileged instructions, and the benchmarks but for those of the memory, whose effect is the
-- instructions that they execute. A TLB is no part of the state: a walk always reads the tables.
-- A read of CurrentEL gives a value at every exception level.
pub mod Base
pub mod Decode
pub mod Paging
pub mod Trap
pub mod Section
pub mod Vectors
pub mod Armv8
pub mod Util
pub mod Printf
pub mod Console
pub mod Platform
pub mod Native
pub mod Benchmarks
pub mod Harness
pub mod Host
