-- ===== src/Lib.antt =====
-- A verification of the i386 emulator and its Linux system call layer.
--
-- The program loads a Linux i386 executable into a flat guest memory and interprets it. src/main.c
-- sets memory, the loader, the break and the mmap arena up and calls `emulate` (src/cpu/cpu.c), which
-- fetches a byte at EIP and calls `execute_opcode` (src/cpu/ops.c) until the processor has halted. The
-- handlers of ops.c work on the `i386` record, on file-level variables (operand size, segment base,
-- SSE, MMX and x87 registers) and on guest memory (src/mem/mem.c). INT 0x80 goes to
-- `dispatch_syscall` (src/syscall/syscall.c), which calls the backend (src/syscall/backend_win32.c).
--
-- The files:
--   Prelude: shared names, Boolean tests, machine words and laws of `&`, `|` and `^`.
--   Mem: src/mem/mem.c. `g_mem` and `g_size` are the record `Memory`.
--   Machine: `i386` and all file-level variables in one record `Machine`, and `Write`, a type with one
--     constructor per kind of assignment. `apply` is the effect of an assignment.
--   Prog: handlers are programs that read the state, assign, call the host or end the run. `run` is
--     their meaning as a function on the state.
--   Cpu: the flag and register helpers of ops.c. Its children hold the handlers, each under the name
--     that it has in C: Decode (ModR/M), Add, Sub, Logic, Group (0x80, 0x81, 0x83), Shift, MulDiv,
--     Move, Stack, Branch, Strings, Sse, X87 and System. Table and Table0f are the dispatch tables of
--     `init_opcode_table`, Execute the prefixes and `execute_opcode`, Emulate `init_cpu` and the loop.
--   Syscall: `dispatch_syscall`, its child Numbers the names of the calls. Files, Space and Signals are
--     the backend's calls, Host the pointers that `guest_to_host` gives. Interface is what Files asks
--     of a build as a record of operations with their laws; Posix and Win32 are the two branches of
--     `#ifdef _WIN32` in src/syscall/backend_win32.c, which Build chooses between.
--   Platform: the build together with the floating point of the host.
--   Loader: `load_elf` (src/loader/loader.c), its child Stack the initial stack. A file of the host is
--     the record `File`: whether it opens, where `fseek` can go and what `fread` gives. It is a
--     parameter.
--   Start: `main` (src/main.c), from the state that its first calls leave to the run.
--   Prog.Total, Prog.Finishes, Cpu.Total and Syscall.Total hold the lemmas on fuel. Cpu.Emulate.Runs
--     has the loop as a relation between machines, Cpu.Emulate.Interrupt a round at INT 0x80.
--   Syscall.Files.Contract has an abstract table of descriptors and the steps that a call may make on
--     it, Syscall.Requests the calls as the registers ask for them, Syscall.Files.Writev the buffers
--     that `sys_writev` is to send.
--   Modules named Laws, Runs, Sends, Rotate, Signed, Scan, Copy, Refines, Builds, Dispatch,
--     Blocks, Places, Segments, Fill, Tls, Memory, Only, Abi, Overlap, Flags, Overflow, Carry,
--     Override, SetUp, Compare, Orders, Bytes, Registers and Valid hold proofs. Tests holds a small machine and
--     runs at concrete inputs.
--
-- Conventions and bounds:
--   A 32-bit value is a natural number below 2 ^ 32, and every wrap-around is written out. Values are
--   cut to their width when they are stored. `size_t` has 64 bits, as on the hosts that the program is
--   built for. Signed `int` values are the patterns of two's complement, and their overflow wraps.
--   The result `undefined` stands for what C leaves undefined and a run could reach: a shift by the
--   width or more, the quotient that does not exist, a file size that leaves 63 bits, and an access by
--   a host pointer beyond the end of guest memory.
--   The host is a function from the calls made so far and the present one to an answer. The arithmetic
--   of `double` is the record `FloatOps` of functions on bit patterns. Both are parameters.
--   Only the theorem on the table of descriptors assumes something of the host, that `errno` is
--   positive and below 2 ^ 31 when a call has failed. Of a file only the theorem on a segment assumes
--   that it holds the bytes which it gives.
--   The two builds are one model: a call takes the build's operations as an argument, so that what is
--   said of `dispatch_syscall` or `emulate` is said of both. A `HANDLE` is a 64-bit number, and the
--   error codes that the backend tells apart are the constructors of `LastError`.
--   Loops run on fuel. A repeated string instruction is given one round more than ECX counts, since the
--   last round only finds that ECX is 0. A run of prefixes is given 2 ^ 32 + 1, more than there
--   are addresses. The bytes of a segment are copied in chunks of 4096, and fuel is one step for each
--   byte. `emulate` takes the number of instructions, since a guest need not stop.
--
-- Not modelled: what is printed, and `free_mem` at the end of `main`, after which the process has
-- nothing left to do.
pub mod Prelude
pub mod Mem
pub mod Machine
pub mod Prog
pub mod Platform
pub mod Cpu
pub mod Syscall
pub mod Loader
pub mod Start
pub mod Tests
