-- ===== src/Start.antt =====
-- The program's `main` (src/main.c): the order of initialisation, the vsyscall stub, the block of
-- thread-local storage, and the run.
pub mod Fill
pub mod Laws
pub mod SetUp
pub mod Tls
use fake_kernel.Prelude.{
  ℕ, zero, suc, ◌+◌, ◌*◌, false, if◌then◌else◌, ltb, add32, sub32, not32, bit_and, bit_or, List, [],
  ◌∷◌, none, some,
}
use fake_kernel.Mem.{init_mem}
use fake_kernel.Machine.{Machine, write8, write32, set_brk, set_gs_base}
use fake_kernel.Prog.{Prog, ret, assign, ◌>>=◌, ◌>>◌}
use fake_kernel.Platform.{Platform, calls_of}
use fake_kernel.Cpu.Emulate.{init_cpu, emulate}
use fake_kernel.Syscall.Files.{init_fd_table}
use fake_kernel.Syscall.Host.{little_endian}
use fake_kernel.Syscall.Space.{init_brk, init_mmap_arena}
use fake_kernel.Loader.{File, load_elf}

abbrev pub stub_addr : ℕ
stub_addr = 0x1000

abbrev pub fake_tls_size : ℕ
fake_tls_size = 0x400

-- The state when `main` has called `init_mem`, `init_opcode_table`, `init_fd_table` and `init_cpu`.
-- All other variables are zeros, as C starts them.
unfoldable pub power_on : Platform → Machine
power_on plat = record {
  cpu = init_cpu;
  mem = init_mem (1024 * 1024 * 512);
  operand_size_16 = false;
  gs_base = 0;
  seg_override = 0;
  last_eip = 0;
  mmx_regs = λ _. 0;
  xmm_regs = λ _. record { lo = 0; hi = 0 };
  fpu_stack = λ _. 0;
  fpu_top = 0;
  brk = 0;
  mmap_base = 0;
  mmap_ptr = 0;
  fd_table = init_fd_table (calls_of plat);
  sigactions = λ _. little_endian 20 0;
  trace = [];
}

-- `int 0x80; ret`.
unfoldable pub write_stub : Prog (Unit {0})
write_stub = do
  assign (write8 stub_addr 0xcd)
  assign (write8 (stub_addr + 1) 0x80)
  assign (write8 (stub_addr + 2) 0xc3)

-- `mem_write32(base + i, STUB_ADDR)` for `n` values of `i`, 4 apart, from its argument on.
unfoldable pub fill_up : ℕ → ℕ → ℕ → Prog (Unit {0})
fill_up zero base i = ret tt
fill_up (suc n) base i = do assign (write32 (add32 base i) stub_addr); fill_up n base (i + 4)

-- `mem_write32(base - i, 0)` in the same way.
unfoldable pub clear_down : ℕ → ℕ → ℕ → Prog (Unit {0})
clear_down zero base i = ret tt
clear_down (suc n) base i = do assign (write32 (sub32 base i) 0); clear_down n base (i + 4)

-- `(FAKE_TLS_SIZE + 8 + 7) & ~7`.
unfoldable pub chunk_size : ℕ
chunk_size = bit_and (fake_tls_size + 8 + 7) (not32 7)

-- The block from the chunk's header on, with the break set behind it.
unfoldable pub set_up_tls : ℕ → Prog (Unit {0})
set_up_tls chunk_base = do
  let fake_tls_base = add32 chunk_base 8
  assign (write32 chunk_base 0)
  assign (write32 (add32 chunk_base 4) (bit_or chunk_size 1))
  assign (set_brk (chunk_base + chunk_size))
  fill_up 256 fake_tls_base 0
  clear_down 256 fake_tls_base 4
  assign (write32 fake_tls_base stub_addr)
  assign (write32 (add32 fake_tls_base 0x04) fake_tls_base)
  assign (write32 (add32 fake_tls_base 0x08) fake_tls_base)
  assign (write32 (add32 fake_tls_base 0x14) 0xdead_beef)
  assign (set_gs_base fake_tls_base)

-- Where the `mmap` arena starts: at 192 MB, or at the next 16 MB above a larger program.
unfoldable pub mmap_arena_start : ℕ → ℕ
mmap_arena_start load_end =
    if ltb 0x0c00_0000 load_end
    then bit_and (add32 load_end 0x00ff_ffff) (not32 0x00ff_ffff)
    else 0x0c00_0000

-- From the loader's success to the run.
unfoldable pub set_up : ℕ → Prog (Unit {0})
set_up load_end = do
  init_brk load_end
  set_up_tls load_end
  init_mmap_arena (mmap_arena_start load_end)

-- `main` from the state after its first calls, on the file that `argv[1]` names; the list is
-- `argv[1]` to `argv[argc - 1]`. The result is the exit status, 1 for EXIT_FAILURE. Fuel is for the
-- instructions. The last act of the source, `free_mem`, is left out, since no run sees memory after
-- it.
unfoldable pub main : Platform → ℕ → File → List (List ℕ) → Prog ℕ
main plat fuel f [] = ret 1
main plat fuel f (path ∷ args) = do
  write_stub
  loaded ← load_elf f (path ∷ args)
  elim loaded [ none ↦ ret 1 | some load_end ↦ do set_up load_end; emulate plat fuel; ret 0 ]
