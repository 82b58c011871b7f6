-- ===== src/Cpu/Emulate.antt =====
-- `init_cpu` and the fetch, decode and execute loop (src/cpu/cpu.c).
pub mod Laws
pub mod Runs
pub mod Interrupt
use fake_kernel.Prelude.{
  ℕ, zero, suc, ◌+◌, ◌-◌, ◌*◌, ◌/◌, ◌%◌, ◌^◌, Bool, true, false, if◌then◌else◌, ltb, leb, ◌==◌, not,
  ◌&&◌, ◌||◌, differs, bit_and, bit_or, bit_xor, ◌<<<◌, ◌>>>◌, u8, u16, u32, u64, add32, sub8,
  sub16, sub32, not8, not32, sext8, sext16, has_bit, bit, to_int, Option, none, some, List, [], ◌∷◌,
}
use fake_kernel.Machine.{
  Machine, XmmReg, cf, zf, sf, of, reg_eax, reg_ecx, reg_edx, reg_ebx, reg_esp, reg_ebp, reg_esi,
  reg_edi, set_seg_override, set_operand_size_16, set_mmx, set_xmm, set_fpu, set_fpu_top,
}
use fake_kernel.Prog.{Prog, ret, undefined, out_of_fuel, gets, assign, ◌>>=◌, ◌>>◌}
use fake_kernel.Cpu.{
  get_reg, put_reg, get_eip, put_eip, cycles, stop, read8, read16, read32, store8, store16, store32,
  fetch8, fetch16, fetch32, set_cf, set_pf, set_zf, set_sf, set_of_add, set_of_sub, get_flag,
  get_reg8, set_reg8,
}
use fake_kernel.Cpu.Decode.{
  ModRm, parse_modrm, resolve_rm_addr, read_rm8, write_rm8, read_rm16, write_rm16, read_rm32,
  write_rm32, put_reg16, read64, store64, read_xmm_src, write_xmm_dst,
}
use fake_kernel.Machine.{I386, set_last_eip}
use fake_kernel.Platform.{Platform, calls_of}
use fake_kernel.Cpu.Execute.{execute_opcode}

-- Bit 1 of EFLAGS is always set.
unfoldable pub init_cpu : I386
init_cpu = record { regs = λ _. 0; eip = 0; eflags = 0x2; halted = false; cycles = 0 }

-- More prefixes in a row than the instruction stream can hold.
abbrev pub prefix_fuel : ℕ
prefix_fuel = 2 ^ 32 + 1

-- The body of the loop.
unfoldable pub emulate_once : Platform → Prog (Unit {0})
emulate_once plat = do
  eip ← get_eip
  assign (set_last_eip eip)
  opcode ← read8 eip
  put_eip (eip + 1)
  execute_opcode plat prefix_fuel opcode

-- `while (!cpu->halted)`, with fuel for the instructions.
unfoldable pub emulate : Platform → ℕ → Prog (Unit {0})
emulate plat zero = out_of_fuel
emulate plat (suc fuel) = do
  halted ← gets (λ s. s.cpu.halted)
  if halted then ret tt else do emulate_once plat; emulate plat fuel
