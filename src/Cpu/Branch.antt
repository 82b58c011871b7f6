-- ===== src/Cpu/Branch.antt =====
-- Conditions, conditional and plain jumps, SETcc and CMOVcc (src/cpu/ops.c).
pub mod Compare
pub mod Orders
use fake_kernel.Prelude.{
  ℕ, zero, suc, ◌+◌, ◌-◌, ◌*◌, ◌/◌, ◌%◌, ◌^◌, Bool, true, false, if◌then◌else◌, ltb, leb, ◌==◌, not,
  ◌&&◌, ◌||◌, differs, bit_and, bit_or, bit_xor, ◌<<<◌, ◌>>>◌, u8, u16, u32, u64, add32, sub8,
  sub16, sub32, not8, not32, sext8, sext16, has_bit, bit, to_int, Option, none, some,
}
use fake_kernel.Machine.{
  Machine, XmmReg, cf, pf, zf, sf, of, reg_eax, reg_ecx, reg_edx, reg_ebx, reg_esp, reg_ebp,
  reg_esi, reg_edi, set_seg_override, set_operand_size_16, set_mmx, set_xmm, set_fpu, set_fpu_top,
}
use fake_kernel.Prog.{Prog, ret, undefined, out_of_fuel, gets, assign, ◌>>=◌, ◌>>◌}
use fake_kernel.Cpu.{
  get_reg, put_reg, get_eip, put_eip, cycles, stop, read8, read16, read32, store8, store16, store32,
  fetch8, fetch16, fetch32, set_cf, set_pf, set_zf, set_sf, set_of_add, set_of_sub, get_flag,
  get_reg8, set_reg8,
}
use fake_kernel.Cpu.Decode.{
  ModRm, parse_modrm, resolve_rm_addr, read_rm8, write_rm8, read_rm16, write_rm16, read_rm32,
  write_rm32, put_reg16, read64, store64, read_xmm_src, write_xmm_dst,
}

-- The switch on the sixteen condition codes, which `op_jcc_short`, `op_jcc_near`, `op_setcc` and
-- `op_cmovcc` repeat; `code` is the distance from its first label, `none` the default case.
unfoldable pub condition : ℕ → Bool → Bool → Bool → Bool → Bool → Option Bool
condition code c p z s o =
    if code == 0x0
    then some o
    else if code == 0x1
    then some (not o)
    else if code == 0x2
    then some c
    else if code == 0x3
    then some (not c)
    else if code == 0x4
    then some z
    else if code == 0x5
    then some (not z)
    else if code == 0x6
    then some (c || z)
    else if code == 0x7
    then some (not c && not z)
    else if code == 0x8
    then some s
    else if code == 0x9
    then some (not s)
    else if code == 0xa
    then some p
    else if code == 0xb
    then some (not p)
    else if code == 0xc
    then some (differs s o)
    else if code == 0xd
    then some (not (differs s o))
    else if code == 0xe
    then some (z || differs s o)
    else if code == 0xf
    then some (not z && not (differs s o))
    else none

-- The condition by the present flags.
unfoldable pub test_condition : ℕ → Prog (Option Bool)
test_condition code = do
  c ← get_flag cf
  p ← get_flag pf
  z ← get_flag zf
  s ← get_flag sf
  o ← get_flag of
  ret (condition code c p z s o)

-- 0x0F 0x40-0x4F
unfoldable pub op_cmovcc : ℕ → Prog (Unit {0})
op_cmovcc op = do
  mrm ← parse_modrm
  src ← read_rm32 mrm
  taken ← test_condition (op - 0x40)
  elim taken [ none ↦ stop | some true ↦ do put_reg mrm.reg src; cycles 2 | some false ↦ cycles 2 ]

-- 0x0F 0x80-0x8F
unfoldable pub op_jcc_near : ℕ → Prog (Unit {0})
op_jcc_near op = do
  offset ← fetch32
  taken ← test_condition (op - 0x80)
  eip ← get_eip
  elim taken [
    | none ↦ stop
    | some true ↦ do put_eip (eip + offset); cycles 1
    | some false ↦ cycles 1
  ]

-- 0x0F 0x90-0x9F
unfoldable pub op_setcc : ℕ → Prog (Unit {0})
op_setcc op = do
  mrm ← parse_modrm
  val ← test_condition (op - 0x90)
  elim val [ none ↦ stop | some b ↦ do write_rm8 mrm (to_int b); cycles 2 ]

-- 0x70-0x7F
unfoldable pub op_jcc_short : ℕ → Prog (Unit {0})
op_jcc_short op = do
  offset ← fetch8
  taken ← test_condition (op - 0x70)
  eip ← get_eip
  elim taken [
    | none ↦ stop
    | some true ↦ do put_eip (eip + sext8 offset); cycles 1
    | some false ↦ cycles 1
  ]

-- 0xE3
unfoldable pub op_jecxz : ℕ → Prog (Unit {0})
op_jecxz op = do
  offset ← fetch8
  ecx ← get_reg reg_ecx
  eip ← get_eip
  if ecx == 0 then (do put_eip (eip + sext8 offset); cycles 1) else cycles 1

-- 0xE9
unfoldable pub op_jmp_near : ℕ → Prog (Unit {0})
op_jmp_near op = do offset ← fetch32; eip ← get_eip; put_eip (eip + offset); cycles 1

-- 0xEB
unfoldable pub op_jmp_short : ℕ → Prog (Unit {0})
op_jmp_short op = do offset ← fetch8; eip ← get_eip; put_eip (eip + sext8 offset); cycles 1
