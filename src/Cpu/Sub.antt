-- ===== src/Cpu/Sub.antt =====
-- The handlers of SUB, CMP, INC and DEC (src/cpu/ops.c).
pub mod Bytes
use fake_kernel.Prelude.{
  ℕ, zero, suc, ◌+◌, ◌-◌, ◌*◌, ◌/◌, ◌%◌, ◌^◌, Bool, true, false, if◌then◌else◌, ltb, leb, ◌==◌, not,
  ◌&&◌, ◌||◌, differs, bit_and, bit_or, bit_xor, ◌<<<◌, ◌>>>◌, u8, u16, u32, u64, add32, sub8,
  sub16, sub32, not8, not32, sext8, sext16, has_bit, bit, to_int, Option, none, some,
}
use fake_kernel.Machine.{
  Machine, XmmReg, cf, pf, zf, sf, of, reg_eax, reg_ecx, reg_edx, reg_ebx, reg_esp, reg_ebp,
  reg_esi, reg_edi, set_seg_override, set_operand_size_16, set_mmx, set_xmm, set_fpu, set_fpu_top,
}
use fake_kernel.Prog.{Prog, ret, undefined, out_of_fuel, gets, assign, ◌>>=◌, ◌>>◌}
use fake_kernel.Cpu.{
  get_al, get_reg, put_reg, get_eip, put_eip, cycles, stop, read8, read16, read32, store8, store16,
  store32, fetch8, fetch16, fetch32, set_cf, set_pf, set_zf, set_sf, set_of_add, set_of_sub,
  get_flag, get_reg8, set_reg8,
}
use fake_kernel.Cpu.Decode.{
  ModRm, parse_modrm, resolve_rm_addr, read_rm8, write_rm8, read_rm16, write_rm16, read_rm32,
  write_rm32, put_reg16, read64, store64, read_xmm_src, write_xmm_dst,
}

-- 0x29
unfoldable pub op_sub_rm32_r32 : ℕ → Prog (Unit {0})
op_sub_rm32_r32 op = do
  mrm ← parse_modrm
  a ← read_rm32 mrm
  b ← get_reg mrm.reg
  let result = sub32 a b
  write_rm32 mrm result
  set_cf (ltb a b)
  set_zf result
  set_sf result
  set_pf result
  set_of_sub a b result
  cycles 2

-- 0x2B
unfoldable pub op_sub_r32_rm32 : ℕ → Prog (Unit {0})
op_sub_r32_rm32 op = do
  mrm ← parse_modrm
  a ← get_reg mrm.reg
  b ← read_rm32 mrm
  let result = sub32 a b
  put_reg mrm.reg result
  set_cf (ltb a b)
  set_zf result
  set_sf result
  set_pf result
  set_of_sub a b result
  cycles 2

-- 0x2D
unfoldable pub op_sub_eax_imm32 : ℕ → Prog (Unit {0})
op_sub_eax_imm32 op = do
  a ← get_reg reg_eax
  b ← fetch32
  let result = sub32 a b
  put_reg reg_eax result
  set_cf (ltb a b)
  set_zf result
  set_sf result
  set_pf result
  set_of_sub a b result
  cycles 1

-- 0x38
unfoldable pub op_cmp_rm8_r8 : ℕ → Prog (Unit {0})
op_cmp_rm8_r8 op = do
  mrm ← parse_modrm
  a ← read_rm8 mrm
  b ← get_reg8 mrm.reg
  let result = sub8 a b
  set_cf (ltb a b)
  set_zf result
  set_sf result
  set_pf result
  set_of_sub a b result
  cycles 2

-- 0x39
unfoldable pub op_cmp_rm32_r32 : ℕ → Prog (Unit {0})
op_cmp_rm32_r32 op = do
  mrm ← parse_modrm
  a ← read_rm32 mrm
  b ← get_reg mrm.reg
  let result = sub32 a b
  set_cf (ltb a b)
  set_zf result
  set_sf result
  set_pf result
  set_of_sub a b result
  cycles 2

-- 0x3A
unfoldable pub op_cmp_r8_rm8 : ℕ → Prog (Unit {0})
op_cmp_r8_rm8 op = do
  mrm ← parse_modrm
  a ← get_reg8 mrm.reg
  b ← read_rm8 mrm
  let result = sub8 a b
  set_cf (ltb a b)
  set_zf result
  set_sf result
  set_pf result
  set_of_sub a b result
  cycles 2

-- 0x3B
unfoldable pub op_cmp_r32_rm32 : ℕ → Prog (Unit {0})
op_cmp_r32_rm32 op = do
  mrm ← parse_modrm
  a ← get_reg mrm.reg
  b ← read_rm32 mrm
  let result = sub32 a b
  set_cf (ltb a b)
  set_zf result
  set_sf result
  set_pf result
  set_of_sub a b result
  cycles 2

-- 0x3C
unfoldable pub op_cmp_al_imm8 : ℕ → Prog (Unit {0})
op_cmp_al_imm8 op = do
  a ← get_al
  b ← fetch8
  let result = sub8 a b
  set_cf (ltb a b)
  set_zf result
  set_sf result
  set_pf result
  set_of_sub a b result
  cycles 1

-- 0x3D
unfoldable pub op_cmp_eax_imm32 : ℕ → Prog (Unit {0})
op_cmp_eax_imm32 op = do
  a ← get_reg reg_eax
  b ← fetch32
  let result = sub32 a b
  set_cf (ltb a b)
  set_zf result
  set_sf result
  set_pf result
  set_of_sub a b result
  cycles 1

-- 0x40-0x47: CF is not touched.
unfoldable pub op_inc_r32 : ℕ → Prog (Unit {0})
op_inc_r32 op = do
  let reg = op % 8
  a ← get_reg reg
  let result = add32 a 1
  put_reg reg result
  set_zf result
  set_sf result
  set_pf result
  set_of_add a 1 result
  cycles 1

-- 0x48-0x4F: CF is not touched.
unfoldable pub op_dec_r32 : ℕ → Prog (Unit {0})
op_dec_r32 op = do
  let reg = op % 8
  a ← get_reg reg
  let result = sub32 a 1
  put_reg reg result
  set_zf result
  set_sf result
  set_pf result
  set_of_sub a 1 result
  cycles 1
