-- ===== src/Cpu/Add.antt =====
-- The handlers of ADD and ADC, and of SBB (src/cpu/ops.c).
pub mod Carry
pub mod Override
use fake_kernel.Prelude.{
  ℕ, zero, suc, ◌+◌, ◌-◌, ◌*◌, ◌/◌, ◌%◌, ◌^◌, Bool, true, false, if◌then◌else◌, ltb, leb, ◌==◌, not,
  ◌&&◌, ◌||◌, differs, bit_and, bit_or, bit_xor, ◌<<<◌, ◌>>>◌, u8, u16, u32, u64, add32, sub8,
  sub16, sub32, not8, not32, sext8, sext16, has_bit, bit, to_int, Option, none, some,
}
use fake_kernel.Machine.{
  Machine, XmmReg, cf, pf, zf, sf, of, reg_eax, reg_ecx, reg_edx, reg_ebx, reg_esp, reg_ebp,
  reg_esi, reg_edi, set_seg_override, set_operand_size_16, set_mmx, set_xmm, set_fpu, set_fpu_top,
}
use fake_kernel.Prog.{Prog, ret, undefined, out_of_fuel, gets, assign, ◌>>=◌, ◌>>◌}
use fake_kernel.Cpu.{
  get_reg, put_reg, get_eip, put_eip, cycles, stop, read8, read16, read32, store8, store16, store32,
  fetch8, fetch16, fetch32, set_cf, set_pf, set_zf, set_sf, set_of_add, set_of_sub, get_flag,
  get_reg8, set_reg8,
}
use fake_kernel.Cpu.Decode.{
  ModRm, parse_modrm, resolve_rm_addr, read_rm8, write_rm8, read_rm16, write_rm16, read_rm32,
  write_rm32, put_reg16, read64, store64, read_xmm_src, write_xmm_dst,
}

-- The carry out of `a + b + cf`, as the handlers compute it from the wrapped result.
unfoldable pub carry_adc : ℕ → ℕ → ℕ → Bool
carry_adc a c result = ltb result a || (not (c == 0) && result == a)

-- The borrow of `a - b - cf`; the sum is a `uint32_t`.
unfoldable pub borrow_sbb : ℕ → ℕ → ℕ → Bool
borrow_sbb a b c = ltb a (add32 b c) || (not (c == 0) && b == 0xffff_ffff)

-- 0x00
unfoldable pub op_add_rm8_r8 : ℕ → Prog (Unit {0})
op_add_rm8_r8 op = do
  mrm ← parse_modrm
  a ← read_rm8 mrm
  b ← get_reg8 mrm.reg
  let result = u8 (a + b)
  write_rm8 mrm result
  set_cf (ltb result a)
  set_zf result
  set_sf result
  set_pf result
  set_of_add a b result
  cycles 2

-- 0x01
unfoldable pub op_add_rm32_r32 : ℕ → Prog (Unit {0})
op_add_rm32_r32 op = do
  mrm ← parse_modrm
  a ← read_rm32 mrm
  b ← get_reg mrm.reg
  let result = add32 a b
  write_rm32 mrm result
  set_cf (ltb result a)
  set_zf result
  set_sf result
  set_pf result
  set_of_add a b result
  cycles 2

-- 0x02
unfoldable pub op_add_r8_rm8 : ℕ → Prog (Unit {0})
op_add_r8_rm8 op = do
  mrm ← parse_modrm
  a ← get_reg8 mrm.reg
  b ← read_rm8 mrm
  let result = u8 (a + b)
  set_reg8 mrm.reg result
  set_cf (ltb result a)
  set_zf result
  set_sf result
  set_pf result
  set_of_add a b result
  cycles 2

-- 0x03
unfoldable pub op_add_r32_rm32 : ℕ → Prog (Unit {0})
op_add_r32_rm32 op = do
  mrm ← parse_modrm
  a ← get_reg mrm.reg
  b ← read_rm32 mrm
  let result = add32 a b
  put_reg mrm.reg result
  set_cf (ltb result a)
  set_zf result
  set_sf result
  set_pf result
  set_of_add a b result
  cycles 2

-- 0x05
unfoldable pub op_add_eax_imm32 : ℕ → Prog (Unit {0})
op_add_eax_imm32 op = do
  a ← get_reg reg_eax
  b ← fetch32
  let result = add32 a b
  put_reg reg_eax result
  set_cf (ltb result a)
  set_zf result
  set_sf result
  set_pf result
  set_of_add a b result
  cycles 1

-- 0x10
unfoldable pub op_adc_rm8_r8 : ℕ → Prog (Unit {0})
op_adc_rm8_r8 op = do
  mrm ← parse_modrm
  a ← read_rm8 mrm
  b ← get_reg8 mrm.reg
  carry ← get_flag cf
  let c = to_int carry
  let result = u8 (a + b + c)
  write_rm8 mrm result
  set_cf (carry_adc a c result)
  set_zf result
  set_sf result
  set_pf result
  set_of_add a b result
  cycles 2

-- 0x12
unfoldable pub op_adc_r8_rm8 : ℕ → Prog (Unit {0})
op_adc_r8_rm8 op = do
  mrm ← parse_modrm
  a ← get_reg8 mrm.reg
  b ← read_rm8 mrm
  carry ← get_flag cf
  let c = to_int carry
  let result = u8 (a + b + c)
  set_reg8 mrm.reg result
  set_cf (carry_adc a c result)
  set_zf result
  set_sf result
  set_pf result
  set_of_add a b result
  cycles 2

-- 0x11
unfoldable pub op_adc_rm32_r32 : ℕ → Prog (Unit {0})
op_adc_rm32_r32 op = do
  mrm ← parse_modrm
  a ← read_rm32 mrm
  b ← get_reg mrm.reg
  carry ← get_flag cf
  let c = to_int carry
  let result = u32 (a + b + c)
  write_rm32 mrm result
  set_cf (carry_adc a c result)
  set_zf result
  set_sf result
  set_pf result
  set_of_add a b result
  cycles 2

-- 0x13
unfoldable pub op_adc_r32_rm32 : ℕ → Prog (Unit {0})
op_adc_r32_rm32 op = do
  mrm ← parse_modrm
  a ← get_reg mrm.reg
  b ← read_rm32 mrm
  carry ← get_flag cf
  let c = to_int carry
  let result = u32 (a + b + c)
  put_reg mrm.reg result
  set_cf (carry_adc a c result)
  set_zf result
  set_sf result
  set_pf result
  set_of_add a b result
  cycles 2

-- 0x19
unfoldable pub op_sbb_rm32_r32 : ℕ → Prog (Unit {0})
op_sbb_rm32_r32 op = do
  mrm ← parse_modrm
  a ← read_rm32 mrm
  b ← get_reg mrm.reg
  carry ← get_flag cf
  let c = to_int carry
  let result = sub32 (sub32 a b) c
  write_rm32 mrm result
  set_cf (borrow_sbb a b c)
  set_zf result
  set_sf result
  set_pf result
  set_of_sub a b result
  cycles 2

-- 0x1B
unfoldable pub op_sbb_r32_rm32 : ℕ → Prog (Unit {0})
op_sbb_r32_rm32 op = do
  mrm ← parse_modrm
  a ← get_reg mrm.reg
  b ← read_rm32 mrm
  carry ← get_flag cf
  let c = to_int carry
  let result = sub32 (sub32 a b) c
  put_reg mrm.reg result
  set_cf (borrow_sbb a b c)
  set_zf result
  set_sf result
  set_pf result
  set_of_sub a b result
  cycles 2
