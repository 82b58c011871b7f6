-- ===== src/Cpu/MulDiv.antt =====
-- The group 0xF6, the forms of IMUL, and signed division (src/cpu/ops.c).
pub mod Dword
pub mod Laws
pub mod Signed
use fake_kernel.Prelude.{
  ℕ, zero, suc, ◌+◌, ◌-◌, ◌*◌, ◌/◌, ◌%◌, ◌^◌, Bool, true, false, if◌then◌else◌, ltb, leb, ◌==◌, not,
  ◌&&◌, ◌||◌, differs, bit_and, bit_or, bit_xor, ◌<<<◌, ◌>>>◌, u8, u16, u32, u64, add32, sub8,
  sub16, sub32, not8, not32, sext8, sext16, has_bit, bit, to_int, Option, none, some,
}
use fake_kernel.Machine.{
  Machine, XmmReg, cf, pf, zf, sf, of, reg_eax, reg_ecx, reg_edx, reg_ebx, reg_esp, reg_ebp,
  reg_esi, reg_edi, set_seg_override, set_operand_size_16, set_mmx, set_xmm, set_fpu, set_fpu_top,
}
use fake_kernel.Prog.{Prog, ret, undefined, out_of_fuel, gets, assign, ◌>>=◌, ◌>>◌}
use fake_kernel.Cpu.{
  get_reg, put_reg, get_eip, put_eip, cycles, stop, read8, read16, read32, store8, store16, store32,
  fetch8, fetch16, fetch32, set_cf, set_pf, set_zf, set_sf, set_of_add, set_of_sub, get_flag,
  get_reg8, set_reg8,
}
use fake_kernel.Cpu.Decode.{
  ModRm, parse_modrm, resolve_rm_addr, read_rm8, write_rm8, read_rm16, write_rm16, read_rm32,
  write_rm32, put_reg16, read64, store64, read_xmm_src, write_xmm_dst,
}

-- Signed numbers as patterns of `w` bits: their size, and the pattern with the sign reversed.
unfoldable pub magnitude : ℕ → ℕ → ℕ
magnitude w x = if has_bit x (w - 1) then 2 ^ w - x else x

unfoldable pub negate : ℕ → ℕ → ℕ
negate w x = (2 ^ w - x) % 2 ^ w

-- `a / b` and `a % b` of C, which round towards zero, on patterns of `w` bits.
unfoldable pub signed_div : ℕ → ℕ → ℕ → ℕ
signed_div w a b =
    let q = magnitude w a / magnitude w b in
    if differs (has_bit a (w - 1)) (has_bit b (w - 1)) then negate w q else q

unfoldable pub signed_rem : ℕ → ℕ → ℕ → ℕ
signed_rem w a b =
    let r = magnitude w a % magnitude w b in if has_bit a (w - 1) then negate w r else r

-- `(int64_t)(int32_t)x` as a pattern.
unfoldable pub sext32 : ℕ → ℕ
sext32 x = if has_bit x 31 then x + (2 ^ 64 - 2 ^ 32) else x

-- 0x0F 0xAF
unfoldable pub op_imul_r32_rm32 : ℕ → Prog (Unit {0})
op_imul_r32_rm32 op = do
  mrm ← parse_modrm
  a ← get_reg mrm.reg
  b ← read_rm32 mrm
  let result = u32 (a * b)
  put_reg mrm.reg result
  set_zf result
  set_sf result
  cycles 10

-- 0x69
unfoldable pub op_imul_r32_rm32_imm32 : ℕ → Prog (Unit {0})
op_imul_r32_rm32_imm32 op = do
  mrm ← parse_modrm
  a ← read_rm32 mrm
  b ← fetch32
  let result = u32 (a * b)
  put_reg mrm.reg result
  set_zf result
  set_sf result
  cycles 10

-- 0x6B
unfoldable pub op_imul_r32_rm32_imm8 : ℕ → Prog (Unit {0})
op_imul_r32_rm32_imm8 op = do
  mrm ← parse_modrm
  a ← read_rm32 mrm
  imm ← fetch8
  let result = u32 (a * sext8 imm)
  put_reg mrm.reg result
  set_zf result
  set_sf result
  cycles 10

-- The cases of `op_f6_group`.
unfoldable pub test_rm8_imm8 : ModRm → Prog (Unit {0})
test_rm8_imm8 mrm = do
  imm ← fetch8
  a ← read_rm8 mrm
  let result = bit_and a imm
  set_zf result
  set_sf result
  set_pf result
  set_cf false
  cycles 2

-- The address is resolved once here.
unfoldable pub not_rm8 : ModRm → Prog (Unit {0})
not_rm8 mrm =
    if mrm.mode == 3
    then (do val ← get_reg8 mrm.rm; set_reg8 mrm.rm (not8 val); cycles 2)
    else (do addr ← resolve_rm_addr mrm; val ← read8 addr; store8 addr (not8 val); cycles 2)

unfoldable pub neg_rm8 : ModRm → Prog (Unit {0})
neg_rm8 mrm = do
  val ← read_rm8 mrm
  let result = sub8 0 val
  write_rm8 mrm result
  set_cf (not (val == 0))
  set_zf result
  set_sf result
  cycles 2

unfoldable pub mul_rm8 : ModRm → Prog (Unit {0})
mul_rm8 mrm = do
  eax ← get_reg reg_eax
  val ← read_rm8 mrm
  let result = u16 (u8 eax * val)
  put_reg16 reg_eax result
  set_cf (not (result >>> 8 == 0))
  cycles 10

unfoldable pub imul_rm8 : ModRm → Prog (Unit {0})
imul_rm8 mrm = do
  eax ← get_reg reg_eax
  val ← read_rm8 mrm
  let result = u16 (sext8 (u8 eax) * sext8 val)
  let high = sext8 (result >>> 8)
  put_reg16 reg_eax result
  set_cf (not (high == (if has_bit result 7 then 0xffff_ffff else 0)))
  cycles 10

unfoldable pub div_rm8 : ModRm → Prog (Unit {0})
div_rm8 mrm = do
  divisor ← read_rm8 mrm
  eax ← get_reg reg_eax
  let dividend = u16 eax
  if divisor == 0 then stop else do
    put_reg reg_eax (
        bit_or (bit_or (bit_and eax 0xffff_0000) ((dividend % divisor) <<< 8)) (dividend / divisor))
    cycles 20

unfoldable pub idiv_rm8 : ModRm → Prog (Unit {0})
idiv_rm8 mrm = do
  val ← read_rm8 mrm
  eax ← get_reg reg_eax
  let divisor = sext8 val
  let dividend = sext16 (u16 eax)
  if val == 0 then stop else do
    put_reg reg_eax (
        bit_or (bit_or (bit_and eax 0xffff_0000) (u8 (signed_rem 32 dividend divisor) <<< 8))
          (u8 (signed_div 32 dividend divisor)))
    cycles 20

-- 0xF6
unfoldable pub op_f6_group : ℕ → Prog (Unit {0})
op_f6_group op = do
  mrm ← parse_modrm
  if mrm.reg == 0 || mrm.reg == 1
      then test_rm8_imm8 mrm
      else if mrm.reg == 2
      then not_rm8 mrm
      else if mrm.reg == 3
      then neg_rm8 mrm
      else if mrm.reg == 4
      then mul_rm8 mrm
      else if mrm.reg == 5
      then imul_rm8 mrm
      else if mrm.reg == 6
      then div_rm8 mrm
      else if mrm.reg == 7
      then idiv_rm8 mrm
      else stop
