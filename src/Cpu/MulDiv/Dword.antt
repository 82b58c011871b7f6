-- ===== src/Cpu/MulDiv/Dword.antt =====
-- The dword cases of opcode 0xF7 (src/cpu/ops.c).
use fake_kernel.Prelude.{
  ℕ, ◌*◌, ◌/◌, ◌%◌, ◌^◌, false, if◌then◌else◌, ◌==◌, not, ◌&&◌, ◌||◌, bit_and, bit_or, ◌<<<◌, ◌>>>◌,
  u32, u64, sub32, not32,
}
use fake_kernel.Machine.{reg_eax, reg_edx}
use fake_kernel.Prog.{Prog, undefined, ◌>>=◌, ◌>>◌}
use fake_kernel.Cpu.{
  get_reg, put_reg, cycles, stop, fetch32, set_cf, set_pf, set_zf, set_sf, set_of_sub,
}
use fake_kernel.Cpu.Decode.{ModRm, parse_modrm, read_rm32, write_rm32}
use fake_kernel.Cpu.MulDiv.{signed_div, signed_rem, sext32}

-- The cases of `op_f7_group`.
unfoldable pub test_rm32_imm32 : ModRm → Prog (Unit {0})
test_rm32_imm32 mrm = do
  imm ← fetch32
  a ← read_rm32 mrm
  let result = bit_and a imm
  set_zf result
  set_sf result
  set_pf result
  set_cf false
  cycles 2

unfoldable pub neg_rm32 : ModRm → Prog (Unit {0})
neg_rm32 mrm = do
  val ← read_rm32 mrm
  let result = sub32 0 val
  write_rm32 mrm result
  set_cf (not (val == 0))
  set_zf result
  set_sf result
  set_of_sub 0 val result
  cycles 2

unfoldable pub mul_rm32 : ModRm → Prog (Unit {0})
mul_rm32 mrm = do
  eax ← get_reg reg_eax
  val ← read_rm32 mrm
  let result = eax * val
  put_reg reg_eax (u32 result)
  put_reg reg_edx (u32 (result >>> 32))
  edx ← get_reg reg_edx
  set_cf (not (edx == 0))
  cycles 10

unfoldable pub imul_rm32 : ModRm → Prog (Unit {0})
imul_rm32 mrm = do
  eax ← get_reg reg_eax
  val ← read_rm32 mrm
  let result = u64 (sext32 eax * sext32 val)
  put_reg reg_eax (u32 result)
  put_reg reg_edx (u32 (result >>> 32))
  edx ← get_reg reg_edx
  set_cf (not (edx == 0))
  cycles 10

unfoldable pub div_rm32 : ModRm → Prog (Unit {0})
div_rm32 mrm = do
  divisor ← read_rm32 mrm
  eax ← get_reg reg_eax
  edx ← get_reg reg_edx
  let dividend = bit_or (edx <<< 32) eax
  if divisor == 0 then cycles 20 else do
    put_reg reg_eax (u32 (dividend / divisor))
    put_reg reg_edx (u32 (dividend % divisor))
    cycles 20

-- The least `int64_t` over -1 has no quotient, which C leaves undefined.
unfoldable pub idiv_rm32 : ModRm → Prog (Unit {0})
idiv_rm32 mrm = do
  divisor ← read_rm32 mrm
  eax ← get_reg reg_eax
  edx ← get_reg reg_edx
  let dividend = bit_or (edx <<< 32) eax
  if divisor == 0
      then stop
      else if dividend == 2 ^ 63 && divisor == 0xffff_ffff
      then undefined
      else do
        put_reg reg_eax (u32 (signed_div 64 dividend (sext32 divisor)))
        put_reg reg_edx (u32 (signed_rem 64 dividend (sext32 divisor)))
        cycles 20

-- 0xF7
unfoldable pub op_f7_group : ℕ → Prog (Unit {0})
op_f7_group op = do
  mrm ← parse_modrm
  if mrm.reg == 0 || mrm.reg == 1
      then test_rm32_imm32 mrm
      else if mrm.reg == 2
      then (do val ← read_rm32 mrm; write_rm32 mrm (not32 val); cycles 2)
      else if mrm.reg == 3
      then neg_rm32 mrm
      else if mrm.reg == 4
      then mul_rm32 mrm
      else if mrm.reg == 5
      then imul_rm32 mrm
      else if mrm.reg == 6
      then div_rm32 mrm
      else if mrm.reg == 7
      then idiv_rm32 mrm
      else stop
