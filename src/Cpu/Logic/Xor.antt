-- ===== src/Cpu/Logic/Xor.antt =====
-- The handlers of XOR and TEST (src/cpu/ops.c).
use fake_kernel.Prelude.{ℕ, false, bit_and, bit_xor}
use fake_kernel.Machine.{reg_eax}
use fake_kernel.Prog.{Prog, ◌>>=◌, ◌>>◌}
use fake_kernel.Cpu.{
  get_al, get_reg, put_reg, cycles, fetch8, fetch32, set_cf, set_pf, set_zf, set_sf, get_reg8,
  set_reg8,
}
use fake_kernel.Cpu.Decode.{parse_modrm, read_rm8, write_rm8, read_rm32, write_rm32}

-- 0x30
unfoldable pub op_xor_rm8_r8 : ℕ → Prog (Unit {0})
op_xor_rm8_r8 op = do
  mrm ← parse_modrm
  a ← read_rm8 mrm
  b ← get_reg8 mrm.reg
  let result = bit_xor a b
  write_rm8 mrm result
  set_zf result
  set_sf result
  set_pf result
  set_cf false
  cycles 2

-- 0x31: unlike the other forms, this one leaves CF as it is.
unfoldable pub op_xor_rm32_r32 : ℕ → Prog (Unit {0})
op_xor_rm32_r32 op = do
  mrm ← parse_modrm
  a ← read_rm32 mrm
  b ← get_reg mrm.reg
  let result = bit_xor a b
  write_rm32 mrm result
  set_zf result
  set_sf result
  set_pf result
  cycles 2

-- 0x33
unfoldable pub op_xor_r32_rm32 : ℕ → Prog (Unit {0})
op_xor_r32_rm32 op = do
  mrm ← parse_modrm
  a ← get_reg mrm.reg
  b ← read_rm32 mrm
  let result = bit_xor a b
  put_reg mrm.reg result
  set_zf result
  set_sf result
  set_pf result
  set_cf false
  cycles 2

-- 0x34
unfoldable pub op_xor_al_imm8 : ℕ → Prog (Unit {0})
op_xor_al_imm8 op = do
  a ← get_al
  b ← fetch8
  let result = bit_xor a b
  set_reg8 reg_eax result
  set_zf result
  set_sf result
  set_pf result
  set_cf false
  cycles 1

-- 0x84
unfoldable pub op_test_rm8_r8 : ℕ → Prog (Unit {0})
op_test_rm8_r8 op = do
  mrm ← parse_modrm
  a ← read_rm8 mrm
  b ← get_reg8 mrm.reg
  let result = bit_and a b
  set_zf result
  set_sf result
  set_pf result
  set_cf false
  cycles 2

-- 0x85: CF is left as it is.
unfoldable pub op_test_rm32_r32 : ℕ → Prog (Unit {0})
op_test_rm32_r32 op = do
  mrm ← parse_modrm
  a ← read_rm32 mrm
  b ← get_reg mrm.reg
  let result = bit_and a b
  set_zf result
  set_sf result
  set_pf result
  cycles 2

-- 0xA8
unfoldable pub op_test_al_imm8 : ℕ → Prog (Unit {0})
op_test_al_imm8 op = do
  a ← get_al
  b ← fetch8
  let result = bit_and a b
  set_zf result
  set_sf result
  set_pf result
  set_cf false
  cycles 1

-- 0xA9
unfoldable pub op_test_eax_imm32 : ℕ → Prog (Unit {0})
op_test_eax_imm32 op = do
  a ← get_reg reg_eax
  b ← fetch32
  let result = bit_and a b
  set_zf result
  set_sf result
  set_pf result
  set_cf false
  cycles 1
