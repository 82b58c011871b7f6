-- ===== src/Cpu/Logic.antt =====
-- The handlers of OR and AND (src/cpu/ops.c).
pub mod Xor
use fake_kernel.Prelude.{ℕ, false, bit_and, bit_or, bit_xor, u8}
use fake_kernel.Machine.{reg_eax}
use fake_kernel.Prog.{Prog, ret, ◌>>=◌, ◌>>◌}
use fake_kernel.Cpu.{
  get_al, get_reg, put_reg, cycles, fetch8, fetch32, set_cf, set_pf, set_zf, set_sf, get_reg8,
  set_reg8,
}
use fake_kernel.Cpu.Decode.{parse_modrm, read_rm8, write_rm8, read_rm32, write_rm32}

-- 0x09
unfoldable pub op_or_rm32_r32 : ℕ → Prog (Unit {0})
op_or_rm32_r32 op = do
  mrm ← parse_modrm
  a ← read_rm32 mrm
  b ← get_reg mrm.reg
  let result = bit_or a b
  write_rm32 mrm result
  set_zf result
  set_sf result
  set_pf result
  set_cf false
  cycles 2

-- 0x0B
unfoldable pub op_or_r32_rm32 : ℕ → Prog (Unit {0})
op_or_r32_rm32 op = do
  mrm ← parse_modrm
  a ← get_reg mrm.reg
  b ← read_rm32 mrm
  let result = bit_or a b
  put_reg mrm.reg result
  set_zf result
  set_sf result
  set_cf false
  set_pf result
  cycles 2

-- 0x0C
unfoldable pub op_or_al_imm8 : ℕ → Prog (Unit {0})
op_or_al_imm8 op = do
  a ← get_al
  b ← fetch8
  let result = bit_or a b
  set_reg8 reg_eax result
  set_zf result
  set_sf result
  set_pf result
  set_cf false
  cycles 1

-- 0x0D
unfoldable pub op_or_eax_imm32 : ℕ → Prog (Unit {0})
op_or_eax_imm32 op = do
  a ← get_reg reg_eax
  b ← fetch32
  let result = bit_or a b
  put_reg reg_eax result
  set_zf result
  set_sf result
  set_pf result
  set_cf false
  cycles 1

-- 0x20
unfoldable pub op_and_rm8_r8 : ℕ → Prog (Unit {0})
op_and_rm8_r8 op = do
  mrm ← parse_modrm
  a ← read_rm8 mrm
  b ← get_reg8 mrm.reg
  let result = bit_and a b
  write_rm8 mrm result
  set_zf result
  set_sf result
  set_pf result
  set_cf false
  cycles 2

-- 0x21
unfoldable pub op_and_rm32_r32 : ℕ → Prog (Unit {0})
op_and_rm32_r32 op = do
  mrm ← parse_modrm
  a ← read_rm32 mrm
  b ← get_reg mrm.reg
  let result = bit_and a b
  write_rm32 mrm result
  set_zf result
  set_sf result
  set_pf result
  set_cf false
  cycles 2

-- 0x22
unfoldable pub op_and_r8_rm8 : ℕ → Prog (Unit {0})
op_and_r8_rm8 op = do
  mrm ← parse_modrm
  a ← get_reg8 mrm.reg
  b ← read_rm8 mrm
  let result = bit_and a b
  set_reg8 mrm.reg result
  set_zf result
  set_sf result
  set_pf result
  set_cf false
  cycles 2

-- 0x23
unfoldable pub op_and_r32_rm32 : ℕ → Prog (Unit {0})
op_and_r32_rm32 op = do
  mrm ← parse_modrm
  a ← get_reg mrm.reg
  b ← read_rm32 mrm
  let result = bit_and a b
  put_reg mrm.reg result
  set_zf result
  set_sf result
  set_pf result
  set_cf false
  cycles 2

-- 0x24
unfoldable pub op_and_al_imm8 : ℕ → Prog (Unit {0})
op_and_al_imm8 op = do
  a ← get_al
  b ← fetch8
  let result = bit_and a b
  set_reg8 reg_eax result
  set_zf result
  set_sf result
  set_pf result
  set_cf false
  cycles 1

-- 0x25
unfoldable pub op_and_eax_imm32 : ℕ → Prog (Unit {0})
op_and_eax_imm32 op = do
  a ← get_reg reg_eax
  b ← fetch32
  let result = bit_and a b
  put_reg reg_eax result
  set_zf result
  set_sf result
  set_pf result
  set_cf false
  cycles 1
