-- ===== src/Cpu/Move.antt =====
-- MOV, LEA, XCHG, MOVZX, MOVSX and CMPXCHG (src/cpu/ops.c).
use fake_kernel.Prelude.{
  ℕ, ◌%◌, if◌then◌else◌, ltb, ◌==◌, u16, add32, sub32, sext8, sext16, has_bit,
}
use fake_kernel.Machine.{reg_eax, reg_edx, set_seg_override}
use fake_kernel.Prog.{Prog, ret, gets, assign, ◌>>=◌, ◌>>◌}
use fake_kernel.Cpu.{
  get_reg, put_reg, cycles, read32, store8, store32, fetch8, fetch32, set_cf, set_zf, set_sf,
  set_of_sub, get_reg8, set_reg8,
}
use fake_kernel.Cpu.Decode.{
  parse_modrm, resolve_rm_addr, read_rm8, write_rm8, read_rm16, write_rm16, read_rm32, write_rm32,
  put_reg16,
}

-- 0x0F 0xB1
unfoldable pub op_cmpxchg_rm32_r32 : ℕ → Prog (Unit {0})
op_cmpxchg_rm32_r32 op = do
  mrm ← parse_modrm
  dst ← read_rm32 mrm
  eax ← get_reg reg_eax
  src ← get_reg mrm.reg
  let result = sub32 eax dst
  set_zf result
  set_sf result
  set_cf (ltb eax dst)
  set_of_sub eax dst result
  if eax == dst then (do write_rm32 mrm src; cycles 6) else (do put_reg reg_eax dst; cycles 6)

-- 0x0F 0xB6
unfoldable pub op_movzx_r32_rm8 : ℕ → Prog (Unit {0})
op_movzx_r32_rm8 op = do mrm ← parse_modrm; val ← read_rm8 mrm; put_reg mrm.reg val; cycles 2

-- 0x0F 0xB7
unfoldable pub op_movzx_r32_rm16 : ℕ → Prog (Unit {0})
op_movzx_r32_rm16 op = do mrm ← parse_modrm; val ← read_rm16 mrm; put_reg mrm.reg val; cycles 2

-- 0x0F 0xBE
unfoldable pub op_movsx_r32_rm8 : ℕ → Prog (Unit {0})
op_movsx_r32_rm8 op = do
  mrm ← parse_modrm
  val ← read_rm8 mrm
  put_reg mrm.reg (sext8 val)
  cycles 2

-- 0x0F 0xBF
unfoldable pub op_movsx_r32_rm16 : ℕ → Prog (Unit {0})
op_movsx_r32_rm16 op = do
  mrm ← parse_modrm
  val ← read_rm16 mrm
  put_reg mrm.reg (sext16 val)
  cycles 2

-- 0x87
unfoldable pub op_xchg_rm32_r32 : ℕ → Prog (Unit {0})
op_xchg_rm32_r32 op = do
  mrm ← parse_modrm
  a ← read_rm32 mrm
  b ← get_reg mrm.reg
  write_rm32 mrm b
  put_reg mrm.reg a
  cycles 2

-- 0x88
unfoldable pub op_mov_rm8_r8 : ℕ → Prog (Unit {0})
op_mov_rm8_r8 op = do mrm ← parse_modrm; val ← get_reg8 mrm.reg; write_rm8 mrm val; cycles 2

-- 0x89
unfoldable pub op_mov_rm32_r32 : ℕ → Prog (Unit {0})
op_mov_rm32_r32 op = do
  mrm ← parse_modrm
  small ← gets (λ s. s.operand_size_16)
  val ← get_reg mrm.reg
  if small then write_rm16 mrm (u16 val) else write_rm32 mrm val
  cycles 2

-- 0x8A
unfoldable pub op_mov_r8_rm8 : ℕ → Prog (Unit {0})
op_mov_r8_rm8 op = do mrm ← parse_modrm; val ← read_rm8 mrm; set_reg8 mrm.reg val; cycles 2

-- 0x8B
unfoldable pub op_mov_r32_rm32 : ℕ → Prog (Unit {0})
op_mov_r32_rm32 op = do
  mrm ← parse_modrm
  small ← gets (λ s. s.operand_size_16)
  if small
      then (do val ← read_rm16 mrm; put_reg16 mrm.reg val)
      else (do val ← read_rm32 mrm; put_reg mrm.reg val)
  cycles 2

-- 0x8D
unfoldable pub op_lea_r32_m : ℕ → Prog (Unit {0})
op_lea_r32_m op = do mrm ← parse_modrm; addr ← resolve_rm_addr mrm; put_reg mrm.reg addr; cycles 1

-- 0x8E: the write to a segment register is ignored.
unfoldable pub op_mov_sreg_rm16 : ℕ → Prog (Unit {0})
op_mov_sreg_rm16 op = do _ ← parse_modrm; cycles 2

-- 0x91-0x97
unfoldable pub op_xchg_eax_r32 : ℕ → Prog (Unit {0})
op_xchg_eax_r32 op = do
  let reg = op % 8
  tmp ← get_reg reg_eax
  val ← get_reg reg
  put_reg reg_eax val
  put_reg reg tmp
  cycles 2

-- 0x99
unfoldable pub op_cdq : ℕ → Prog (Unit {0})
op_cdq op = do
  eax ← get_reg reg_eax
  put_reg reg_edx (if has_bit eax 31 then 0xffff_ffff else 0)
  cycles 1

-- `addr += g_seg_override; g_seg_override = 0` on the address that follows the opcode.
abbrev absolute : Prog ℕ
absolute = do
  addr ← fetch32
  base ← gets (λ s. s.seg_override)
  assign (set_seg_override 0)
  ret (add32 addr base)

-- 0xA1
unfoldable pub op_mov_eax_mem : ℕ → Prog (Unit {0})
op_mov_eax_mem op = do addr ← absolute; val ← read32 addr; put_reg reg_eax val; cycles 2

-- 0xA2
unfoldable pub op_mov_mem_al : ℕ → Prog (Unit {0})
op_mov_mem_al op = do addr ← absolute; eax ← get_reg reg_eax; store8 addr eax; cycles 2

-- 0xA3
unfoldable pub op_mov_mem_eax : ℕ → Prog (Unit {0})
op_mov_mem_eax op = do addr ← absolute; eax ← get_reg reg_eax; store32 addr eax; cycles 2

-- 0xB8-0xBF
unfoldable pub op_mov_r32_imm32 : ℕ → Prog (Unit {0})
op_mov_r32_imm32 op = do val ← fetch32; put_reg (op % 8) val; cycles 1

-- 0xC6
unfoldable pub op_mov_rm8_imm8 : ℕ → Prog (Unit {0})
op_mov_rm8_imm8 op = do mrm ← parse_modrm; imm ← fetch8; write_rm8 mrm imm; cycles 2

-- 0xC7
unfoldable pub op_mov_rm32_imm32 : ℕ → Prog (Unit {0})
op_mov_rm32_imm32 op = do mrm ← parse_modrm; imm ← fetch32; write_rm32 mrm imm; cycles 2
