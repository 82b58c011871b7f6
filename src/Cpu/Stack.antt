-- ===== src/Cpu/Stack.antt =====
-- PUSH, POP, CALL, RET and LEAVE (src/cpu/ops.c).
pub mod Laws
use fake_kernel.Prelude.{
  ℕ, zero, suc, ◌+◌, ◌-◌, ◌*◌, ◌/◌, ◌%◌, ◌^◌, Bool, true, false, if◌then◌else◌, ltb, leb, ◌==◌, not,
  ◌&&◌, ◌||◌, differs, bit_and, bit_or, bit_xor, ◌<<<◌, ◌>>>◌, u8, u16, u32, u64, add32, sub8,
  sub16, sub32, not8, not32, sext8, sext16, has_bit, bit, to_int, Option, none, some,
}
use fake_kernel.Machine.{
  Machine, XmmReg, cf, pf, zf, sf, of, reg_eax, reg_ecx, reg_edx, reg_ebx, reg_esp, reg_ebp,
  reg_esi, reg_edi, set_seg_override, set_operand_size_16, set_mmx, set_xmm, set_fpu, set_fpu_top,
}
use fake_kernel.Prog.{Prog, ret, undefined, out_of_fuel, gets, assign, ◌>>=◌, ◌>>◌}
use fake_kernel.Cpu.{
  get_reg, put_reg, get_eip, put_eip, cycles, stop, read8, read16, read32, store8, store16, store32,
  fetch8, fetch16, fetch32, set_cf, set_pf, set_zf, set_sf, set_of_add, set_of_sub, get_flag,
  get_reg8, set_reg8,
}
use fake_kernel.Cpu.Decode.{
  ModRm, parse_modrm, resolve_rm_addr, read_rm8, write_rm8, read_rm16, write_rm16, read_rm32,
  write_rm32, put_reg16, read64, store64, read_xmm_src, write_xmm_dst,
}

-- `cpu->regs[REG_ESP] -= 4; mem_write32(cpu->regs[REG_ESP], val)`, where `val` is at hand.
abbrev pub push : ℕ → Prog (Unit {0})
push val = do
  esp ← get_reg reg_esp
  put_reg reg_esp (sub32 esp 4)
  top ← get_reg reg_esp
  store32 top val

-- 0x06, 0x16, 0x1E
unfoldable pub op_push_sreg : ℕ → Prog (Unit {0})
op_push_sreg op = do push 0; cycles 1

-- 0x07, 0x17, 0x1F
unfoldable pub op_pop_sreg : ℕ → Prog (Unit {0})
op_pop_sreg op = do esp ← get_reg reg_esp; put_reg reg_esp (esp + 4); cycles 1

-- 0x50-0x57: the register is read after ESP has moved.
unfoldable pub op_push_r32 : ℕ → Prog (Unit {0})
op_push_r32 op = do
  let reg = op % 8
  esp ← get_reg reg_esp
  put_reg reg_esp (sub32 esp 4)
  top ← get_reg reg_esp
  val ← get_reg reg
  store32 top val
  cycles 1

-- 0x58-0x5F: ESP is read again after the register has been set.
unfoldable pub op_pop_r32 : ℕ → Prog (Unit {0})
op_pop_r32 op = do
  let reg = op % 8
  top ← get_reg reg_esp
  val ← read32 top
  put_reg reg val
  esp ← get_reg reg_esp
  put_reg reg_esp (esp + 4)
  cycles 1

-- 0x68
unfoldable pub op_push_imm32 : ℕ → Prog (Unit {0})
op_push_imm32 op = do imm ← fetch32; push imm; cycles 1

-- 0x6A
unfoldable pub op_push_imm8 : ℕ → Prog (Unit {0})
op_push_imm8 op = do imm ← fetch8; push (sext8 imm); cycles 1

-- 0xC2
unfoldable pub op_ret_imm16 : ℕ → Prog (Unit {0})
op_ret_imm16 op = do
  imm ← fetch16
  esp ← get_reg reg_esp
  target ← read32 esp
  put_eip target
  put_reg reg_esp (esp + 4 + imm)
  cycles 5

-- 0xC3
unfoldable pub op_ret : ℕ → Prog (Unit {0})
op_ret op = do
  esp ← get_reg reg_esp
  target ← read32 esp
  put_eip target
  put_reg reg_esp (esp + 4)
  cycles 5

-- 0xC9
unfoldable pub op_leave : ℕ → Prog (Unit {0})
op_leave op = do
  small ← gets (λ s. s.operand_size_16)
  esp ← get_reg reg_esp
  ebp ← get_reg reg_ebp
  if small
      then (do
        put_reg reg_esp (bit_or (bit_and esp 0xffff_0000) (bit_and ebp 0xffff))
        top ← get_reg reg_esp
        val ← read16 top
        put_reg reg_esp (top + 2)
        put_reg reg_ebp (bit_or (bit_and ebp 0xffff_0000) val)
        cycles 3)
      else (do
        put_reg reg_esp ebp
        top ← get_reg reg_esp
        val ← read32 top
        put_reg reg_ebp val
        put_reg reg_esp (top + 4)
        cycles 3)

-- 0xE8
unfoldable pub op_call_rel32 : ℕ → Prog (Unit {0})
op_call_rel32 op = do offset ← fetch32; back ← get_eip; push back; put_eip (back + offset); cycles 5

-- 0xFF
unfoldable pub op_ff_group : ℕ → Prog (Unit {0})
op_ff_group op = do
  mrm ← parse_modrm
  let inc = do
    val ← read_rm32 mrm
    let result = add32 val 1
    write_rm32 mrm result
    set_zf result
    set_sf result
    set_pf result
    set_of_add val 1 result
    cycles 2
  let dec = do
    val ← read_rm32 mrm
    let result = sub32 val 1
    write_rm32 mrm result
    set_zf result
    set_sf result
    set_pf result
    set_of_sub val 1 result
    cycles 2
  let call = do target ← read_rm32 mrm; back ← get_eip; push back; put_eip target; cycles 5
  if mrm.reg == 0
      then inc
      else if mrm.reg == 1
      then dec
      else if mrm.reg == 2
      then call
      else if mrm.reg == 4
      then (do target ← read_rm32 mrm; put_eip target; cycles 3)
      else if mrm.reg == 6
      then (do val ← read_rm32 mrm; push val; cycles 2)
      else if mrm.reg == 7
      then (do val ← read_rm16 mrm; push (sext16 val); cycles 2)
      else stop
