-- ===== src/Cpu/Execute.antt =====
-- `opcode_table`, the prefixes and `execute_opcode` (src/cpu/ops.c). A prefix executes the next
-- opcode, so the dispatch is a recursion; it runs on fuel.
use fake_kernel.Prelude.{ℕ, zero, suc, true, false, if◌then◌else◌, ◌==◌, List, [], ◌∷◌}
use fake_kernel.Machine.{set_seg_override, set_operand_size_16}
use fake_kernel.Prog.{out_of_fuel, gets, assign, ◌>>=◌, ◌>>◌}
use fake_kernel.Cpu.{cycles, stop, fetch8}
use fake_kernel.Cpu.Add.{
  op_add_rm8_r8, op_add_rm32_r32, op_add_r8_rm8, op_add_r32_rm32, op_add_eax_imm32, op_adc_rm8_r8,
  op_adc_r8_rm8, op_adc_rm32_r32, op_adc_r32_rm32, op_sbb_rm32_r32, op_sbb_r32_rm32,
}
use fake_kernel.Cpu.Branch.{op_jcc_short, op_jecxz, op_jmp_near, op_jmp_short}
use fake_kernel.Cpu.Group.{op_80_group, op_81, op_83}
use fake_kernel.Cpu.Logic.{
  op_or_rm32_r32, op_or_r32_rm32, op_or_al_imm8, op_or_eax_imm32, op_and_rm8_r8, op_and_rm32_r32,
  op_and_r8_rm8, op_and_r32_rm32, op_and_al_imm8, op_and_eax_imm32,
}
use fake_kernel.Cpu.Logic.Xor.{
  op_xor_rm8_r8, op_xor_rm32_r32, op_xor_r32_rm32, op_xor_al_imm8, op_test_rm8_r8, op_test_rm32_r32,
  op_test_al_imm8, op_test_eax_imm32,
}
use fake_kernel.Cpu.Move.{
  op_xchg_rm32_r32, op_mov_rm8_r8, op_mov_rm32_r32, op_mov_r8_rm8, op_mov_r32_rm32, op_lea_r32_m,
  op_mov_sreg_rm16, op_xchg_eax_r32, op_cdq, op_mov_eax_mem, op_mov_mem_al, op_mov_mem_eax,
  op_mov_r32_imm32, op_mov_rm8_imm8, op_mov_rm32_imm32,
}
use fake_kernel.Cpu.MulDiv.{op_imul_r32_rm32_imm32, op_imul_r32_rm32_imm8, op_f6_group}
use fake_kernel.Cpu.MulDiv.Dword.{op_f7_group}
use fake_kernel.Cpu.Shift.{
  op_c0_group, op_c1_group, op_d2_group, op_d3_group, op_d0_group, op_d1_group,
}
use fake_kernel.Cpu.Stack.{
  op_push_sreg, op_pop_sreg, op_push_r32, op_pop_r32, op_push_imm32, op_push_imm8, op_ret_imm16,
  op_ret, op_leave, op_call_rel32, op_ff_group,
}
use fake_kernel.Cpu.Strings.{op_movsb, op_movsd, op_cmpsb, op_stosb, op_stosd, op_scasb}
use fake_kernel.Cpu.Sub.{
  op_sub_rm32_r32, op_sub_r32_rm32, op_sub_eax_imm32, op_cmp_rm8_r8, op_cmp_rm32_r32, op_cmp_r8_rm8,
  op_cmp_r32_rm32, op_cmp_al_imm8, op_cmp_eax_imm32, op_inc_r32, op_dec_r32,
}
use fake_kernel.Cpu.System.{op_unimplemented, op_nop, op_cli, op_sti, op_cld, op_hlt, op_int}
use fake_kernel.Cpu.X87.{op_d9}
use fake_kernel.Cpu.X87.Integer.{op_db, op_dd, op_df}
use fake_kernel.Platform.{Platform, calls_of}
use fake_kernel.Cpu.Sse.Move.{repne_0f, rep_0f}
use fake_kernel.Cpu.Strings.{rep_case, repne_scasb, movsb_once, movsd_once, stosb_once, stosd_once}
use fake_kernel.Cpu.Table.{Handler, Entry, slot, slots, fill_all}
use fake_kernel.Cpu.Table0f.{opcode_table_0f}

-- 0x0F
unfoldable pub op_prefix_0f : Handler
op_prefix_0f op = do op2 ← fetch8; opcode_table_0f op2 op2

-- 0xF2
unfoldable pub op_repne : Handler
op_repne op = do
  next ← fetch8
  if next == 0xae then repne_scasb else if next == 0x0f then repne_0f else stop

-- 0xF3
unfoldable pub op_rep : Handler
op_rep op = do
  next ← fetch8
  if next == 0x0f
      then rep_0f
      else if next == 0xa4
      then rep_case movsb_once
      else if next == 0xa5
      then rep_case movsd_once
      else if next == 0xaa
      then rep_case stosb_once
      else if next == 0xab
      then rep_case stosd_once
      else stop

-- The prefixes, over `execute_opcode`.
module _ (exec : Handler) where
  -- 0x26, 0x2E, 0x36, 0x3E, 0x64
  unfoldable pub op_prefix_cs : Handler
  op_prefix_cs op = do next ← fetch8; exec next; cycles 1

  -- 0x65
  unfoldable pub op_prefix_gs : Handler
  op_prefix_gs op = do
    base ← gets (λ s. s.gs_base)
    assign (set_seg_override base)
    next ← fetch8
    exec next
    assign (set_seg_override 0)
    cycles 1

  -- 0x66
  unfoldable pub op_prefix_66 : Handler
  op_prefix_66 op = do
    assign (set_operand_size_16 true)
    next ← fetch8
    exec next
    assign (set_operand_size_16 false)

  -- 0x67
  unfoldable pub op_prefix_67 : Handler
  op_prefix_67 op = do next ← fetch8; exec next; cycles 1

  -- 0xF0
  unfoldable pub op_prefix_lock : Handler
  op_prefix_lock op = do next ← fetch8; exec next; cycles 1

unfoldable pub entries : Platform → Handler → List Entry
entries plat exec =
    slot 0x0f op_prefix_0f
    ∷ slot 0x00 op_add_rm8_r8
    ∷ slot 0x01 op_add_rm32_r32
    ∷ slot 0x02 op_add_r8_rm8
    ∷ slot 0x03 op_add_r32_rm32
    ∷ slot 0x05 op_add_eax_imm32
    ∷ slot 0x06 op_push_sreg
    ∷ slot 0x07 op_pop_sreg
    ∷ slot 0x09 op_or_rm32_r32
    ∷ slot 0x10 op_adc_rm8_r8
    ∷ slot 0x12 op_adc_r8_rm8
    ∷ slot 0x0b op_or_r32_rm32
    ∷ slot 0x0c op_or_al_imm8
    ∷ slot 0x0d op_or_eax_imm32
    ∷ slot 0x11 op_adc_rm32_r32
    ∷ slot 0x13 op_adc_r32_rm32
    ∷ slot 0x16 op_push_sreg
    ∷ slot 0x17 op_pop_sreg
    ∷ slot 0x19 op_sbb_rm32_r32
    ∷ slot 0x1b op_sbb_r32_rm32
    ∷ slot 0x1e op_push_sreg
    ∷ slot 0x1f op_pop_sreg
    ∷ slot 0x20 op_and_rm8_r8
    ∷ slot 0x21 op_and_rm32_r32
    ∷ slot 0x22 op_and_r8_rm8
    ∷ slot 0x23 op_and_r32_rm32
    ∷ slot 0x24 op_and_al_imm8
    ∷ slot 0x25 op_and_eax_imm32
    ∷ slot 0x26 (op_prefix_cs exec)
    ∷ slot 0x29 op_sub_rm32_r32
    ∷ slot 0x2b op_sub_r32_rm32
    ∷ slot 0x2d op_sub_eax_imm32
    ∷ slot 0x2e (op_prefix_cs exec)
    ∷ slot 0x30 op_xor_rm8_r8
    ∷ slot 0x31 op_xor_rm32_r32
    ∷ slot 0x33 op_xor_r32_rm32
    ∷ slot 0x34 op_xor_al_imm8
    ∷ slot 0x36 (op_prefix_cs exec)
    ∷ slot 0x38 op_cmp_rm8_r8
    ∷ slot 0x39 op_cmp_rm32_r32
    ∷ slot 0x3a op_cmp_r8_rm8
    ∷ slot 0x3b op_cmp_r32_rm32
    ∷ slot 0x3c op_cmp_al_imm8
    ∷ slot 0x3d op_cmp_eax_imm32
    ∷ slot 0x3e (op_prefix_cs exec)
    ∷ slots 0x40 0x47 op_inc_r32
    ∷ slots 0x48 0x4f op_dec_r32
    ∷ slots 0x50 0x57 op_push_r32
    ∷ slots 0x58 0x5f op_pop_r32
    ∷ slot 0x64 (op_prefix_cs exec)
    ∷ slot 0x65 (op_prefix_gs exec)
    ∷ slot 0x66 (op_prefix_66 exec)
    ∷ slot 0x67 (op_prefix_67 exec)
    ∷ slot 0x68 op_push_imm32
    ∷ slot 0x69 op_imul_r32_rm32_imm32
    ∷ slot 0x6a op_push_imm8
    ∷ slot 0x6b op_imul_r32_rm32_imm8
    ∷ slots 0x70 0x7f op_jcc_short
    ∷ slot 0x80 op_80_group
    ∷ slot 0x81 op_81
    ∷ slot 0x83 op_83
    ∷ slot 0x84 op_test_rm8_r8
    ∷ slot 0x85 op_test_rm32_r32
    ∷ slot 0x87 op_xchg_rm32_r32
    ∷ slot 0x88 op_mov_rm8_r8
    ∷ slot 0x89 op_mov_rm32_r32
    ∷ slot 0x8a op_mov_r8_rm8
    ∷ slot 0x8b op_mov_r32_rm32
    ∷ slot 0x8d op_lea_r32_m
    ∷ slot 0x8e op_mov_sreg_rm16
    ∷ slot 0x90 op_nop
    ∷ slots 0x91 0x97 op_xchg_eax_r32
    ∷ slot 0x99 op_cdq
    ∷ slot 0xa1 op_mov_eax_mem
    ∷ slot 0xa2 op_mov_mem_al
    ∷ slot 0xa3 op_mov_mem_eax
    ∷ slot 0xa4 op_movsb
    ∷ slot 0xa5 op_movsd
    ∷ slot 0xa6 op_cmpsb
    ∷ slot 0xa8 op_test_al_imm8
    ∷ slot 0xa9 op_test_eax_imm32
    ∷ slot 0xaa op_stosb
    ∷ slot 0xab op_stosd
    ∷ slot 0xae op_scasb
    ∷ slots 0xb8 0xbf op_mov_r32_imm32
    ∷ slot 0xc0 op_c0_group
    ∷ slot 0xc1 op_c1_group
    ∷ slot 0xc2 op_ret_imm16
    ∷ slot 0xc3 op_ret
    ∷ slot 0xc6 op_mov_rm8_imm8
    ∷ slot 0xc7 op_mov_rm32_imm32
    ∷ slot 0xc9 op_leave
    ∷ slot 0xcd (op_int (calls_of plat))
    ∷ slot 0xd0 op_d0_group
    ∷ slot 0xd1 op_d1_group
    ∷ slot 0xd2 op_d2_group
    ∷ slot 0xd3 op_d3_group
    ∷ slot 0xd9 (op_d9 plat.floats)
    ∷ slot 0xdb (op_db plat.floats)
    ∷ slot 0xdd (op_dd plat.floats)
    ∷ slot 0xdf (op_df plat.floats)
    ∷ slot 0xe3 op_jecxz
    ∷ slot 0xe8 op_call_rel32
    ∷ slot 0xe9 op_jmp_near
    ∷ slot 0xeb op_jmp_short
    ∷ slot 0xf0 (op_prefix_lock exec)
    ∷ slot 0xf2 op_repne
    ∷ slot 0xf3 op_rep
    ∷ slot 0xf4 op_hlt
    ∷ slot 0xf6 op_f6_group
    ∷ slot 0xf7 op_f7_group
    ∷ slot 0xfa op_cli
    ∷ slot 0xfb op_sti
    ∷ slot 0xfc op_cld
    ∷ slot 0xff op_ff_group
    ∷ []

unfoldable pub opcode_table : Platform → Handler → ℕ → Handler
unfolding fill_all
opcode_table plat exec = fill_all (entries plat exec) (λ _. op_unimplemented)

-- Fuel bounds how many prefixes may stand in a row.
unfoldable pub execute_opcode : Platform → ℕ → Handler
execute_opcode plat zero op = out_of_fuel
execute_opcode plat (suc fuel) op = opcode_table plat (execute_opcode plat fuel) op op
