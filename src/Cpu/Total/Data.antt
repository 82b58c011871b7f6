-- ===== src/Cpu/Total/Data.antt =====
-- Fuel in the handlers of moves, the stack, branches, single string instructions and the system
-- (src/cpu/ops.c).
use fake_kernel.Prelude.{ℕ}
use fake_kernel.Prog.Total.{NoFuel}
use fake_kernel.Cpu.Total.Pieces.{pieces}
use fake_kernel.Cpu.Move.{
  op_cdq, op_cmpxchg_rm32_r32, op_lea_r32_m, op_mov_eax_mem, op_mov_mem_al, op_mov_mem_eax,
  op_mov_r32_imm32, op_mov_r32_rm32, op_mov_r8_rm8, op_mov_rm32_imm32, op_mov_rm32_r32,
  op_mov_rm8_imm8, op_mov_rm8_r8, op_mov_sreg_rm16, op_movsx_r32_rm16, op_movsx_r32_rm8,
  op_movzx_r32_rm16, op_movzx_r32_rm8, op_xchg_eax_r32, op_xchg_rm32_r32,
}
use fake_kernel.Cpu.Stack.{
  op_call_rel32, op_ff_group, op_leave, op_pop_r32, op_pop_sreg, op_push_imm32, op_push_imm8,
  op_push_r32, op_push_sreg, op_ret, op_ret_imm16,
}
use fake_kernel.Cpu.Branch.{
  op_cmovcc, op_jcc_near, op_jcc_short, op_jecxz, op_jmp_near, op_jmp_short, op_setcc,
}
use fake_kernel.Cpu.Strings.{
  movsb_once, movsd_once, op_cmpsb, op_movsb, op_movsd, op_scasb, op_stosb, op_stosd, rep_case,
  rep_loop, repne_scasb, scasb_loop, stosb_once, stosd_once,
}
use fake_kernel.Cpu.System.{
  op_0f_unimplemented, op_cld, op_cli, op_cpuid, op_hlt, op_int, op_nop, op_sti, op_unimplemented,
}

pub Move_total :
    (op : ℕ)
    → NoFuel (op_cmpxchg_rm32_r32 op)
      × NoFuel (op_movzx_r32_rm8 op)
      × NoFuel (op_movzx_r32_rm16 op)
      × NoFuel (op_movsx_r32_rm8 op)
      × NoFuel (op_movsx_r32_rm16 op)
      × NoFuel (op_xchg_rm32_r32 op)
      × NoFuel (op_mov_rm8_r8 op)
      × NoFuel (op_mov_rm32_r32 op)
      × NoFuel (op_mov_r8_rm8 op)
      × NoFuel (op_mov_r32_rm32 op)
      × NoFuel (op_lea_r32_m op)
      × NoFuel (op_mov_sreg_rm16 op)
      × NoFuel (op_xchg_eax_r32 op)
      × NoFuel (op_cdq op)
      × NoFuel (op_mov_eax_mem op)
      × NoFuel (op_mov_mem_al op)
      × NoFuel (op_mov_mem_eax op)
      × NoFuel (op_mov_r32_imm32 op)
      × NoFuel (op_mov_rm8_imm8 op)
      × NoFuel (op_mov_rm32_imm32 op)
unfolding op_cdq op_cmpxchg_rm32_r32 op_lea_r32_m op_mov_eax_mem op_mov_mem_al op_mov_mem_eax
    op_mov_r32_imm32 op_mov_r32_rm32 op_mov_r8_rm8 op_mov_rm32_imm32 op_mov_rm32_r32 op_mov_rm8_imm8
    op_mov_rm8_r8 op_mov_sreg_rm16 op_movsx_r32_rm16 op_movsx_r32_rm8 op_movzx_r32_rm16
    op_movzx_r32_rm8 op_xchg_eax_r32 op_xchg_rm32_r32
Move_total op = search pieces depth 60 fits 100000

pub Stack_total :
    (op : ℕ)
    → NoFuel (op_push_sreg op)
      × NoFuel (op_pop_sreg op)
      × NoFuel (op_push_r32 op)
      × NoFuel (op_pop_r32 op)
      × NoFuel (op_push_imm32 op)
      × NoFuel (op_push_imm8 op)
      × NoFuel (op_ret_imm16 op)
      × NoFuel (op_ret op)
      × NoFuel (op_leave op)
      × NoFuel (op_call_rel32 op)
      × NoFuel (op_ff_group op)
unfolding op_call_rel32 op_ff_group op_leave op_pop_r32 op_pop_sreg op_push_imm32 op_push_imm8
    op_push_r32 op_push_sreg op_ret op_ret_imm16
Stack_total op = search pieces depth 60 fits 100000

pub Branch_total :
    (op : ℕ) → NoFuel (op_jecxz op) × NoFuel (op_jmp_near op) × NoFuel (op_jmp_short op)
unfolding op_cmovcc op_jcc_near op_jcc_short op_jecxz op_jmp_near op_jmp_short op_setcc
Branch_total op = search pieces depth 60 fits 100000

pub Strings_total :
    (op : ℕ)
    → NoFuel (op_movsb op)
      × NoFuel (op_movsd op)
      × NoFuel (op_cmpsb op)
      × NoFuel (op_stosb op)
      × NoFuel (op_stosd op)
      × NoFuel (op_scasb op)
      × NoFuel movsb_once
      × NoFuel movsd_once
      × NoFuel stosb_once
      × NoFuel stosd_once
unfolding movsb_once movsd_once op_cmpsb op_movsb op_movsd op_scasb op_stosb op_stosd rep_case
    rep_loop repne_scasb scasb_loop stosb_once stosd_once
Strings_total op = search pieces depth 60 fits 100000

pub System_total :
    (op : ℕ)
    → NoFuel (op_unimplemented op)
      × NoFuel (op_0f_unimplemented op)
      × NoFuel (op_nop op)
      × NoFuel (op_cli op)
      × NoFuel (op_sti op)
      × NoFuel (op_cld op)
      × NoFuel (op_hlt op)
      × NoFuel (op_cpuid op)
unfolding op_0f_unimplemented op_cld op_cli op_cpuid op_hlt op_int op_nop op_sti op_unimplemented
System_total op = search pieces depth 60 fits 100000
