-- ===== src/Cpu/Table0f.antt =====
-- `opcode_table_0f`, the handlers behind the prefix 0x0F (src/cpu/ops.c).
use fake_kernel.Prelude.{ℕ, List, [], ◌∷◌}
use fake_kernel.Cpu.Branch.{op_cmovcc, op_jcc_near, op_setcc}
use fake_kernel.Cpu.Move.{
  op_cmpxchg_rm32_r32, op_movzx_r32_rm8, op_movzx_r32_rm16, op_movsx_r32_rm8, op_movsx_r32_rm16,
}
use fake_kernel.Cpu.MulDiv.{op_imul_r32_rm32}
use fake_kernel.Cpu.Shift.{op_shld_rm32_r32_imm8}
use fake_kernel.Cpu.Sse.{
  op_movups_xmm_rm128, op_movups_rm128_xmm, op_movhps_xmm_m64, op_movhps_m64_xmm, op_punpcklbw,
  op_punpcklwd, op_punpckldq, op_punpcklqdq, op_punpckhqdq,
}
use fake_kernel.Cpu.Sse.Move.{
  op_movd_mm_rm32, op_movq_mm_rm64, op_pshufw, op_pcmpeqb, op_movd_rm32_mm, op_movq_rm64_mm2,
  op_movq_rm64_mm, op_pmovmskb, op_pxor_mm_mm,
}
use fake_kernel.Cpu.System.{op_0f_unimplemented, op_cpuid}
use fake_kernel.Cpu.Table.{Handler, Entry, slot, slots, fill_all}

unfoldable pub entries_0f : List Entry
entries_0f =
    slot 0x10 op_movups_xmm_rm128
    ∷ slot 0x11 op_movups_rm128_xmm
    ∷ slot 0x16 op_movhps_xmm_m64
    ∷ slot 0x17 op_movhps_m64_xmm
    ∷ slots 0x40 0x4f op_cmovcc
    ∷ slot 0x60 op_punpcklbw
    ∷ slot 0x61 op_punpcklwd
    ∷ slot 0x62 op_punpckldq
    ∷ slot 0x6c op_punpcklqdq
    ∷ slot 0x6d op_punpckhqdq
    ∷ slot 0x6e op_movd_mm_rm32
    ∷ slot 0x6f op_movq_mm_rm64
    ∷ slot 0x70 op_pshufw
    ∷ slot 0x74 op_pcmpeqb
    ∷ slot 0x7e op_movd_rm32_mm
    ∷ slot 0x7f op_movq_rm64_mm2
    ∷ slots 0x80 0x8f op_jcc_near
    ∷ slots 0x90 0x9f op_setcc
    ∷ slot 0xa2 op_cpuid
    ∷ slot 0xa4 op_shld_rm32_r32_imm8
    ∷ slot 0xaf op_imul_r32_rm32
    ∷ slot 0xb1 op_cmpxchg_rm32_r32
    ∷ slot 0xb6 op_movzx_r32_rm8
    ∷ slot 0xb7 op_movzx_r32_rm16
    ∷ slot 0xbe op_movsx_r32_rm8
    ∷ slot 0xbf op_movsx_r32_rm16
    ∷ slot 0xd6 op_movq_rm64_mm
    ∷ slot 0xd7 op_pmovmskb
    ∷ slot 0xef op_pxor_mm_mm
    ∷ []

unfoldable pub opcode_table_0f : ℕ → Handler
unfolding fill_all
opcode_table_0f = fill_all entries_0f (λ _. op_0f_unimplemented)
