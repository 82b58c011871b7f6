-- ===== src/Cpu/Total/Media.antt =====
-- Fuel in the SSE, MMX and x87 handlers (src/cpu/ops.c).
use fake_kernel.Prelude.{ℕ}
use fake_kernel.Prog.Total.{NoFuel}
use fake_kernel.Cpu.Total.Pieces.{pieces}
use fake_kernel.Cpu.X87.{FloatOps}
use fake_kernel.Cpu.Sse.{
  op_movhps_m64_xmm, op_movhps_xmm_m64, op_movups_rm128_xmm, op_movups_xmm_rm128, op_punpckhqdq,
  op_punpcklbw, op_punpckldq, op_punpcklqdq, op_punpcklwd,
}
use fake_kernel.Cpu.Sse.Move.{
  op_movd_mm_rm32, op_movd_rm32_mm, op_movq_mm_rm64, op_movq_rm64_mm, op_movq_rm64_mm2, op_pcmpeqb,
  op_pmovmskb, op_pshufw, op_pxor_mm_mm, rep_0f, repne_0f,
}
use fake_kernel.Cpu.X87.{
  d9_constant, d9_log, d9_memory, d9_register, d9_round, d9_unary, op_d9, push_st,
}
use fake_kernel.Cpu.X87.Integer.{df_memory, op_db, op_dd, op_df}
use fake_kernel.Cpu.X87.{push_st}

pub Sse_total :
    (op : ℕ)
    → NoFuel (op_movups_xmm_rm128 op)
      × NoFuel (op_movups_rm128_xmm op)
      × NoFuel (op_movhps_xmm_m64 op)
      × NoFuel (op_movhps_m64_xmm op)
      × NoFuel (op_punpcklbw op)
      × NoFuel (op_punpcklwd op)
      × NoFuel (op_punpckldq op)
      × NoFuel (op_punpcklqdq op)
      × NoFuel (op_punpckhqdq op)
unfolding op_movhps_m64_xmm op_movhps_xmm_m64 op_movups_rm128_xmm op_movups_xmm_rm128 op_punpckhqdq
    op_punpcklbw op_punpckldq op_punpcklqdq op_punpcklwd
Sse_total op = search pieces depth 60 fits 100000

pub SseMove_total :
    (op : ℕ)
    → NoFuel (op_movd_mm_rm32 op)
      × NoFuel (op_movq_mm_rm64 op)
      × NoFuel (op_pshufw op)
      × NoFuel (op_pcmpeqb op)
      × NoFuel (op_movd_rm32_mm op)
      × NoFuel (op_movq_rm64_mm2 op)
      × NoFuel (op_movq_rm64_mm op)
      × NoFuel (op_pmovmskb op)
      × NoFuel (op_pxor_mm_mm op)
      × NoFuel repne_0f
      × NoFuel rep_0f
unfolding op_movd_mm_rm32 op_movd_rm32_mm op_movq_mm_rm64 op_movq_rm64_mm op_movq_rm64_mm2
    op_pcmpeqb op_pmovmskb op_pshufw op_pxor_mm_mm rep_0f repne_0f
SseMove_total op = search pieces depth 60 fits 100000

pub X87_total : (fl : FloatOps) (op : ℕ) → NoFuel (op_d9 fl op)
unfolding d9_constant d9_log d9_memory d9_register d9_round d9_unary op_d9 push_st
X87_total fl op = search pieces depth 60 fits 100000

pub X87Integer_total :
    (fl : FloatOps) (op : ℕ) → NoFuel (op_db fl op) × NoFuel (op_dd fl op) × NoFuel (op_df fl op)
unfolding df_memory op_db op_dd op_df push_st
X87Integer_total fl op = search pieces depth 60 fits 100000
