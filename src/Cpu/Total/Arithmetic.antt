-- ===== src/Cpu/Total/Arithmetic.antt =====
-- Fuel in the handlers of arithmetic and logic (src/cpu/ops.c).
use fake_kernel.Prelude.{ℕ}
use fake_kernel.Prog.Total.{NoFuel}
use fake_kernel.Cpu.Total.Pieces.{pieces}
use fake_kernel.Cpu.Add.{
  op_adc_r32_rm32, op_adc_r8_rm8, op_adc_rm32_r32, op_adc_rm8_r8, op_add_eax_imm32, op_add_r32_rm32,
  op_add_r8_rm8, op_add_rm32_r32, op_add_rm8_r8, op_sbb_r32_rm32, op_sbb_rm32_r32,
}
use fake_kernel.Cpu.Sub.{
  op_cmp_al_imm8, op_cmp_eax_imm32, op_cmp_r32_rm32, op_cmp_r8_rm8, op_cmp_rm32_r32, op_cmp_rm8_r8,
  op_dec_r32, op_inc_r32, op_sub_eax_imm32, op_sub_r32_rm32, op_sub_rm32_r32,
}
use fake_kernel.Cpu.Logic.{
  op_and_al_imm8, op_and_eax_imm32, op_and_r32_rm32, op_and_r8_rm8, op_and_rm32_r32, op_and_rm8_r8,
  op_or_al_imm8, op_or_eax_imm32, op_or_r32_rm32, op_or_rm32_r32,
}
use fake_kernel.Cpu.Logic.Xor.{
  op_test_al_imm8, op_test_eax_imm32, op_test_rm32_r32, op_test_rm8_r8, op_xor_al_imm8,
  op_xor_r32_rm32, op_xor_rm32_r32, op_xor_rm8_r8,
}
use fake_kernel.Cpu.Group.{op_80_group, op_81, op_83}
use fake_kernel.Cpu.Shift.{
  first_out, op_c0_group, op_c1_group, op_d0_group, op_d1_group, op_d2_group, op_d3_group,
  op_shld_rm32_r32_imm8, shift_32, shift_8, shift_back, shift_one, shift_up,
}
use fake_kernel.Cpu.MulDiv.{
  div_rm8, idiv_rm8, imul_rm8, mul_rm8, neg_rm8, not_rm8, op_f6_group, op_imul_r32_rm32,
  op_imul_r32_rm32_imm32, op_imul_r32_rm32_imm8, test_rm8_imm8,
}
use fake_kernel.Cpu.MulDiv.Dword.{op_f7_group}

pub Add_total :
    (op : ℕ)
    → NoFuel (op_add_rm8_r8 op)
      × NoFuel (op_add_rm32_r32 op)
      × NoFuel (op_add_r8_rm8 op)
      × NoFuel (op_add_r32_rm32 op)
      × NoFuel (op_add_eax_imm32 op)
      × NoFuel (op_adc_rm8_r8 op)
      × NoFuel (op_adc_r8_rm8 op)
      × NoFuel (op_adc_rm32_r32 op)
      × NoFuel (op_adc_r32_rm32 op)
      × NoFuel (op_sbb_rm32_r32 op)
      × NoFuel (op_sbb_r32_rm32 op)
unfolding op_adc_r32_rm32 op_adc_r8_rm8 op_adc_rm32_r32 op_adc_rm8_r8 op_add_eax_imm32
    op_add_r32_rm32 op_add_r8_rm8 op_add_rm32_r32 op_add_rm8_r8 op_sbb_r32_rm32 op_sbb_rm32_r32
Add_total op = search pieces depth 60 fits 100000

pub Sub_total :
    (op : ℕ)
    → NoFuel (op_sub_rm32_r32 op)
      × NoFuel (op_sub_r32_rm32 op)
      × NoFuel (op_sub_eax_imm32 op)
      × NoFuel (op_cmp_rm8_r8 op)
      × NoFuel (op_cmp_rm32_r32 op)
      × NoFuel (op_cmp_r8_rm8 op)
      × NoFuel (op_cmp_r32_rm32 op)
      × NoFuel (op_cmp_al_imm8 op)
      × NoFuel (op_cmp_eax_imm32 op)
      × NoFuel (op_inc_r32 op)
      × NoFuel (op_dec_r32 op)
unfolding op_cmp_al_imm8 op_cmp_eax_imm32 op_cmp_r32_rm32 op_cmp_r8_rm8 op_cmp_rm32_r32
    op_cmp_rm8_r8 op_dec_r32 op_inc_r32 op_sub_eax_imm32 op_sub_r32_rm32 op_sub_rm32_r32
Sub_total op = search pieces depth 60 fits 100000

pub Logic_total :
    (op : ℕ)
    → NoFuel (op_or_rm32_r32 op)
      × NoFuel (op_or_r32_rm32 op)
      × NoFuel (op_or_al_imm8 op)
      × NoFuel (op_or_eax_imm32 op)
      × NoFuel (op_and_rm8_r8 op)
      × NoFuel (op_and_rm32_r32 op)
      × NoFuel (op_and_r8_rm8 op)
      × NoFuel (op_and_r32_rm32 op)
      × NoFuel (op_and_al_imm8 op)
      × NoFuel (op_and_eax_imm32 op)
unfolding op_and_al_imm8 op_and_eax_imm32 op_and_r32_rm32 op_and_r8_rm8 op_and_rm32_r32
    op_and_rm8_r8 op_or_al_imm8 op_or_eax_imm32 op_or_r32_rm32 op_or_rm32_r32
Logic_total op = search pieces depth 60 fits 100000

pub LogicXor_total :
    (op : ℕ)
    → NoFuel (op_xor_rm8_r8 op)
      × NoFuel (op_xor_rm32_r32 op)
      × NoFuel (op_xor_r32_rm32 op)
      × NoFuel (op_xor_al_imm8 op)
      × NoFuel (op_test_rm8_r8 op)
      × NoFuel (op_test_rm32_r32 op)
      × NoFuel (op_test_al_imm8 op)
      × NoFuel (op_test_eax_imm32 op)
unfolding op_test_al_imm8 op_test_eax_imm32 op_test_rm32_r32 op_test_rm8_r8 op_xor_al_imm8
    op_xor_r32_rm32 op_xor_rm32_r32 op_xor_rm8_r8
LogicXor_total op = search pieces depth 60 fits 100000

pub Group_total : (op : ℕ) → NoFuel (op_80_group op) × NoFuel (op_81 op) × NoFuel (op_83 op)
unfolding op_80_group op_81 op_83
Group_total op = search pieces depth 60 fits 100000

pub Shift_total :
    (op : ℕ)
    → NoFuel (op_c0_group op)
      × NoFuel (op_c1_group op)
      × NoFuel (op_d2_group op)
      × NoFuel (op_d3_group op)
      × NoFuel (op_d0_group op)
      × NoFuel (op_d1_group op)
      × NoFuel (op_shld_rm32_r32_imm8 op)
unfolding first_out op_c0_group op_c1_group op_d0_group op_d1_group op_d2_group op_d3_group
    op_shld_rm32_r32_imm8 shift_32 shift_8 shift_back shift_one shift_up
Shift_total op = search pieces depth 60 fits 100000

pub MulDiv_total :
    (op : ℕ)
    → NoFuel (op_imul_r32_rm32 op)
      × NoFuel (op_imul_r32_rm32_imm32 op)
      × NoFuel (op_imul_r32_rm32_imm8 op)
      × NoFuel (op_f6_group op)
unfolding div_rm8 idiv_rm8 imul_rm8 mul_rm8 neg_rm8 not_rm8 op_f6_group op_imul_r32_rm32
    op_imul_r32_rm32_imm32 op_imul_r32_rm32_imm8 test_rm8_imm8
MulDiv_total op = search pieces depth 60 fits 100000

pub MulDivDword_total : (op : ℕ) → NoFuel (op_f7_group op)
unfolding op_f7_group
MulDivDword_total op = search pieces depth 60 fits 100000
