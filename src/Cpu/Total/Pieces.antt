-- ===== src/Cpu/Total/Pieces.antt =====
-- Fuel in the pieces that several handlers share (src/cpu/ops.c).
use fake_kernel.Prelude.{ℕ, Option, none, some, Bool, true, false}
use fake_kernel.Prog.{Prog, ◌>>=◌}
use fake_kernel.Prog.Total.{NoFuel, at_bind}
use fake_kernel.Cpu.Total.{parts}
use fake_kernel.Cpu.Decode.{ModRm}
use fake_kernel.Cpu.Group.{group_80, group_16, finish_16, finish_32, group_81, group_83}
use fake_kernel.Cpu.MulDiv.Dword.{
  test_rm32_imm32, neg_rm32, mul_rm32, imul_rm32, div_rm32, idiv_rm32,
}
use fake_kernel.Cpu.Branch.{test_condition, op_cmovcc, op_jcc_near, op_setcc, op_jcc_short}
use fake_kernel.Cpu.Strings.{compare_bytes}
use fake_kernel.Cpu.Sse.{read_mm_src, read_xmm_low, write_mm_dst}

pub finish_16-NoFuel : (m : ModRm) (v : ℕ) → NoFuel (finish_16 m v)
unfolding finish_16
finish_16-NoFuel m v = search parts depth 60

pub finish_32-NoFuel : (v : ℕ) → NoFuel (finish_32 v)
unfolding finish_32
finish_32-NoFuel v = search parts depth 60

pub group_80-NoFuel :
    (reg a imm : ℕ) (finish : ℕ → Prog (Unit {0}))
    → ((v : ℕ) → NoFuel (finish v))
    → NoFuel (group_80 reg a imm finish)
unfolding group_80
group_80-NoFuel reg a imm finish h = search (parts, h) depth 60 fits 20000

pub group_16-NoFuel :
    (reg a imm : ℕ) (finish : ℕ → Prog (Unit {0}))
    → ((v : ℕ) → NoFuel (finish v))
    → NoFuel (group_16 reg a imm finish)
unfolding group_16
group_16-NoFuel reg a imm finish h = search (parts, h) depth 60 fits 20000

pub group_81-NoFuel : (m : ModRm) (a imm : ℕ) → NoFuel (group_81 m a imm)
unfolding group_81
group_81-NoFuel m a imm = search (parts, finish_32-NoFuel) depth 60 fits 20000

pub group_83-NoFuel : (m : ModRm) (a imm : ℕ) → NoFuel (group_83 m a imm)
unfolding group_83
group_83-NoFuel m a imm = search (parts, finish_32-NoFuel, group_81-NoFuel) depth 60 fits 20000

pub test_rm32_imm32-NoFuel : (m : ModRm) → NoFuel (test_rm32_imm32 m)
unfolding test_rm32_imm32
test_rm32_imm32-NoFuel m = search parts depth 60

pub neg_rm32-NoFuel : (m : ModRm) → NoFuel (neg_rm32 m)
unfolding neg_rm32
neg_rm32-NoFuel m = search parts depth 60

pub mul_rm32-NoFuel : (m : ModRm) → NoFuel (mul_rm32 m)
unfolding mul_rm32
mul_rm32-NoFuel m = search parts depth 60

pub imul_rm32-NoFuel : (m : ModRm) → NoFuel (imul_rm32 m)
unfolding imul_rm32
imul_rm32-NoFuel m = search parts depth 60

pub div_rm32-NoFuel : (m : ModRm) → NoFuel (div_rm32 m)
unfolding div_rm32
div_rm32-NoFuel m = search parts depth 60

pub idiv_rm32-NoFuel : (m : ModRm) → NoFuel (idiv_rm32 m)
unfolding idiv_rm32
idiv_rm32-NoFuel m = search parts depth 60

pub compare_bytes-NoFuel : (a b : ℕ) → NoFuel (compare_bytes a b)
unfolding compare_bytes
compare_bytes-NoFuel a b = search parts depth 60

pub read_mm_src-NoFuel : (m : ModRm) → NoFuel (read_mm_src m)
unfolding read_mm_src
read_mm_src-NoFuel m = search parts depth 60

pub read_xmm_low-NoFuel : (m : ModRm) → NoFuel (read_xmm_low m)
unfolding read_xmm_low
read_xmm_low-NoFuel m = search parts depth 60

pub write_mm_dst-NoFuel : (m : ModRm) (v : ℕ) → NoFuel (write_mm_dst m v)
unfolding write_mm_dst
write_mm_dst-NoFuel m v = search parts depth 60

pub test_condition-NoFuel : (code : ℕ) → NoFuel (test_condition code)
unfolding test_condition
test_condition-NoFuel code = search parts depth 60

-- A choice by a condition has three cases.
at_condition :
    (code : ℕ) (k : Option Bool → Prog (Unit {0}))
    → NoFuel (k none)
    → NoFuel (k (some true))
    → NoFuel (k (some false))
    → NoFuel (test_condition code >>= k)
at_condition code k other taken not_taken =
    at_bind (test_condition code) k (test_condition-NoFuel code) cases
  where
    cases : (o : Option Bool) → NoFuel (k o)
    cases none = other
    cases (some true) = taken
    cases (some false) = not_taken

pub Condition_total :
    (op : ℕ)
    → NoFuel (op_cmovcc op)
      × NoFuel (op_jcc_near op)
      × NoFuel (op_setcc op)
      × NoFuel (op_jcc_short op)
unfolding op_cmovcc op_jcc_near op_setcc op_jcc_short
Condition_total op = (
  search (at_condition, parts) depth 60,
  search (at_condition, parts) depth 60,
  search (at_condition, parts) depth 60,
  search (at_condition, parts) depth 60,
)

pub ruleset pieces = (
  parts, finish_16-NoFuel, finish_32-NoFuel, group_80-NoFuel, group_16-NoFuel, group_81-NoFuel,
  group_83-NoFuel, test_rm32_imm32-NoFuel, neg_rm32-NoFuel, mul_rm32-NoFuel, imul_rm32-NoFuel,
  div_rm32-NoFuel, idiv_rm32-NoFuel, compare_bytes-NoFuel, read_mm_src-NoFuel, read_xmm_low-NoFuel,
  write_mm_dst-NoFuel, test_condition-NoFuel,
)
