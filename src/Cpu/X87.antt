-- ===== src/Cpu/X87.antt =====
-- The x87 escape 0xD9, and the stack of registers (src/cpu/ops.c), over an abstract arithmetic.
pub mod Integer
use fake_kernel.Prelude.{ℕ, ◌+◌, ◌%◌, Bool, if◌then◌else◌, ◌==◌, ◌&&◌, ◌||◌, ◌<<<◌}
use fake_kernel.Machine.{reg_eax, set_fpu, set_fpu_top}
use fake_kernel.Prog.{Prog, gets, assign, ◌>>=◌, ◌>>◌}
use fake_kernel.Cpu.{cycles, stop, read16, read32, store16, store32}
use fake_kernel.Cpu.Decode.{ModRm, parse_modrm, resolve_rm_addr, put_reg16, read64, store64}

-- The arithmetic of `double`, `float` and the C library on bit patterns, which the handlers use
-- and this development does not define.
pub record FloatOps : Type 0 where
  pub neg : ℕ → ℕ
  pub is_negative : ℕ → Bool
  pub mul : ℕ → ℕ → ℕ
  pub sub : ℕ → ℕ → ℕ
  pub pow : ℕ → ℕ → ℕ
  pub log2 : ℕ → ℕ
  pub fmod : ℕ → ℕ → ℕ
  pub sqrt : ℕ → ℕ
  pub round : ℕ → ℕ
  pub of_float : ℕ → ℕ
  pub to_float : ℕ → ℕ
  pub of_int16 : ℕ → ℕ
  pub of_int32 : ℕ → ℕ
  pub of_int64 : ℕ → ℕ
  pub to_int16 : ℕ → ℕ
  pub to_int32 : ℕ → ℕ
  pub to_int64 : ℕ → ℕ

-- The literals of the source as bit patterns.
abbrev pub f_0 : ℕ
f_0 = 0

abbrev f_1 : ℕ
f_1 = 0x3ff0000000000000

abbrev f_2 : ℕ
f_2 = 0x4000000000000000

abbrev f_l2t : ℕ
f_l2t = 0x400a934f0979a371

abbrev f_l2e : ℕ
f_l2e = 0x3ff71547652b82fe

abbrev f_pi : ℕ
f_pi = 0x400921fb54442d18

abbrev f_lg2 : ℕ
f_lg2 = 0x3fd34413509f79ff

abbrev f_ln2 : ℕ
f_ln2 = 0x3fe62e42fefa39ef

-- `ST(i)`, with the top of the stack at `fpu_top`.
abbrev pub get_st : ℕ → Prog ℕ
get_st i = gets (λ s. s.fpu_stack ((s.fpu_top + i) % 8))

abbrev pub put_st : ℕ → ℕ → Prog (Unit {0})
put_st i v = do top ← gets (λ s. s.fpu_top); assign (set_fpu ((top + i) % 8) v)

-- `fpu_top = (fpu_top - 1) & 7` and `(fpu_top + 1) & 7`.
abbrev lower_top : Prog (Unit {0})
lower_top = do top ← gets (λ s. s.fpu_top); assign (set_fpu_top (top + 7))

abbrev pub raise_top : Prog (Unit {0})
raise_top = do top ← gets (λ s. s.fpu_top); assign (set_fpu_top (top + 1))

unfoldable pub push_st : ℕ → Prog (Unit {0})
push_st v = do lower_top; put_st 0 v

module _ (fl : FloatOps) where
  open fl use {
    neg, is_negative, mul, sub, pow, log2, fmod, sqrt, round, of_float, to_float, of_int16,
    of_int32, of_int64, to_int16, to_int32, to_int64,
  }

  -- 0xD9 with `mod` 3 and `reg` 4: FCHS, FABS, FTST, FXAM.
  unfoldable pub d9_unary : ℕ → Prog (Unit {0})
  d9_unary rm = do
    v ← get_st 0
    if rm == 0
        then (do put_st 0 (neg v); cycles 3)
        else if rm == 1
        then (do put_st 0 (if is_negative v then neg v else v); cycles 3)
        else do cycles 3; cycles 3

  -- `reg` 5: the constants.
  unfoldable pub d9_constant : ℕ → Prog (Unit {0})
  d9_constant rm =
      let load = λ (v : ℕ). (do push_st v; cycles 3) in
      if rm == 0
      then load f_1
      else if rm == 1
      then load f_l2t
      else if rm == 2
      then load f_l2e
      else if rm == 3
      then load f_pi
      else if rm == 4
      then load f_lg2
      else if rm == 5
      then load f_ln2
      else if rm == 6
      then load f_0
      else do cycles 3; cycles 3

  -- `reg` 6: F2XM1, FYL2X, FXTRACT, FINCSTP.
  unfoldable pub d9_log : ℕ → Prog (Unit {0})
  d9_log rm = do
    v ← get_st 0
    below ← get_st 1
    if rm == 0
        then (do put_st 0 (sub (pow f_2 v) f_1); cycles 3)
        else if rm == 1
        then (do put_st 1 (mul below (log2 v)); raise_top; cycles 3)
        else if rm == 7
        then (do raise_top; cycles 3)
        else do cycles 3; cycles 3

  -- `reg` 7: FPREM, FSQRT, FSCALE, FRNDINT.
  unfoldable pub d9_round : ℕ → Prog (Unit {0})
  d9_round rm = do
    v ← get_st 0
    below ← get_st 1
    if rm == 0
        then (do put_st 0 (fmod v below); cycles 3)
        else if rm == 4
        then (do put_st 0 (sqrt v); cycles 3)
        else if rm == 5
        then (do put_st 0 (mul v (pow f_2 (of_int32 (to_int32 below)))); cycles 3)
        else if rm == 6
        then (do put_st 0 (round v); cycles 3)
        else do cycles 3; cycles 3

  unfoldable pub d9_register : ModRm → Prog (Unit {0})
  d9_register mrm =
      let fld = (do lower_top; v ← get_st (1 + mrm.rm); put_st 0 v; cycles 3) in
      let fxch = (do
        v ← get_st 0
        other ← get_st mrm.rm
        put_st 0 other
        put_st mrm.rm v
        cycles 3) in
      if mrm.reg == 0
      then fld
      else if mrm.reg == 1
      then fxch
      else if mrm.reg == 4
      then d9_unary mrm.rm
      else if mrm.reg == 5
      then d9_constant mrm.rm
      else if mrm.reg == 6
      then d9_log mrm.rm
      else if mrm.reg == 7
      then d9_round mrm.rm
      else stop

  unfoldable pub d9_memory : ModRm → Prog (Unit {0})
  d9_memory mrm =
      let store = (do addr ← resolve_rm_addr mrm; v ← get_st 0; store32 addr (to_float v)) in
      if mrm.reg == 0
      then (do addr ← resolve_rm_addr mrm; bits ← read32 addr; push_st (of_float bits); cycles 3)
      else if mrm.reg == 2
      then (do store; cycles 3)
      else if mrm.reg == 3
      then (do store; raise_top; cycles 3)
      else if mrm.reg == 4 || mrm.reg == 6
      then cycles 10
      else if mrm.reg == 5
      then cycles 3
      else if mrm.reg == 7
      then (do addr ← resolve_rm_addr mrm; store16 addr 0x037f; cycles 3)
      else stop

  -- 0xD9
  unfoldable pub op_d9 : ℕ → Prog (Unit {0})
  op_d9 op = do mrm ← parse_modrm; if mrm.mode == 3 then d9_register mrm else d9_memory mrm
