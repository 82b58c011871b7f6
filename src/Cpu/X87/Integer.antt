-- ===== src/Cpu/X87/Integer.antt =====
-- The x87 opcodes 0xDB, 0xDD and 0xDF (src/cpu/ops.c).
use fake_kernel.Prelude.{ℕ, ◌%◌, if◌then◌else◌, ◌==◌, ◌&&◌, ◌||◌, ◌<<<◌}
use fake_kernel.Machine.{reg_eax}
use fake_kernel.Prog.{Prog, gets, ◌>>=◌, ◌>>◌}
use fake_kernel.Cpu.{cycles, stop, read16, read32, store16, store32}
use fake_kernel.Cpu.Decode.{ModRm, parse_modrm, resolve_rm_addr, put_reg16, read64, store64}
use fake_kernel.Cpu.X87.{f_0, get_st, put_st, raise_top, push_st, FloatOps}

module _ (fl : FloatOps) where
  open fl use {of_int16, of_int32, of_int64, to_int16, to_int32, to_int64}

  -- 0xDB
  unfoldable pub op_db : ℕ → Prog (Unit {0})
  op_db op = do
    mrm ← parse_modrm
    let in_memory = λ (p : Prog (Unit {0})). if mrm.mode == 3 then cycles 3 else do p; cycles 3
    let store = (do addr ← resolve_rm_addr mrm; v ← get_st 0; store32 addr (to_int32 v))
    if mrm.reg == 0
        then in_memory (do addr ← resolve_rm_addr mrm; v ← read32 addr; push_st (of_int32 v))
        else if mrm.reg == 2
        then in_memory store
        else if mrm.reg == 3
        then in_memory (do store; raise_top)
        else if mrm.reg == 4
        then cycles 3
        else if mrm.reg == 5
        then in_memory (push_st f_0)
        else if mrm.reg == 7
        then in_memory raise_top
        else stop

  -- 0xDD
  unfoldable pub op_dd : ℕ → Prog (Unit {0})
  op_dd op = do
    mrm ← parse_modrm
    let in_memory = λ (p : Prog (Unit {0})). if mrm.mode == 3 then cycles 3 else do p; cycles 3
    let store = (do addr ← resolve_rm_addr mrm; v ← get_st 0; store64 addr v)
    if mrm.reg == 0
        then in_memory (do addr ← resolve_rm_addr mrm; bits ← read64 addr; push_st bits)
        else if mrm.reg == 2
        then in_memory store
        else if mrm.reg == 3 && mrm.mode == 3
        then (do v ← get_st 0; put_st mrm.rm v; raise_top; cycles 3)
        else if mrm.reg == 3
        then (do store; raise_top; cycles 3)
        else if mrm.reg == 4 || mrm.reg == 6
        then cycles 10
        else if mrm.reg == 7
        then in_memory (do addr ← resolve_rm_addr mrm; store16 addr 0)
        else stop

  -- 0xDF with a memory operand.
  unfoldable pub df_memory : ModRm → Prog (Unit {0})
  df_memory mrm =
      let store = (do addr ← resolve_rm_addr mrm; v ← get_st 0; store16 addr (to_int16 v)) in
      if mrm.reg == 0
      then (do addr ← resolve_rm_addr mrm; v ← read16 addr; push_st (of_int16 v); cycles 3)
      else if mrm.reg == 2
      then (do store; cycles 3)
      else if mrm.reg == 3
      then (do store; raise_top; cycles 3)
      else if mrm.reg == 5
      then (do addr ← resolve_rm_addr mrm; v ← read64 addr; push_st (of_int64 v); cycles 3)
      else if mrm.reg == 7
      then (do
        addr ← resolve_rm_addr mrm
        v ← get_st 0
        store64 addr (to_int64 v)
        raise_top
        cycles 3)
      else stop

  -- 0xDF
  unfoldable pub op_df : ℕ → Prog (Unit {0})
  op_df op = do
    mrm ← parse_modrm
    top ← gets (λ s. s.fpu_top)
    if mrm.mode == 3
        then (if mrm.reg == 4 then (do put_reg16 reg_eax ((top % 8) <<< 11); cycles 3) else stop)
        else df_memory mrm
