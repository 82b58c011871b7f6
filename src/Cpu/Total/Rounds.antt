-- ===== src/Cpu/Total/Rounds.antt =====
-- Fuel in `execute_opcode` (src/cpu/ops.c) and in one round of `emulate` (src/cpu/cpu.c).
use fake_kernel.Prelude.{ℕ, zero, suc, ◌+◌, ◌^◌, ◌<◌, arith}
use fake_kernel.Mem.{mem_read8}
use fake_kernel.Machine.{Machine, apply, apply_cpu}
use fake_kernel.Machine.Valid.{IsMachine}
use fake_kernel.Prog.{Host, run}
use fake_kernel.Prog.Finishes.{Finishes, NoFuel-Finishes}
use fake_kernel.Platform.{Platform}
use fake_kernel.Cpu.Table.{Handler, fill, fill_all}
use fake_kernel.Cpu.Execute.{entries, opcode_table, execute_opcode}
use fake_kernel.Cpu.Emulate.{emulate_once}
use fake_kernel.Cpu.Total.Table0f.{OfEntries, ◌&◌, ◌&&&◌, no_entries, OfEntries-fill_all}
use fake_kernel.Cpu.Total.Prefixes.{
  Serves, total, op_prefix_0f-Serves, op_rep-Serves, op_repne-Serves, op_int-Serves,
  op_prefix_cs-Serves, op_prefix_gs-Serves, op_prefix_66-Serves, op_prefix_67-Serves,
  op_prefix_lock-Serves,
}
use fake_kernel.Cpu.Total.Arithmetic.{
  Add_total, Group_total, LogicXor_total, Logic_total, MulDivDword_total, MulDiv_total, Shift_total,
  Sub_total,
}
use fake_kernel.Cpu.Total.Data.{Branch_total, Move_total, Stack_total, Strings_total, System_total}
use fake_kernel.Cpu.Total.Media.{X87Integer_total, X87_total}
use fake_kernel.Cpu.Total.Pieces.{Condition_total}

module _ (plat : Platform) (host : Host) (n : ℕ) (exec : Handler) (serves : Serves host n exec)
    (zero_finishes : (s : Machine) → Finishes (run host (exec 0) s)) where
  entries-Serve : OfEntries (Serves host (suc n)) (entries plat exec)
  unfolding entries
  entries-Serve =
      (op_prefix_0f-Serves host (suc n))
      & (total host (suc n) (λ op. (Add_total op).0))
      & (total host (suc n) (λ op. (Add_total op).1))
      & (total host (suc n) (λ op. (Add_total op).2))
      & (total host (suc n) (λ op. (Add_total op).3))
      & (total host (suc n) (λ op. (Add_total op).4))
      & (total host (suc n) (λ op. (Stack_total op).0))
      & (total host (suc n) (λ op. (Stack_total op).1))
      & (total host (suc n) (λ op. (Logic_total op).0))
      & (total host (suc n) (λ op. (Add_total op).5))
      & (total host (suc n) (λ op. (Add_total op).6))
      & (total host (suc n) (λ op. (Logic_total op).1))
      & (total host (suc n) (λ op. (Logic_total op).2))
      & (total host (suc n) (λ op. (Logic_total op).3))
      & (total host (suc n) (λ op. (Add_total op).7))
      & (total host (suc n) (λ op. (Add_total op).8))
      & (total host (suc n) (λ op. (Stack_total op).0))
      & (total host (suc n) (λ op. (Stack_total op).1))
      & (total host (suc n) (λ op. (Add_total op).9))
      & (total host (suc n) (λ op. (Add_total op).10))
      & (total host (suc n) (λ op. (Stack_total op).0))
      & (total host (suc n) (λ op. (Stack_total op).1))
      & (total host (suc n) (λ op. (Logic_total op).4))
      & (total host (suc n) (λ op. (Logic_total op).5))
      & (total host (suc n) (λ op. (Logic_total op).6))
      & (total host (suc n) (λ op. (Logic_total op).7))
      & (total host (suc n) (λ op. (Logic_total op).8))
      & (total host (suc n) (λ op. (Logic_total op).9))
      & (op_prefix_cs-Serves host n exec serves zero_finishes)
      & (total host (suc n) (λ op. (Sub_total op).0))
      & (total host (suc n) (λ op. (Sub_total op).1))
      & (total host (suc n) (λ op. (Sub_total op).2))
      & (op_prefix_cs-Serves host n exec serves zero_finishes)
      & (total host (suc n) (λ op. (LogicXor_total op).0))
      & (total host (suc n) (λ op. (LogicXor_total op).1))
      & (total host (suc n) (λ op. (LogicXor_total op).2))
      & (total host (suc n) (λ op. (LogicXor_total op).3))
      & (op_prefix_cs-Serves host n exec serves zero_finishes)
      & (total host (suc n) (λ op. (Sub_total op).3))
      & (total host (suc n) (λ op. (Sub_total op).4))
      & (total host (suc n) (λ op. (Sub_total op).5))
      & (total host (suc n) (λ op. (Sub_total op).6))
      & (total host (suc n) (λ op. (Sub_total op).7))
      & (total host (suc n) (λ op. (Sub_total op).8))
      & (op_prefix_cs-Serves host n exec serves zero_finishes)
      & (total host (suc n) (λ op. (Sub_total op).9))
      &&& (total host (suc n) (λ op. (Sub_total op).10))
      &&& (total host (suc n) (λ op. (Stack_total op).2))
      &&& (total host (suc n) (λ op. (Stack_total op).3))
      &&& (op_prefix_cs-Serves host n exec serves zero_finishes)
      & (op_prefix_gs-Serves host n exec serves zero_finishes)
      & (op_prefix_66-Serves host n exec serves zero_finishes)
      & (op_prefix_67-Serves host n exec serves zero_finishes)
      & (total host (suc n) (λ op. (Stack_total op).4))
      & (total host (suc n) (λ op. (MulDiv_total op).1))
      & (total host (suc n) (λ op. (Stack_total op).5))
      & (total host (suc n) (λ op. (MulDiv_total op).2))
      & (total host (suc n) (λ op. (Condition_total op).3))
      &&& (total host (suc n) (λ op. (Group_total op).0))
      & (total host (suc n) (λ op. (Group_total op).1))
      & (total host (suc n) (λ op. (Group_total op).2))
      & (total host (suc n) (λ op. (LogicXor_total op).4))
      & (total host (suc n) (λ op. (LogicXor_total op).5))
      & (total host (suc n) (λ op. (Move_total op).5))
      & (total host (suc n) (λ op. (Move_total op).6))
      & (total host (suc n) (λ op. (Move_total op).7))
      & (total host (suc n) (λ op. (Move_total op).8))
      & (total host (suc n) (λ op. (Move_total op).9))
      & (total host (suc n) (λ op. (Move_total op).10))
      & (total host (suc n) (λ op. (Move_total op).11))
      & (total host (suc n) (λ op. (System_total op).2))
      & (total host (suc n) (λ op. (Move_total op).12))
      &&& (total host (suc n) (λ op. (Move_total op).13))
      & (total host (suc n) (λ op. (Move_total op).14))
      & (total host (suc n) (λ op. (Move_total op).15))
      & (total host (suc n) (λ op. (Move_total op).16))
      & (total host (suc n) (λ op. (Strings_total op).0))
      & (total host (suc n) (λ op. (Strings_total op).1))
      & (total host (suc n) (λ op. (Strings_total op).2))
      & (total host (suc n) (λ op. (LogicXor_total op).6))
      & (total host (suc n) (λ op. (LogicXor_total op).7))
      & (total host (suc n) (λ op. (Strings_total op).3))
      & (total host (suc n) (λ op. (Strings_total op).4))
      & (total host (suc n) (λ op. (Strings_total op).5))
      & (total host (suc n) (λ op. (Move_total op).17))
      &&& (total host (suc n) (λ op. (Shift_total op).0))
      & (total host (suc n) (λ op. (Shift_total op).1))
      & (total host (suc n) (λ op. (Stack_total op).6))
      & (total host (suc n) (λ op. (Stack_total op).7))
      & (total host (suc n) (λ op. (Move_total op).18))
      & (total host (suc n) (λ op. (Move_total op).19))
      & (total host (suc n) (λ op. (Stack_total op).8))
      & (op_int-Serves host (suc n) plat.build)
      & (total host (suc n) (λ op. (Shift_total op).4))
      & (total host (suc n) (λ op. (Shift_total op).5))
      & (total host (suc n) (λ op. (Shift_total op).2))
      & (total host (suc n) (λ op. (Shift_total op).3))
      & (total host (suc n) (λ op. X87_total plat.floats op))
      & (total host (suc n) (λ op. (X87Integer_total plat.floats op).0))
      & (total host (suc n) (λ op. (X87Integer_total plat.floats op).1))
      & (total host (suc n) (λ op. (X87Integer_total plat.floats op).2))
      & (total host (suc n) (λ op. (Branch_total op).0))
      & (total host (suc n) (λ op. (Stack_total op).9))
      & (total host (suc n) (λ op. (Branch_total op).1))
      & (total host (suc n) (λ op. (Branch_total op).2))
      & (op_prefix_lock-Serves host n exec serves zero_finishes)
      & (op_repne-Serves host (suc n))
      & (op_rep-Serves host (suc n))
      & (total host (suc n) (λ op. (System_total op).6))
      & (total host (suc n) (λ op. (MulDiv_total op).3))
      & (total host (suc n) (λ op. MulDivDword_total op))
      & (total host (suc n) (λ op. (System_total op).3))
      & (total host (suc n) (λ op. (System_total op).4))
      & (total host (suc n) (λ op. (System_total op).5))
      & (total host (suc n) (λ op. (Stack_total op).10))
      & no_entries

  opcode_table-Serves : (op : ℕ) → Serves host (suc n) (opcode_table plat exec op)
  unfolding opcode_table
  opcode_table-Serves =
      OfEntries-fill_all (Serves host (suc n)) (entries plat exec) _ entries-Serve
        (λ _. total host (suc n) (λ op. (System_total op).0))

-- Opcode 0, as read beyond the end of memory, is an addition.
execute_zero-Finishes :
    (plat : Platform) (host : Host) (n : ℕ) (s : Machine)
    → Finishes (run host (execute_opcode plat (suc n) 0) s)
unfolding execute_opcode opcode_table entries fill_all fill
execute_zero-Finishes plat host n s = NoFuel-Finishes host _ s (Add_total 0).0

execute_opcode-Serves :
    (plat : Platform) (host : Host) (fuel : ℕ) → Serves host fuel (execute_opcode plat fuel)
unfolding execute_opcode
execute_opcode-Serves plat host zero op s ready enough = absurd (omega arith)
execute_opcode-Serves plat host (suc zero) op s ready enough = absurd (omega arith)
execute_opcode-Serves plat host (suc (suc n)) op s ready enough =
    opcode_table-Serves plat host (suc n) (execute_opcode plat (suc n))
      (execute_opcode-Serves plat host (suc n)) (execute_zero-Finishes plat host n) op op s ready
      enough

-- One round of the loop always comes to an end: on every well-formed machine whose memory is
-- smaller than the address space, with any instruction, operands, prefixes, repeat counts, system
-- call and host, the fuel for the run of prefixes and for the repeated string instructions is
-- enough.
pub emulate_once-Finishes :
    (plat : Platform) (host : Host) (size : ℕ) (s : Machine)
    → IsMachine size s
    → size < 2 ^ 32
    → Finishes (run host (emulate_once plat) s)
unfolding run emulate_once apply apply_cpu
emulate_once-Finishes plat host size s valid small =
    execute_opcode-Serves plat host (2 ^ 32 + 1) (mem_read8 s.cpu.eip s.mem) _
      (omega (arith, valid.same_size), valid.cpu.regs_fit 1) (omega (arith, valid.same_size))
