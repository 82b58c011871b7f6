-- ===== src/Cpu/System.antt =====
-- NOP, CPUID, INT, HLT and the handlers that only count (src/cpu/ops.c).
use fake_kernel.Prelude.{ℕ, if◌then◌else◌, ◌==◌}
use fake_kernel.Machine.{reg_eax, reg_ecx, reg_edx, reg_ebx}
use fake_kernel.Prog.{Prog, ◌>>=◌, ◌>>◌}
use fake_kernel.Cpu.{get_reg, put_reg, cycles, stop, fetch8}
use fake_kernel.Syscall.{dispatch_syscall}
use fake_kernel.Syscall.Interface.{Backend}

-- A slot of the table that no handler fills.
unfoldable pub op_unimplemented : ℕ → Prog (Unit {0})
op_unimplemented op = stop

unfoldable pub op_0f_unimplemented : ℕ → Prog (Unit {0})
op_0f_unimplemented op = stop

-- 0x90
unfoldable pub op_nop : ℕ → Prog (Unit {0})
op_nop op = cycles 1

-- 0xFA
unfoldable pub op_cli : ℕ → Prog (Unit {0})
op_cli op = cycles 1

-- 0xFB
unfoldable pub op_sti : ℕ → Prog (Unit {0})
op_sti op = cycles 1

-- 0xFC
unfoldable pub op_cld : ℕ → Prog (Unit {0})
op_cld op = cycles 1

-- 0xF4
unfoldable pub op_hlt : ℕ → Prog (Unit {0})
op_hlt op = do stop; cycles 1

abbrev cpuid_regs : ℕ → ℕ → ℕ → ℕ → Prog (Unit {0})
cpuid_regs eax ebx ecx edx = do
  put_reg reg_eax eax
  put_reg reg_ebx ebx
  put_reg reg_ecx ecx
  put_reg reg_edx edx
  cycles 10

-- 0x0F 0xA2
unfoldable pub op_cpuid : ℕ → Prog (Unit {0})
op_cpuid op = do
  leaf ← get_reg reg_eax
  if leaf == 0
      then cpuid_regs 7 0x756e_6547 0x6c65_746e 0x4965_6e69
      else if leaf == 1
      then cpuid_regs 0x0000_0623 0 0 0x0783_fbff
      else if leaf == 0x8000_0000
      then cpuid_regs 0x8000_0001 0 0 0
      else cpuid_regs 0 0 0 0

-- 0xCD
unfoldable pub op_int : Backend → ℕ → Prog (Unit {0})
op_int bk op = do
  vector ← fetch8
  if vector == 0x80 then (do dispatch_syscall bk; cycles 50) else (do stop; cycles 50)
