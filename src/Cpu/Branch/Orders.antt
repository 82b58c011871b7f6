-- ===== src/Cpu/Branch/Orders.antt =====
-- CMP followed by a conditional jump, SETcc or CMOVcc, as runs of the machine.
use fake_kernel.Prelude.{ℕ, ◌≡◌, ltb, ◌==◌, sub32, has_bit}
use fake_kernel.Mem.{mem_read32}
use fake_kernel.Mem.Laws.{mem_read32-lt}
use fake_kernel.Machine.{Machine, cf, pf, zf, sf, of, reg_eax, apply, apply_cpu, change_flag}
use fake_kernel.Machine.Valid.{IsMachine}
use fake_kernel.Prog.{Host, run, ◌>>◌}
use fake_kernel.Prog.Valid.{Returns}
use fake_kernel.Cpu.{flag, parity, overflow_sub, set_cf, set_zf, set_sf, set_pf, set_of_sub}
use fake_kernel.Cpu.Flags.{flag-change_flag}
use fake_kernel.Cpu.Sub.{op_cmp_eax_imm32}
use fake_kernel.Cpu.Branch.{condition, test_condition}
use fake_kernel.Cpu.Branch.Compare.{Order, code, Holds, Decides, after_cmp, after_cmp_decides}

-- EFLAGS after the five assignments of a comparison of `a` and `b`.
abbrev flags_of_cmp : ℕ → ℕ → ℕ → ℕ
flags_of_cmp a b e =
    let r = sub32 a b in
    change_flag of (overflow_sub a b r) (
      change_flag pf (parity r)
        (change_flag sf (has_bit r 31) (change_flag zf (r == 0) (change_flag cf (ltb a b) e))))

condition_of_flags :
    (o : Order) (a b e : ℕ)
    → (let f = flags_of_cmp a b e in
        condition (code o) (flag cf f) (flag pf f) (flag zf f) (flag sf f) (flag of f))
      ≡ after_cmp (code o) a b (parity (sub32 a b))
condition_of_flags o a b e = simp flag-change_flag

-- CMP EAX with an immediate, and then any condition code that names an order: the code is taken
-- exactly when EAX and the immediate are in that order, as unsigned numbers for the codes of
-- B, AE, E, NE, BE and A and as signed numbers for those of L, GE, LE and G.
pub cmp-test_condition :
    (o : Order) (host : Host) (size : ℕ) (s : Machine)
    → IsMachine size s
    → Returns
        (λ c t. Decides c (Holds o (s.cpu.regs reg_eax) (mem_read32 s.cpu.eip s.mem)))
        (run host (op_cmp_eax_imm32 0x3d >> test_condition (code o)) s)
unfolding run op_cmp_eax_imm32 test_condition apply apply_cpu set_cf set_zf set_sf set_pf set_of_sub
cmp-test_condition o host size s h =
    rw (condition_of_flags o (s.cpu.regs reg_eax) (mem_read32 s.cpu.eip s.mem) s.cpu.eflags) (
      after_cmp_decides o (s.cpu.regs reg_eax) (mem_read32 s.cpu.eip s.mem)
        (parity (sub32 (s.cpu.regs reg_eax) (mem_read32 s.cpu.eip s.mem))) (h.cpu.regs_fit reg_eax)
        (mem_read32-lt s.cpu.eip s.mem h.bytes))
