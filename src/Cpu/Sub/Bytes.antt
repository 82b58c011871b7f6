-- ===== src/Cpu/Sub/Bytes.antt =====
-- CMP on bytes, whose result the flags of `set_sf` and `set_of_sub` read at bit 31.
use fake_kernel.Prelude.{ℕ, ◌^◌, ◌<◌, ◌≡◌, refl, arith, false, ltb, ◌==◌, u8, sub8, bit_xor}
use fake_kernel.Prelude.Widths.{bit_xor-lt, bit_and-lt}
use fake_kernel.Mem.{mem_read8}
use fake_kernel.Mem.Laws.{mem_read8-lt}
use fake_kernel.Machine.{Machine, cf, zf, sf, of, reg_eax, apply, apply_cpu}
use fake_kernel.Machine.Valid.{IsMachine}
use fake_kernel.Prog.{Host, run}
use fake_kernel.Prog.Valid.{Returns}
use fake_kernel.Cpu.{flag, overflow_sub, set_cf, set_zf, set_sf, set_pf, set_of_sub}
use fake_kernel.Cpu.Flags.{flag-change_flag}
use fake_kernel.Cpu.Sub.{op_cmp_al_imm8}

overflow_sub-bytes : (a b : ℕ) → a < 2 ^ 8 → b < 2 ^ 8 → overflow_sub a b (sub8 a b) ≡ false
unfolding overflow_sub
overflow_sub-bytes a b ha hb = ground (
  arith,
  bit_xor-lt 8 a b ha hb,
  bit_and-lt 8 (bit_xor a b) (bit_xor a (sub8 a b)) (bit_xor-lt 8 a b ha hb),
)

-- CMP AL with an immediate byte sets CF and ZF as for unsigned bytes, but leaves SF and OF clear
-- whatever the operands, and so never reports a negative difference or a signed overflow.
pub op_cmp_al_imm8_lem :
    (host : Host) (size : ℕ) (s : Machine)
    → IsMachine size s
    → (let a = u8 (s.cpu.regs reg_eax) in
        let b = mem_read8 s.cpu.eip s.mem in
        Returns
          (λ _ t.
            (flag cf t.cpu.eflags ≡ ltb a b)
            × (flag zf t.cpu.eflags ≡ (a == b))
            × (flag sf t.cpu.eflags ≡ false)
            × (flag of t.cpu.eflags ≡ false))
          (run host (op_cmp_al_imm8 0x3c) s))
unfolding run op_cmp_al_imm8 apply apply_cpu set_cf set_zf set_sf set_pf set_of_sub
op_cmp_al_imm8_lem host size s h =
    let a = u8 (s.cpu.regs reg_eax) in
    let b = mem_read8 s.cpu.eip s.mem in
    let small = mem_read8-lt s.cpu.eip s.mem h.bytes in
    let overflow = overflow_sub-bytes a b (omega arith) small in
    simp (flag-change_flag, overflow) (refl, ground arith, ground arith, refl)
