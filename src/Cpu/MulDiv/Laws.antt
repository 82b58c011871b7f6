-- ===== src/Cpu/MulDiv/Laws.antt =====
-- MUL and DIV as exact arithmetic.
use fake_kernel.Prelude.{
  ℕ, ◌+◌, ◌-◌, ◌*◌, ◌/◌, ◌%◌, ◌^◌, ◌<◌, ◌≤◌, ◌≡◌, arith, true, false, leb, ◌==◌, u32, bit_or, ◌<<<◌,
}
use native.Mathlib.Nat.{mul-le-mul, mul-le-mul_right, div-lt_iff_lt-mul, mod-add-div', mod-lt}
use fake_kernel.Prelude.Bits.{bit_or_fields}
use fake_kernel.Machine.{Machine, cf, reg_eax, reg_edx, apply, apply_cpu, set_reg, add_cycles}
use fake_kernel.Machine.Valid.{IsMachine}
use fake_kernel.Prog.{Host, ok, run, run-if_false}
use fake_kernel.Prog.Valid.{Returns}
use fake_kernel.Cpu.{flag, set_cf, cycles}
use fake_kernel.Cpu.Flags.{flag-change_flag}
use fake_kernel.Cpu.Decode.{ModRm, read_rm32}
use fake_kernel.Cpu.MulDiv.Dword.{mul_rm32, div_rm32}

-- The operand of a ModR/M byte that names a register.
abbrev pub IsRegister : ModRm → Type 0
IsRegister m = m.mode ≡ 3

-- MUL of a register leaves the whole 64-bit product in EDX:EAX, with CF set exactly when it does
-- not fit 32 bits.
pub mul_rm32_lem :
    (host : Host) (size : ℕ) (s : Machine) (m : ModRm)
    → IsMachine size s
    → IsRegister m
    → (let product = s.cpu.regs reg_eax * s.cpu.regs m.rm in
        Returns
          (λ _ t.
            (t.cpu.regs reg_edx * 2 ^ 32 + t.cpu.regs reg_eax ≡ product)
            × (flag cf t.cpu.eflags ≡ leb (2 ^ 32) product))
          (run host (mul_rm32 m) s))
unfolding run mul_rm32 read_rm32 apply apply_cpu set_cf
mul_rm32_lem host size s m h r =
    let register : (m.mode == 3) ≡ true = ground arith in
    let product = s.cpu.regs reg_eax * s.cpu.regs m.rm in
    let small : product ≤ (2 ^ 32 - 1) * (2 ^ 32 - 1) =
      mul-le-mul {n₂ = 2 ^ 32 - 1} {m₂ = 2 ^ 32 - 1} (omega (arith, h.cpu.regs_fit reg_eax))
        (omega (arith, h.cpu.regs_fit m.rm)) in
    rw register (omega arith, simp flag-change_flag (ground arith))

div_rm32-run :
    (host : Host) (s : Machine) (m : ModRm)
    → IsRegister m
    → (s.cpu.regs m.rm == 0) ≡ false
    → (let dividend = bit_or (s.cpu.regs reg_edx <<< 32) (s.cpu.regs reg_eax) in
        run host (div_rm32 m) s
        ≡ ok tt (
            apply (add_cycles 20) (
              apply
                (set_reg reg_edx (u32 (dividend % s.cpu.regs m.rm)))
                (apply (set_reg reg_eax (u32 (dividend / s.cpu.regs m.rm))) s))))
unfolding run div_rm32 read_rm32
div_rm32-run host s m r some =
    let register : (m.mode == 3) ≡ true = ground arith in
    rw register (run-if_false host (cycles 20) _ s (s.cpu.regs m.rm == 0) some)

-- DIV by a register that is above EDX, where the quotient fits 32 bits, divides EDX:EAX exactly:
-- EAX becomes the quotient and EDX the remainder, which is below the divisor.
pub div_rm32_lem :
    (host : Host) (size : ℕ) (s : Machine) (m : ModRm)
    → IsMachine size s
    → IsRegister m
    → s.cpu.regs reg_edx < s.cpu.regs m.rm
    → Returns
        (λ _ t.
          (t.cpu.regs reg_eax * s.cpu.regs m.rm + t.cpu.regs reg_edx
            ≡ s.cpu.regs reg_edx * 2 ^ 32 + s.cpu.regs reg_eax)
          × (t.cpu.regs reg_edx < s.cpu.regs m.rm))
        (run host (div_rm32 m) s)
unfolding apply apply_cpu
div_rm32_lem host size s m h r fits =
    let divisor = s.cpu.regs m.rm in
    let dividend = s.cpu.regs reg_edx * 2 ^ 32 + s.cpu.regs reg_eax in
    let joined =
      bit_or_fields 32 (s.cpu.regs reg_edx) (s.cpu.regs reg_eax) (h.cpu.regs_fit reg_eax) in
    let some : (divisor == 0) ≡ false = ground arith in
    let positive : 0 < divisor = omega arith in
    let bounded : (s.cpu.regs reg_edx + 1) * 2 ^ 32 ≤ divisor * 2 ^ 32 =
      mul-le-mul_right (2 ^ 32) (omega arith) in
    let quotient : dividend / divisor < 2 ^ 32 =
      (div-lt_iff_lt-mul positive).1 (omega (arith, bounded, h.cpu.regs_fit reg_eax)) in
    let exact = mod-add-div' dividend divisor in
    let rest = mod-lt dividend positive in
    let whole : u32 (dividend / divisor) ≡ dividend / divisor = omega arith in
    let part : u32 (dividend % divisor) ≡ dividend % divisor = omega (arith, h.cpu.regs_fit m.rm) in
    rw (div_rm32-run host s m r some, joined)
      (rw (whole, whole, part, part) (omega (arith, exact)), rw (part, part) rest)
