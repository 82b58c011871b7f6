-- ===== src/Cpu/MulDiv/Signed.antt =====
-- IMUL as exact signed arithmetic.
use fake_kernel.Prelude.{
  ℕ, ◌+◌, ◌-◌, ◌*◌, ◌^◌, ◌<◌, ◌≤◌, ◌≡◌, inl, inr, arith, true, false, if◌then◌else◌, differs, not,
  leb, ◌==◌, u32, u64, has_bit, ◌>>>◌, Bool-cases, ◌∙◌,
}
use native.Mathlib.Nat.{mul-le-mul, add-mul, mul-add, mul_comm}
use mathlib.Core.Path.{sym, ap, subst}
use fake_kernel.Machine.{Machine, cf, reg_eax, reg_edx, apply, apply_cpu}
use fake_kernel.Machine.Valid.{IsMachine}
use fake_kernel.Prog.{Host, run}
use fake_kernel.Prog.Valid.{Returns}
use fake_kernel.Cpu.{flag, set_cf}
use fake_kernel.Cpu.Flags.{flag-change_flag}
use fake_kernel.Cpu.Decode.{ModRm, read_rm32}
use fake_kernel.Cpu.MulDiv.{magnitude, sext32}
use fake_kernel.Cpu.MulDiv.Laws.{IsRegister}
use fake_kernel.Cpu.MulDiv.Dword.{imul_rm32}

-- The product of two signed numbers as a pattern of 64 bits, by their sizes.
abbrev pub signed_product : ℕ → ℕ → ℕ
signed_product x y =
    let size = magnitude 32 x * magnitude 32 y in
    if differs (has_bit x 31) (has_bit y 31) then u64 (2 ^ 64 - size) else size

-- Products of numbers of which one or both are extended by ones, `m` and `n` being the sizes.
one_extended :
    (a m y : ℕ) → a + m ≡ 2 ^ 64 → m ≤ 2 ^ 31 → y < 2 ^ 31 → u64 (a * y) ≡ u64 (2 ^ 64 - m * y)
one_extended a m y whole small_m small_y =
    let bound : m * y ≤ 2 ^ 31 * 2 ^ 31 = mul-le-mul {m₂ = 2 ^ 31} small_m (omega arith) in
    let split : a * y + m * y ≡ 2 ^ 64 * y = sym (add-mul a m y) ∙ ap (λ t. t * y) whole in
    omega arith

both_extended :
    (a b m n : ℕ) → a + m ≡ 2 ^ 64 → b + n ≡ 2 ^ 64 → m ≤ 2 ^ 31 → n ≤ 2 ^ 31 → u64 (a * b) ≡ m * n
both_extended a b m n whole whole' small_m small_n =
    let bound : m * n ≤ 2 ^ 31 * 2 ^ 31 = mul-le-mul small_m small_n in
    let split : a * b + m * b ≡ 2 ^ 64 * b = sym (add-mul a m b) ∙ ap (λ t. t * b) whole in
    let rest : m * b + m * n ≡ m * 2 ^ 64 = sym (mul-add m b n) ∙ ap (λ t. m * t) whole' in
    omega arith

module _ (x y : ℕ) (fits_x : x < 2 ^ 32) (fits_y : y < 2 ^ 32) where
  abbrev Exact : Type 0
  Exact = u64 (sext32 x * sext32 y) ≡ signed_product x y

  same_signs : has_bit x 31 ≡ has_bit y 31 → Exact
  unfolding sext32 magnitude
  same_signs same = elim (Bool-cases (has_bit y 31)) [
    | inl negative ↦
        let exact =
          both_extended (x + (2 ^ 64 - 2 ^ 32)) (y + (2 ^ 64 - 2 ^ 32)) (2 ^ 32 - x) (2 ^ 32 - y)
            (omega arith) (omega arith) (ground arith) (ground arith) in
        rw (same, negative) exact
    | inr positive ↦
        let bound : x * y ≤ 2 ^ 31 * 2 ^ 31 =
          mul-le-mul {n₂ = 2 ^ 31} {m₂ = 2 ^ 31} (ground arith) (ground arith) in
        rw (same, positive) (omega arith)
  ]

  left_negative : has_bit x 31 ≡ true → has_bit y 31 ≡ false → Exact
  unfolding sext32 magnitude
  left_negative negative positive =
      let exact =
        one_extended (x + (2 ^ 64 - 2 ^ 32)) (2 ^ 32 - x) y (omega arith) (ground arith)
          (ground arith) in
      rw (negative, positive) exact

  right_negative : has_bit x 31 ≡ false → has_bit y 31 ≡ true → Exact
  unfolding sext32 magnitude
  right_negative positive negative =
      let exact =
        one_extended (y + (2 ^ 64 - 2 ^ 32)) (2 ^ 32 - y) x (omega arith) (ground arith)
          (ground arith) in
      rw (negative, positive)
        (ap u64 (mul_comm x (y + (2 ^ 64 - 2 ^ 32)))
          ∙ exact
          ∙ ap (λ t. u64 (2 ^ 64 - t)) (mul_comm (2 ^ 32 - y) x))

  sext32-signed_product : Exact
  sext32-signed_product = elim (Bool-cases (has_bit x 31)) [
    | inl a ↦ elim (Bool-cases (has_bit y 31)) [
      | inl b ↦ same_signs (a ∙ sym b)
      | inr b ↦ left_negative a b
    ]
    | inr a ↦ elim (Bool-cases (has_bit y 31)) [
      | inl b ↦ right_negative a b
      | inr b ↦ same_signs (a ∙ sym b)
    ]
  ]

-- The halves of 64 bits, cut once when they are made and once when they are stored.
halves :
    (p : ℕ)
    → p < 2 ^ 64
    → (u32 (u32 (p >>> 32)) * 2 ^ 32 + u32 (u32 p) ≡ p)
      × (not (u32 (u32 (p >>> 32)) == 0) ≡ leb (2 ^ 32) p)
halves p small = (omega arith, ground arith)

-- One-operand IMUL of a register leaves the exact signed product in EDX:EAX as 64 bits. CF tells
-- whether those bits, taken as a number without sign, need more than 32: every negative product sets
-- it.
pub imul_rm32_lem :
    (host : Host) (size : ℕ) (s : Machine) (m : ModRm)
    → IsMachine size s
    → IsRegister m
    → (let product = signed_product (s.cpu.regs reg_eax) (s.cpu.regs m.rm) in
        Returns
          (λ _ t.
            (t.cpu.regs reg_edx * 2 ^ 32 + t.cpu.regs reg_eax ≡ product)
            × (flag cf t.cpu.eflags ≡ leb (2 ^ 32) product))
          (run host (imul_rm32 m) s))
unfolding run imul_rm32 read_rm32 apply apply_cpu set_cf
imul_rm32_lem host size s m h r =
    let register : (m.mode == 3) ≡ true = ground arith in
    let x = s.cpu.regs reg_eax in
    let y = s.cpu.regs m.rm in
    let exact = sext32-signed_product x y (h.cpu.regs_fit reg_eax) (h.cpu.regs_fit m.rm) in
    let small : signed_product x y < 2 ^ 64 = subst (λ p. p < 2 ^ 64) exact (omega arith) in
    let parts = halves (signed_product x y) small in
    rw (register, exact) (parts.0, flag-change_flag cf cf _ _ ∙ parts.1)
