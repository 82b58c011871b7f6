-- ===== src/Cpu/Registers.antt =====
-- The eight byte registers, which `get_reg8` and `set_reg8` lay over the first four registers.
use fake_kernel.Prelude.{
  ℕ, ◌+◌, ◌-◌, ◌*◌, ◌/◌, ◌%◌, ◌^◌, ◌<◌, ◌≡◌, arith, if◌then◌else◌, ltb, ◌==◌, u8, bit_and, bit_or,
  ◌<<<◌, ap, ◌∙◌, ◌≢◌,
}
use fake_kernel.Prelude.Bits.{
  bit_ext, bit-bit_or, bit_and_parts, bit_and_low, bit_or_fields, bit_or_fields',
}
use fake_kernel.Prelude.Widths.{bit_and-split}
use fake_kernel.Machine.{Machine, apply, apply_cpu}
use fake_kernel.Prog.{Host, run, ◌>>◌}
use fake_kernel.Prog.Valid.{Returns}
use fake_kernel.Cpu.{get_reg8, set_reg8}

-- A register with its low byte, and with its second byte, replaced.
set_low :
    (v b : ℕ) → v < 2 ^ 32 → b < 2 ^ 8 → bit_or (bit_and v 0xffff_ff00) b ≡ v / 2 ^ 8 * 2 ^ 8 + b
set_low v b p q =
    let high : bit_and v 0xffff_ff00 ≡ v / 2 ^ 8 * 2 ^ 8 =
      omega (arith, bit_and-split 32 v 0xff p (omega arith), bit_and_low 8 v) in
    rw high (bit_or_fields 8 (v / 2 ^ 8) b q)

bit_or_assoc : (a b c : ℕ) → bit_or (bit_or a b) c ≡ bit_or a (bit_or b c)
bit_or_assoc a b c = bit_ext _ _ λ j. omega (
  arith,
  bit-bit_or (bit_or a b) c j,
  bit-bit_or a b j,
  bit-bit_or a (bit_or b c) j,
  bit-bit_or b c j,
)

and_step : (v m n : ℕ) → n ≡ 2 * m + 1 → bit_and v n ≡ 2 * bit_and (v / 2) m + v % 2
and_step v m n e =
    let half : n / 2 ≡ m = omega arith in
    omega (arith, bit_and_parts v n, ap (λ (t : ℕ). bit_and (v / 2) t) half)

-- A mask with a nibble of ones at the bottom, and with a byte of them.
and_nibble :
    (v m n : ℕ) → n ≡ m * 2 ^ 4 + 0xf → bit_and v n ≡ bit_and (v / 2 ^ 4) m * 2 ^ 4 + v % 2 ^ 4
and_nibble v m n e =
    let quarter : v / 2 / 2 / 2 / 2 ≡ v / 2 ^ 4 = omega arith in
    omega (
      arith,
      and_step v (m * 8 + 7) n (omega arith),
      and_step (v / 2) (m * 4 + 3) (m * 8 + 7) (omega arith),
      and_step (v / 2 / 2) (m * 2 + 1) (m * 4 + 3) (omega arith),
      and_step (v / 2 / 2 / 2) m (m * 2 + 1) (omega arith),
      ap (λ (t : ℕ). bit_and t m) quarter,
    )

and_byte : (v m : ℕ) → bit_and v (m * 2 ^ 8 + 0xff) ≡ bit_and (v / 2 ^ 8) m * 2 ^ 8 + v % 2 ^ 8
and_byte v m =
    let quarter : v / 2 ^ 4 / 2 ^ 4 ≡ v / 2 ^ 8 = omega arith in
    omega (
      arith,
      and_nibble v (m * 16 + 15) (m * 2 ^ 8 + 0xff) (omega arith),
      and_nibble (v / 2 ^ 4) m (m * 16 + 15) (omega arith),
      ap (λ (t : ℕ). bit_and t m) quarter,
    )

set_second :
    (v b : ℕ)
    → v < 2 ^ 32
    → b < 2 ^ 8
    → bit_or (bit_and v 0xffff_00ff) (b <<< 8) ≡ v / 2 ^ 16 * 2 ^ 16 + b * 2 ^ 8 + v % 2 ^ 8
set_second v b p q =
    let high : bit_and (v / 2 ^ 8) 0xffff00 ≡ v / 2 ^ 16 * 2 ^ 8 = omega (
      arith,
      bit_and-split 24 (v / 2 ^ 8) 0xff (omega arith) (omega arith),
      bit_and_low 8 (v / 2 ^ 8),
    ) in
    let kept : bit_and v 0xffff00ff ≡ (v / 2 ^ 16) <<< 16 + v % 2 ^ 8 =
      omega (arith, and_byte v 0xffff00, high) in
    let top = bit_or_fields 16 (v / 2 ^ 16) (v % 2 ^ 8) (omega arith) in
    let low = bit_or_fields' 8 b (v % 2 ^ 8) (omega arith) in
    rw (kept, ← top, bit_or_assoc, low)
      (bit_or_fields 16 (v / 2 ^ 16) (b * 2 ^ 8 + v % 2 ^ 8) (omega arith) ∙ omega arith)

-- The byte that a byte register names.
abbrev pub byte_of : (ℕ → ℕ) → ℕ → ℕ
byte_of regs i = if ltb i 4 then u8 (regs i) else u8 (regs (i - 4) / 2 ^ 8)

-- `set_reg8` with a byte sets its byte register and keeps the other seven, as `get_reg8` reads them.
-- The upper half of the register that it lies in and all other registers are as before, and so is
-- everything outside the registers.
pub get_reg8-set_reg8 :
    (host : Host) (i j val : ℕ) (s : Machine)
    → ((k : ℕ) → s.cpu.regs k < 2 ^ 32)
    → i < 8
    → j < 8
    → val < 2 ^ 8
    → Returns
        (λ v t.
          (v ≡ (if i == j then val else byte_of s.cpu.regs j))
          × (t.cpu.regs (i % 4) / 2 ^ 16 ≡ s.cpu.regs (i % 4) / 2 ^ 16)
          × ((k : ℕ) → k ≢ i % 4 → t.cpu.regs k ≡ s.cpu.regs k)
          × (t ≡ record s { cpu = record s.cpu { regs = t.cpu.regs } }))
        (run host (set_reg8 i val >> get_reg8 j) s)
unfolding run get_reg8 set_reg8 apply apply_cpu
get_reg8-set_reg8 host i j val s fits hi hj small = ground (
  arith,
  set_low (s.cpu.regs i) val (fits i) small,
  set_second (s.cpu.regs (i - 4)) val (fits (i - 4)) small,
  fits i,
  fits (i - 4),
)
