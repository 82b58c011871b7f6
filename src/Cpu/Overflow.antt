-- ===== src/Cpu/Overflow.antt =====
-- OF as `set_of_add` and `set_of_sub` compute it, against signed arithmetic.
use fake_kernel.Prelude.{
  ℕ, ◌+◌, ◌/◌, ◌^◌, ◌<◌, ◌≤◌, ◌≡◌, ◌↔◌, arith, false, not, u32, not32, bit_xor, sub32, ◌==◌, ◌&&◌,
}
use fake_kernel.Prelude.Bits.{bit-bit_and}
use fake_kernel.Prelude.Widths.{bit-bit_xor, bit_xor-lt, bit_and-lt}
use fake_kernel.Prelude.Int.{pos, signed32, ◌+ℤ◌, ◌-ℤ◌, FitsInt32}
use fake_kernel.Cpu.{overflow_add, overflow_sub}

-- Both flags in terms of the signs alone.
overflow_add-sign :
    (a b r : ℕ)
    → a < 2 ^ 32
    → b < 2 ^ 32
    → r < 2 ^ 32
    → overflow_add a b r ≡ (a / 2 ^ 31 == b / 2 ^ 31 && not (a / 2 ^ 31 == r / 2 ^ 31))
unfolding overflow_add
overflow_add-sign a b r ha hb hr = ground (
  arith,
  bit_xor-lt 32 a b ha hb,
  bit_xor-lt 32 a r ha hr,
  bit-bit_xor a b 31,
  bit-bit_xor a r 31,
  bit_and-lt 32 (not32 (bit_xor a b)) (bit_xor a r) (omega arith),
  bit-bit_and (not32 (bit_xor a b)) (bit_xor a r) 31,
)

pub overflow_sub-sign :
    (a b r : ℕ)
    → a < 2 ^ 32
    → b < 2 ^ 32
    → r < 2 ^ 32
    → overflow_sub a b r ≡ (not (a / 2 ^ 31 == b / 2 ^ 31) && not (a / 2 ^ 31 == r / 2 ^ 31))
unfolding overflow_sub
overflow_sub-sign a b r ha hb hr = ground (
  arith,
  bit_xor-lt 32 a b ha hb,
  bit_xor-lt 32 a r ha hr,
  bit-bit_xor a b 31,
  bit-bit_xor a r 31,
  bit_and-lt 32 (bit_xor a b) (bit_xor a r) (bit_xor-lt 32 a b ha hb),
  bit-bit_and (bit_xor a b) (bit_xor a r) 31,
)

-- After ADD and ADC, OF is clear exactly when the signed sum with the carry fits 32 bits.
pub overflow_add-signed :
    (a b c : ℕ)
    → a < 2 ^ 32
    → b < 2 ^ 32
    → c ≤ 1
    → (overflow_add a b (u32 (a + b + c)) ≡ false) ↔ FitsInt32 (signed32 a +ℤ signed32 b +ℤ pos c)
overflow_add-signed a b c ha hb hc =
    rw (overflow_add-sign a b (u32 (a + b + c)) ha hb (omega arith)) (ground arith)

-- After SUB, CMP and SBB, OF is clear exactly when the signed difference fits 32 bits.
pub overflow_sub-signed :
    (a b c : ℕ)
    → a < 2 ^ 32
    → b < 2 ^ 32
    → c ≤ 1
    → (overflow_sub a b (sub32 (sub32 a b) c) ≡ false)
      ↔ FitsInt32 (signed32 a -ℤ signed32 b -ℤ pos c)
overflow_sub-signed a b c ha hb hc =
    rw (overflow_sub-sign a b (sub32 (sub32 a b) c) ha hb (omega arith)) (ground arith)
