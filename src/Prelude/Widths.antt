-- ===== src/Prelude/Widths.antt =====
-- `^` bit by bit, and the widths that `&` and `^` keep.
use Prim.Native.Nat.{
  ℕ, zero, suc, ◌+◌, ◌-◌, ◌/◌, ◌%◌, ◌^◌, ◌<◌, bit_and, bit_xor, differ, bit_xor-bitwise,
  bit_and-bitwise,
}
use mathlib.Core.Path.{◌≡◌, refl, sym, ap, ◌∙◌}
use native.Mathlib.Nat.{pow-succ'}
use native.Mathlib.Omega.{arith}
use fake_kernel.Prelude.Words.{bit}
use fake_kernel.Prelude.Bits.{bit-digits, bit-suc, bit_ext, bit_and_parts}

differ-lt : (x y : ℕ) → x < 2 → y < 2 → differ x y < 2
differ-lt zero y p q = q
differ-lt (suc zero) zero p q = omega arith
differ-lt (suc zero) (suc zero) p q = omega arith
differ-lt (suc zero) (suc (suc y)) p q = absurd (omega arith)
differ-lt (suc (suc x)) y p q = absurd (omega arith)

differ-add : (x y : ℕ) → x < 2 → y < 2 → differ x y ≡ (x + y) % 2
differ-add zero y p q = omega arith
differ-add (suc zero) zero p q = refl
differ-add (suc zero) (suc zero) p q = refl
differ-add (suc zero) (suc (suc y)) p q = absurd (omega arith)
differ-add (suc (suc x)) y p q = absurd (omega arith)

-- An exclusive or adds the bits without carry.
pub bit-bit_xor : (a b k : ℕ) → bit (bit_xor a b) k ≡ (bit a k + bit b k) % 2
bit-bit_xor a b k =
    simp bit_xor-bitwise (bit-digits (λ y. y) differ (λ c j. refl) differ-lt a a b k (omega arith))
    ∙ differ-add (bit a k) (bit b k) (omega arith) (omega arith)

bit_xor_halves : (a b : ℕ) → bit_xor a b / 2 ≡ bit_xor (a / 2) (b / 2)
bit_xor_halves a b = bit_ext _ _ λ k.
    sym (bit-suc (bit_xor a b) k)
    ∙ bit-bit_xor a b (suc k)
    ∙ rw (bit-suc a k, bit-suc b k, bit-bit_xor (a / 2) (b / 2) k)

-- The result is as wide as the operands.
pub bit_xor-lt : (w a b : ℕ) → a < 2 ^ w → b < 2 ^ w → bit_xor a b < 2 ^ w
bit_xor-lt zero a b p q = let z : a ≡ 0 = omega arith in rw z (omega (arith, bit_xor-bitwise 0 b))
bit_xor-lt (suc w) a b p q = omega (
  arith,
  pow-succ' 2 w,
  bit_xor_halves a b,
  bit_xor-lt w (a / 2) (b / 2) (omega (arith, pow-succ' 2 w)) (omega (arith, pow-succ' 2 w)),
)

pub bit_and-lt : (w a b : ℕ) → a < 2 ^ w → bit_and a b < 2 ^ w
bit_and-lt zero a b p = let z : a ≡ 0 = omega arith in rw z (omega (arith, bit_and-bitwise 0 b))
bit_and-lt (suc w) a b p = omega (
  arith,
  pow-succ' 2 w,
  bit_and_parts a b,
  bit_and-lt w (a / 2) (b / 2) (omega (arith, pow-succ' 2 w)),
)

-- The bits under a mask and the bits outside it make up the number.
pub bit_and-split :
    (w a m : ℕ) → a < 2 ^ w → m < 2 ^ w → bit_and a m + bit_and a (2 ^ w - 1 - m) ≡ a
bit_and-split zero a m p q =
    let z : a ≡ 0 = omega arith in
    rw z (omega (arith, bit_and-bitwise 0 m, bit_and-bitwise 0 (2 ^ 0 - 1 - m)))
bit_and-split (suc w) a m p q =
    let halved : (2 ^ suc w - 1 - m) / 2 ≡ 2 ^ w - 1 - m / 2 = omega (arith, pow-succ' 2 w) in
    omega (
      arith,
      pow-succ' 2 w,
      bit_and_parts a m,
      bit_and_parts a (2 ^ suc w - 1 - m),
      ap (λ (t : ℕ). bit_and (a / 2) t) halved,
      bit_and-split w (a / 2) (m / 2) (omega (arith, pow-succ' 2 w)) (omega (arith, pow-succ' 2 w)),
    )
