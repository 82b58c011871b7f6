-- ===== src/Prelude/Bits.antt =====
-- `&`, `|` and `^` at variables, read bit by bit; fields, masks and single flags as arithmetic.
use Prim.Native.Nat.{
  ℕ, zero, suc, ◌+◌, ◌-◌, ◌*◌, ◌/◌, ◌%◌, ◌^◌, ◌≤◌, ◌<◌, min, max, bit_and, bit_or, digits,
  bit_and-bitwise, bit_or-bitwise,
}
use mathlib.Core.Path.{◌≡◌, sym, ap, ◌∙◌}
use native.Mathlib.Nat.{
  pow-succ', div-div-eq-div-mul, zero-div, div-one, one-le-pow, div-add-mod, add-mul-mod_self_left,
  mod-eq_of_lt, mod-lt,
}
use native.Mathlib.Omega.{arith}
use fake_kernel.Prelude.Words.{bit, ◌<<<◌}

-- Bit `k + 1` of a number is bit `k` of its half.
pub bit-suc : (x k : ℕ) → bit x (suc k) ≡ bit (x / 2) k
bit-suc x k =
    ap (λ (t : ℕ). t % 2)
      (ap (λ (t : ℕ). x / t) (pow-succ' 2 k) ∙ sym (div-div-eq-div-mul x 2 (2 ^ k)))

-- Numbers with the same bits are equal.
bit_ext_fuel : (n a b : ℕ) → a ≤ n → b ≤ n → ((k : ℕ) → bit a k ≡ bit b k) → a ≡ b
bit_ext_fuel zero a b p q h = omega arith
bit_ext_fuel (suc n) a b p q h =
    let halves : a / 2 ≡ b / 2 =
      bit_ext_fuel n (a / 2) (b / 2) (omega arith) (omega arith)
        (λ k. sym (bit-suc a k) ∙ h (suc k) ∙ bit-suc b k) in
    omega (arith, h 0)

pub bit_ext : (a b : ℕ) → ((k : ℕ) → bit a k ≡ bit b k) → a ≡ b
bit_ext a b h = bit_ext_fuel (a + b) a b (omega arith) (omega arith) h

zero-bit : (k : ℕ) → bit 0 k ≡ 0
zero-bit k = omega (arith, zero-div (2 ^ k))

bit-zero : (x : ℕ) → bit x 0 ≡ x % 2
bit-zero x = ap (λ (t : ℕ). t % 2) (div-one x)

bit-lt-two : (x k : ℕ) → bit x k < 2
bit-lt-two x k = omega arith

-- A digitwise operation acts on each bit by itself, given enough digits for the first number.
module _ (z : ℕ → ℕ) (f : ℕ → ℕ → ℕ) (rest : (b k : ℕ) → bit (z b) k ≡ f 0 (bit b k))
    (digit : (x y : ℕ) → x < 2 → y < 2 → f x y < 2) where
  pub bit-digits : (n a b k : ℕ) → a ≤ n → bit (digits z f n a b) k ≡ f (bit a k) (bit b k)
  bit-digits zero zero b k h = rest b k ∙ ap (λ (t : ℕ). f t (bit b k)) (sym (zero-bit k))
  bit-digits zero (suc a) b k h = absurd (omega arith)
  bit-digits (suc n) zero b k h = rest b k ∙ ap (λ (t : ℕ). f t (bit b k)) (sym (zero-bit k))
  bit-digits (suc n) (suc a) b zero h =
      let low = digit (suc a % 2) (b % 2) (omega arith) (omega arith) in
      let d = digits z f n (suc a / 2) (b / 2) in
      bit-zero (d * 2 + f (suc a % 2) (b % 2))
      ∙ omega arith
      ∙ ap (λ (t : ℕ). f t (b % 2)) (sym (bit-zero (suc a)))
      ∙ ap (λ (t : ℕ). f (bit (suc a) 0) t) (sym (bit-zero b))
  bit-digits (suc n) (suc a) b (suc k) h =
      let low = digit (suc a % 2) (b % 2) (omega arith) (omega arith) in
      let d = digits z f n (suc a / 2) (b / 2) in
      let half : (d * 2 + f (suc a % 2) (b % 2)) / 2 ≡ d = omega arith in
      bit-suc (d * 2 + f (suc a % 2) (b % 2)) k
      ∙ ap (λ (t : ℕ). bit t k) half
      ∙ bit-digits n (suc a / 2) (b / 2) k (omega arith)
      ∙ rw (bit-suc (suc a) k, bit-suc b k)

pub bit-bit_or : (a b k : ℕ) → bit (bit_or a b) k ≡ max (bit a k) (bit b k)
bit-bit_or a b k =
    simp bit_or-bitwise
      (bit-digits (λ y. y) max (λ c j. omega arith) (λ x y p q. omega arith) a a b k (omega arith))

pub bit-bit_and : (a b k : ℕ) → bit (bit_and a b) k ≡ min (bit a k) (bit b k)
bit-bit_and a b k = simp bit_and-bitwise (
    bit-digits (λ y. 0) min (λ c j. omega (arith, zero-bit j)) (λ x y p q. omega arith) a a b k
      (omega arith))

-- The lowest bit and the rest of a disjunction and of a conjunction.
pub bit_or_parts :
    (a b : ℕ) → (bit_or a b % 2 ≡ max (a % 2) (b % 2)) × (bit_or a b / 2 ≡ bit_or (a / 2) (b / 2))
bit_or_parts a b = (
  sym (bit-zero (bit_or a b)) ∙ bit-bit_or a b 0 ∙ rw (bit-zero a, bit-zero b),
  bit_ext _ _ λ k.
      sym (bit-suc (bit_or a b) k)
      ∙ bit-bit_or a b (suc k)
      ∙ rw (bit-suc a k, bit-suc b k, bit-bit_or (a / 2) (b / 2) k),
)

pub bit_and_parts :
    (a b : ℕ)
    → (bit_and a b % 2 ≡ min (a % 2) (b % 2)) × (bit_and a b / 2 ≡ bit_and (a / 2) (b / 2))
bit_and_parts a b = (
  sym (bit-zero (bit_and a b)) ∙ bit-bit_and a b 0 ∙ rw (bit-zero a, bit-zero b),
  bit_ext _ _ λ k.
      sym (bit-suc (bit_and a b) k)
      ∙ bit-bit_and a b (suc k)
      ∙ rw (bit-suc a k, bit-suc b k, bit-bit_and (a / 2) (b / 2) k),
)

pub bit_or_comm : (a b : ℕ) → bit_or a b ≡ bit_or b a
bit_or_comm a b = bit_ext _ _ λ k. bit-bit_or a b k ∙ omega arith ∙ sym (bit-bit_or b a k)

mul-two-pow : (q k : ℕ) → q * 2 ^ suc k ≡ 2 * (q * 2 ^ k)
mul-two-pow q k = omega (arith, ap (λ (t : ℕ). q * t) (pow-succ' 2 k))

-- A field above `k` bits joined with what fits under it, in both orders.
pub bit_or_fields : (k q r : ℕ) → r < 2 ^ k → bit_or (q <<< k) r ≡ q * 2 ^ k + r
bit_or_fields zero q r h =
    let none_left : r ≡ 0 = omega arith in
    rw none_left (bit_or_comm (q * 1) 0 ∙ simp bit_or-bitwise (omega arith))
bit_or_fields (suc k) q r h =
    let halved : q <<< suc k / 2 ≡ q <<< k = omega (arith, mul-two-pow q k) in
    let rest = bit_or_fields k q (r / 2) (omega (arith, pow-succ' 2 k)) in
    omega (
      arith,
      bit_or_parts (q <<< suc k) r,
      ap (λ (t : ℕ). bit_or t (r / 2)) halved,
      rest,
      mul-two-pow q k,
    )

pub bit_or_fields' : (k q r : ℕ) → r < 2 ^ k → bit_or r (q <<< k) ≡ q * 2 ^ k + r
bit_or_fields' k q r h = bit_or_comm r (q <<< k) ∙ bit_or_fields k q r h

mod-double : (a m : ℕ) → 1 ≤ m → a % (2 * m) ≡ 2 * (a / 2 % m) + a % 2
mod-double a m pos =
    let r : ℕ = 2 * (a / 2 % m) + a % 2 in
    let split : a ≡ r + 2 * m * (a / 2 / m) =
      omega (arith, div-add-mod (a / 2) m, ap (λ (t : ℕ). 2 * t) (div-add-mod (a / 2) m)) in
    ap (λ (t : ℕ). t % (2 * m)) split
    ∙ add-mul-mod_self_left r (2 * m) (a / 2 / m)
    ∙ mod-eq_of_lt (omega (arith, mod-lt (a / 2) pos))

-- A mask of `k` low ones keeps the remainder, and a mask without them keeps the rest.
pub bit_and_low : (k a : ℕ) → bit_and a (2 ^ k - 1) ≡ a % 2 ^ k
bit_and_low zero a = bit_ext _ _ λ j. bit-bit_and a 0 j ∙ omega (arith, zero-bit j)
bit_and_low (suc k) a =
    let pos : 1 ≤ 2 ^ k = one-le-pow k 2 (omega arith) in
    let halved : (2 ^ suc k - 1) / 2 ≡ 2 ^ k - 1 = omega (arith, pow-succ' 2 k) in
    let parts = bit_and_parts a (2 ^ suc k - 1) in
    let value : bit_and a (2 ^ suc k - 1) ≡ 2 * (a / 2 % 2 ^ k) + a % 2 = omega (
      arith,
      parts,
      ap (λ (t : ℕ). bit_and (a / 2) t) halved,
      bit_and_low k (a / 2),
      pow-succ' 2 k,
    ) in
    value ∙ sym (mod-double a (2 ^ k) pos) ∙ ap (λ (t : ℕ). a % t) (sym (pow-succ' 2 k))
