-- ===== src/Cpu/Branch/Compare.antt =====
-- The condition codes after a comparison, and the orders that they are named for.
use fake_kernel.Prelude.{
  ℕ, ◌+◌, ◌^◌, ◌<◌, ◌≤◌, ◌≡◌, ◌≢◌, ◌↔◌, refl, arith, Bool, true, differs, has_bit, ltb, ◌==◌, sub32,
  u32, Bool-cases, inl, inr, Option, some,
}
use fake_kernel.Prelude.Int.{signed32, ◌<ℤ◌, ◌≤ℤ◌}
use fake_kernel.Cpu.{overflow_sub}
use fake_kernel.Cpu.Overflow.{overflow_sub-sign}
use fake_kernel.Cpu.Branch.{condition}

-- The condition on the flags that CMP leaves for `a` and `b`, PF apart.
abbrev pub after_cmp : ℕ → ℕ → ℕ → Bool → Option Bool
after_cmp code a b p =
    condition code (ltb a b) p (sub32 a b == 0) (has_bit (sub32 a b) 31)
      (overflow_sub a b (sub32 a b))

-- Signed order is the order of the words with the sign bit turned over.
signed32-biased :
    (a b : ℕ)
    → a < 2 ^ 32
    → b < 2 ^ 32
    → (signed32 a <ℤ signed32 b) ↔ (u32 (a + 2 ^ 31) < u32 (b + 2 ^ 31))
signed32-biased a b ha hb = elim (Bool-cases (ltb a (2 ^ 31))) [
  | inl p ↦ elim (Bool-cases (ltb b (2 ^ 31))) [
    | inl q ↦ rw (p, q) (ground arith)
    | inr q ↦ rw (p, q) (ground arith)
  ]
  | inr p ↦ elim (Bool-cases (ltb b (2 ^ 31))) [
    | inl q ↦ rw (p, q) (ground arith)
    | inr q ↦ rw (p, q) (ground arith)
  ]
]

-- SF differs from OF exactly when `a` is below `b` as signed numbers.
differs-biased :
    (a b : ℕ)
    → a < 2 ^ 32
    → b < 2 ^ 32
    → differs (has_bit (sub32 a b) 31) (overflow_sub a b (sub32 a b))
      ≡ ltb (u32 (a + 2 ^ 31)) (u32 (b + 2 ^ 31))
differs-biased a b ha hb = rw (overflow_sub-sign a b (sub32 a b) ha hb (omega arith)) (ground arith)

-- The ten orders that a comparison can be asked for, and their codes.
pub data Order : Type 0 where
  below above_equal equal not_equal below_equal above : Order
  less greater_equal less_equal greater : Order

abbrev pub code : Order → ℕ
code below = 0x2
code above_equal = 0x3
code equal = 0x4
code not_equal = 0x5
code below_equal = 0x6
code above = 0x7
code less = 0xc
code greater_equal = 0xd
code less_equal = 0xe
code greater = 0xf

abbrev pub Holds : Order → ℕ → ℕ → Type 0
Holds below a b = a < b
Holds above_equal a b = b ≤ a
Holds equal a b = a ≡ b
Holds not_equal a b = a ≢ b
Holds below_equal a b = a ≤ b
Holds above a b = b < a
Holds less a b = signed32 a <ℤ signed32 b
Holds greater_equal a b = signed32 b ≤ℤ signed32 a
Holds less_equal a b = signed32 a ≤ℤ signed32 b
Holds greater a b = signed32 b <ℤ signed32 a

-- A condition that has come out as a truth value, and means `P`.
abbrev pub Decides : Option Bool → Type 0 → Type 0
Decides c P = (b : Bool) × (c ≡ some b) × ((b ≡ true) ↔ P)

pub after_cmp_decides :
    (o : Order) (a b : ℕ) (p : Bool)
    → a < 2 ^ 32
    → b < 2 ^ 32
    → Decides (after_cmp (code o) a b p) (Holds o a b)
unfolding condition
after_cmp_decides below a b p ha hb = (_, refl, ground arith)
after_cmp_decides above_equal a b p ha hb = (_, refl, ground arith)
after_cmp_decides equal a b p ha hb = (_, refl, ground arith)
after_cmp_decides not_equal a b p ha hb = (_, refl, ground arith)
after_cmp_decides below_equal a b p ha hb = (_, refl, ground arith)
after_cmp_decides above a b p ha hb = (_, refl, ground arith)
after_cmp_decides less a b p ha hb =
    (_, refl, rw (differs-biased a b ha hb) (ground (arith, signed32-biased a b ha hb)))
after_cmp_decides greater_equal a b p ha hb =
    (_, refl, rw (differs-biased a b ha hb) (ground (arith, signed32-biased a b ha hb)))
after_cmp_decides less_equal a b p ha hb =
    (_, refl, rw (differs-biased a b ha hb) (ground (arith, signed32-biased a b ha hb)))
after_cmp_decides greater a b p ha hb =
    (_, refl, rw (differs-biased a b ha hb) (ground (arith, signed32-biased a b ha hb)))
