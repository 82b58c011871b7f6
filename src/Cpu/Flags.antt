-- ===== src/Cpu/Flags.antt =====
-- Reading the flags back: `get_cf` to `get_of` after `set_cf` to `set_of_sub`.
use fake_kernel.Prelude.{
  ℕ, ◌+◌, ◌/◌, ◌%◌, ◌<◌, ◌≡◌, ◌≢◌, refl, arith, Bool, true, false, not, if◌then◌else◌, u8, ◌==◌,
  zero, suc, ◌∙◌,
}
use fake_kernel.Machine.{Flag, cf, pf, zf, sf, of, change_flag}
use fake_kernel.Machine.Flags.{change_flag_self, change_flag_other}
use fake_kernel.Cpu.{flag, parity}

abbrev pub same_flag : Flag → Flag → Bool
same_flag cf cf = true
same_flag pf pf = true
same_flag zf zf = true
same_flag sf sf = true
same_flag of of = true
same_flag _ _ = false

flag_self : (f : Flag) (b : Bool) (e : ℕ) → flag f (change_flag f b e) ≡ b
unfolding flag
flag_self f true e = ground (arith, change_flag_self f true e)
flag_self f false e = ground (arith, change_flag_self f false e)

flag_other : (f g : Flag) (b : Bool) (e : ℕ) → f ≢ g → flag g (change_flag f b e) ≡ flag g e
unfolding flag
flag_other f g b e ne = ground (arith, change_flag_other f g b e ne)

-- A flag that was set has the value that was set, and every other flag the value that it had.
pub flag-change_flag :
    (f g : Flag) (b : Bool) (e : ℕ)
    → flag g (change_flag f b e) ≡ (if same_flag f g then b else flag g e)
flag-change_flag cf cf b e = flag_self cf b e
flag-change_flag pf pf b e = flag_self pf b e
flag-change_flag zf zf b e = flag_self zf b e
flag-change_flag sf sf b e = flag_self sf b e
flag-change_flag of of b e = flag_self of b e
flag-change_flag f g b e = flag_other f g b e (λ h. cc)

-- The ones among the lowest `n` bits.
unfoldable pub ones : ℕ → ℕ → ℕ
ones zero x = 0
ones (suc n) x = x % 2 + ones n (x / 2)

-- A test on every number under a bound.
passes_to : (ℕ → Bool) → ℕ → Bool
passes_to test zero = true
passes_to test (suc bound) = if test bound then passes_to test bound else false

passes_to-at :
    (test : ℕ → Bool) (bound k : ℕ) → k < bound → passes_to test bound ≡ true → test k ≡ true
unfolding passes_to
passes_to-at test zero k under all = absurd (omega arith)
passes_to-at test (suc bound) k under all =
    ground
      (arith, λ (p : k < bound) (q : passes_to test bound ≡ true). passes_to-at test bound k p q)

same_bool : Bool → Bool → Bool
same_bool true b = b
same_bool false b = not b

same_bool_sound : (a b : Bool) → same_bool a b ≡ true → a ≡ b
unfolding same_bool
same_bool_sound a b h = ground arith

parity_table : passes_to (λ x. same_bool (parity x) (ones 8 x % 2 == 0)) 256 ≡ true
unfolding passes_to parity ones same_bool
parity_table = refl

parity-byte : (x : ℕ) → x < 256 → parity x ≡ (ones 8 x % 2 == 0)
parity-byte x h = same_bool_sound _ _ (passes_to-at _ 256 x h parity_table)

parity-u8 : (x : ℕ) → parity x ≡ parity (u8 x)
unfolding parity
parity-u8 x = let same : u8 (u8 x) ≡ u8 x = omega arith in rw same

-- PF is set exactly when the low byte of the result has an even number of ones.
pub parity-ones : (x : ℕ) → parity x ≡ (ones 8 (u8 x) % 2 == 0)
parity-ones x = parity-u8 x ∙ parity-byte (u8 x) (omega arith)
