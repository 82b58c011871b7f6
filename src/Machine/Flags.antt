-- ===== src/Machine/Flags.antt =====
-- The laws of the flag bits in EFLAGS: what `eflags |= mask` and `eflags &= ~mask` do to each bit.
use fake_kernel.Prelude.{ℕ, ◌≡◌, ◌≢◌, refl, Bool, true, false, arith, bit, not32, min, max, to_int}
use fake_kernel.Prelude.Bits.{bit-bit_or, bit-bit_and}
use fake_kernel.Machine.{Flag, cf, pf, zf, sf, of, flag_shift, flag_mask, change_flag}

change_flag-true :
    (f : Flag) (e k : ℕ) → bit (change_flag f true e) k ≡ max (bit e k) (bit (flag_mask f) k)
unfolding change_flag
change_flag-true f e k = bit-bit_or e (flag_mask f) k

change_flag-false :
    (f : Flag) (e k : ℕ)
    → bit (change_flag f false e) k ≡ min (bit e k) (bit (not32 (flag_mask f)) k)
unfolding change_flag
change_flag-false f e k = bit-bit_and e (not32 (flag_mask f)) k

-- The flag that is changed has the new value.
pub change_flag_self :
    (f : Flag) (b : Bool) (e : ℕ) → bit (change_flag f b e) (flag_shift f) ≡ to_int b
unfolding flag_mask
change_flag_self cf true e = omega (arith, change_flag-true cf e 0)
change_flag_self pf true e = omega (arith, change_flag-true pf e 2)
change_flag_self zf true e = omega (arith, change_flag-true zf e 6)
change_flag_self sf true e = omega (arith, change_flag-true sf e 7)
change_flag_self of true e = omega (arith, change_flag-true of e 11)
change_flag_self cf false e = omega (arith, change_flag-false cf e 0)
change_flag_self pf false e = omega (arith, change_flag-false pf e 2)
change_flag_self zf false e = omega (arith, change_flag-false zf e 6)
change_flag_self sf false e = omega (arith, change_flag-false sf e 7)
change_flag_self of false e = omega (arith, change_flag-false of e 11)

-- Every bit below 12 outside the mask stays.
change_flag-keeps :
    (f : Flag) (b : Bool) (e k : ℕ)
    → bit (flag_mask f) k ≡ 0
    → bit (not32 (flag_mask f)) k ≡ 1
    → bit (change_flag f b e) k ≡ bit e k
change_flag-keeps f true e k p q = omega (arith, change_flag-true f e k)
change_flag-keeps f false e k p q = omega (arith, change_flag-false f e k)

-- The other flags stay.
pub change_flag_other :
    (f g : Flag) (b : Bool) (e : ℕ)
    → f ≢ g
    → bit (change_flag f b e) (flag_shift g) ≡ bit e (flag_shift g)
unfolding flag_mask
change_flag_other cf cf b e ne = absurd (ne refl)
change_flag_other pf pf b e ne = absurd (ne refl)
change_flag_other zf zf b e ne = absurd (ne refl)
change_flag_other sf sf b e ne = absurd (ne refl)
change_flag_other of of b e ne = absurd (ne refl)
change_flag_other f g b e ne = change_flag-keeps f b e (flag_shift g) (omega arith) (omega arith)

-- The bit that x86 hardwires stays.
pub change_flag_reserved : (f : Flag) (b : Bool) (e : ℕ) → bit (change_flag f b e) 1 ≡ bit e 1
unfolding flag_mask
change_flag_reserved cf b e = change_flag-keeps cf b e 1 (omega arith) (omega arith)
change_flag_reserved f b e = change_flag-keeps f b e 1 (omega arith) (omega arith)
