-- ===== src/Cpu/Shift/Rotate.antt =====
-- ROL and ROR of 32 bits (src/cpu/ops.c) as inverses.
use fake_kernel.Prelude.{
  ℕ, zero, suc, ◌+◌, ◌-◌, ◌*◌, ◌/◌, ◌%◌, ◌^◌, ◌<◌, ◌≡◌, ◌≢◌, refl, arith, Bool, true, if◌then◌else◌,
  ◌&&◌, leb, ltb, bit_or, ◌<<<◌, ◌>>>◌, u32, has_bit, ◌∙◌,
}
use native.Mathlib.Nat.{
  mul_comm, mul_assoc, add-mul, mul-lt-mul_of_pos_right, mod-lt, mod-add-div', div-lt_iff_lt-mul,
  mul-add-div_right, div-eq_of_lt, mod-eq_of_lt, add-mul-mod_self_right, mul-add-mod_self_right,
  pow-succ', one-le-pow, zero-add, suc-add,
}
use mathlib.Core.Path.{ap, sym, subst}
use fake_kernel.Prelude.Bits.{bit_or_fields, bit_or_fields', bit_or_comm}
use fake_kernel.Machine.{Machine, cf, set_flag, apply, apply_cpu}
use fake_kernel.Prog.{Prog, ret, Host, run, ◌>>=◌, ◌>>◌}
use fake_kernel.Prog.Valid.{Returns}
use fake_kernel.Cpu.{put_reg, set_cf}
use fake_kernel.Cpu.Shift.{shift_32, shift_back, shift_up}

-- Numbers of two fields: a high one below `p` and a low one below `q`.
module _ (p q : ℕ) (some_p : 0 < p) (some_q : 0 < q) where
  swap_fields : (v : ℕ) → v * p % (p * q) ≡ v % q * p
  swap_fields v =
      let a = v / q in
      let b = v % q in
      let whole : b + a * q ≡ v = mod-add-div' v q in
      let moved : v * p ≡ b * p + a * (p * q) =
        ap (λ t. t * p) (sym whole)
        ∙ add-mul b (a * q) p
        ∙ ap (λ t. b * p + t) (mul_assoc a q p ∙ ap (λ t. a * t) (mul_comm q p)) in
      let room : b * p < q * p = mul-lt-mul_of_pos_right (mod-lt v some_q) some_p in
      let below : b * p < p * q = omega (arith, room, mul_comm q p) in
      ap (λ t. t % (p * q)) moved ∙ add-mul-mod_self_right (b * p) a (p * q) ∙ mod-eq_of_lt below

  high_below : (v : ℕ) → v < p * q → v / q < p
  high_below v small = (div-lt_iff_lt-mul some_q).1 small

  high_of : (a b : ℕ) → a < p → (b * p + a) / p ≡ b
  high_of a b small =
      mul-add-div_right some_p b a ∙ ap (λ t. b + t) (div-eq_of_lt small) ∙ omega arith

-- A power as a product of two.
two-pow-add : (c d : ℕ) → 2 ^ c * 2 ^ d ≡ 2 ^ (c + d)
two-pow-add zero d = omega arith ∙ ap (λ (t : ℕ). 2 ^ t) (sym (zero-add d))
two-pow-add (suc c) d =
    let step : 2 ^ suc c * 2 ^ d ≡ 2 * (2 ^ c * 2 ^ d) =
      ap (λ t. t * 2 ^ d) (pow-succ' 2 c) ∙ mul_assoc 2 (2 ^ c) (2 ^ d) in
    step
    ∙ ap (λ t. 2 * t) (two-pow-add c d)
    ∙ sym (pow-succ' 2 (c + d))
    ∙ ap (λ (t : ℕ). 2 ^ t) (sym (suc-add c d))

-- The results of ROL and ROR by a count from 1 to 31.
abbrev rol_value : ℕ → ℕ → ℕ
rol_value v c = bit_or (u32 (v <<< c)) (v >>> (32 - c))

abbrev ror_value : ℕ → ℕ → ℕ
ror_value v c = bit_or (v >>> c) (u32 (v <<< (32 - c)))

module _ (c : ℕ) (positive : 0 < c) (below : c < 32) where
  some_p : 0 < 2 ^ c
  some_p = one-le-pow c 2 (omega arith)

  some_q : 0 < 2 ^ (32 - c)
  some_q = one-le-pow (32 - c) 2 (omega arith)

  word : 2 ^ c * 2 ^ (32 - c) ≡ 2 ^ 32
  word =
      let sum : c + (32 - c) ≡ 32 = omega arith in
      two-pow-add c (32 - c) ∙ ap (λ (t : ℕ). 2 ^ t) sum

  high : (v : ℕ) → v < 2 ^ 32 → v / 2 ^ (32 - c) < 2 ^ c
  high v small =
      high_below (2 ^ c) (2 ^ (32 - c)) some_p some_q v (subst (λ t. v < t) (sym word) small)

  -- ROL swaps the two fields.
  rol_fields : (v : ℕ) → v < 2 ^ 32 → rol_value v c ≡ v % 2 ^ (32 - c) * 2 ^ c + v / 2 ^ (32 - c)
  rol_fields v small =
      let swapped : u32 (v <<< c) ≡ (v % 2 ^ (32 - c)) <<< c =
        ap (λ t. v * 2 ^ c % t) (sym word) ∙ swap_fields (2 ^ c) (2 ^ (32 - c)) some_p some_q v in
      ap (λ t. bit_or t (v >>> (32 - c))) swapped
      ∙ bit_or_fields c (v % 2 ^ (32 - c)) (v / 2 ^ (32 - c)) (high v small)

  -- ROR swaps them back.
  ror_fields :
      (a b : ℕ) → a < 2 ^ c → b < 2 ^ (32 - c) → ror_value (b * 2 ^ c + a) c ≡ a * 2 ^ (32 - c) + b
  ror_fields a b small_a small_b =
      let r = b * 2 ^ c + a in
      let low : r % 2 ^ c ≡ a = mul-add-mod_self_right b (2 ^ c) a ∙ mod-eq_of_lt small_a in
      let up : u32 (r <<< (32 - c)) ≡ a <<< (32 - c) =
        ap (λ t. r * 2 ^ (32 - c) % t) (sym word ∙ mul_comm (2 ^ c) (2 ^ (32 - c)))
        ∙ swap_fields (2 ^ (32 - c)) (2 ^ c) some_q some_p r
        ∙ ap (λ t. t * 2 ^ (32 - c)) low in
      ap (λ t. bit_or t (u32 (r <<< (32 - c))))
        (high_of (2 ^ c) (2 ^ (32 - c)) some_p some_q a b small_a)
      ∙ ap (λ t. bit_or b t) up
      ∙ bit_or_fields' (32 - c) a b small_b

  pub ror-rol : (v : ℕ) → v < 2 ^ 32 → ror_value (rol_value v c) c ≡ v
  ror-rol v small =
      ap (λ t. ror_value t c) (rol_fields v small)
      ∙ ror_fields (v / 2 ^ (32 - c)) (v % 2 ^ (32 - c)) (high v small) (mod-lt v some_q)
      ∙ omega (arith, mod-add-div' v (2 ^ (32 - c)))

-- ROR is ROL by the rest of the word.
ror_value-rol_value : (v c : ℕ) → c < 32 → ror_value v c ≡ rol_value v (32 - c)
ror_value-rol_value v c below =
    let back : c ≡ 32 - (32 - c) = omega arith in
    bit_or_comm (v >>> c) (u32 (v <<< (32 - c)))
    ∙ ap (λ t. bit_or (u32 (v <<< (32 - c))) (v >>> t)) back

rol-ror : (c v : ℕ) → 0 < c → c < 32 → v < 2 ^ 32 → rol_value (ror_value v c) c ≡ v
rol-ror c v positive below small =
    let d = 32 - c in
    let back : c ≡ 32 - d = omega arith in
    ap (λ t. rol_value t c) (ror_value-rol_value v c below)
    ∙ ap (λ t. rol_value (rol_value v d) t) back
    ∙ sym (ror_value-rol_value (rol_value v d) d (omega arith))
    ∙ ror-rol d (omega arith) (omega arith) v small

-- The two cases of the shift group, up to what is done with the result.
module _ (host : Host) (c v : ℕ) (finish : ℕ → Prog (Unit {0})) (s : Machine) (positive : 0 < c)
    (below : c < 32) where
  in_range : (leb c 32 && ltb (32 - c) 32) ≡ true
  in_range = ground arith

  pub rol-run :
      run host (shift_32 0 v c finish) s
      ≡ run host (finish (rol_value v c)) (apply (set_flag cf (has_bit (rol_value v c) 0)) s)
  unfolding shift_32 shift_back set_cf run
  rol-run =
      ap
        (λ (b : Bool).
          run host
            ((if b then ret (v >>> (32 - c)) else Prog.undefined) >>= λ back.
              set_cf (has_bit (bit_or (u32 (v <<< c)) back) 0)
              >> finish (bit_or (u32 (v <<< c)) back))
            s)
        in_range

  pub ror-run :
      run host (shift_32 1 v c finish) s
      ≡ run host (finish (ror_value v c)) (apply (set_flag cf (has_bit (ror_value v c) 31)) s)
  unfolding shift_32 shift_up set_cf run
  ror-run =
      ap
        (λ (b : Bool).
          run host
            ((if b then ret (u32 (v <<< (32 - c))) else Prog.undefined) >>= λ up.
              set_cf (has_bit (bit_or (v >>> c) up) 31) >> finish (bit_or (v >>> c) up))
            s)
        in_range

-- A value in one register and all others as in `s`.
abbrev pub Holding : ℕ → ℕ → Machine → Machine → Type 0
Holding i v s t = (t.cpu.regs i ≡ v) × ((j : ℕ) → j ≢ i → t.cpu.regs j ≡ s.cpu.regs j)

put-Holding :
    (host : Host) (i v w : ℕ) (s t : Machine)
    → v < 2 ^ 32
    → w ≡ v
    → ((j : ℕ) → t.cpu.regs j ≡ s.cpu.regs j)
    → Returns (λ _ u. Holding i v s u) (run host (put_reg i w) t)
unfolding run apply apply_cpu
put-Holding host i v w s t small e same =
    (ground (arith, e), λ j apart. ground (arith, apart, same j))

-- ROL of a 32-bit value by a count from 1 to 31 and then ROR by the same count, into a register, give
-- the value back, and so do ROR and then ROL. No other register changes.
pub rotates_lem :
    (host : Host) (c v : ℕ) (s : Machine) (i : ℕ)
    → 0 < c
    → c < 32
    → v < 2 ^ 32
    → Returns
        (λ _ t. Holding i v s t)
        (run host (shift_32 0 v c (λ r. shift_32 1 r c (put_reg i))) s)
      × Returns
          (λ _ t. Holding i v s t)
          (run host (shift_32 1 v c (λ r. shift_32 0 r c (put_reg i))) s)
unfolding apply apply_cpu
rotates_lem host c v s i positive below small = (
  subst (Returns (λ _ t. Holding i v s t))
      (sym (
        rol-run host c v (λ r. shift_32 1 r c (put_reg i)) s positive below
        ∙ ror-run host c (rol_value v c) (put_reg i) _ positive below))
      (put-Holding host i v _ s _ small (ror-rol c positive below v small) (λ j. refl)),
  subst (Returns (λ _ t. Holding i v s t))
      (sym (
        ror-run host c v (λ r. shift_32 0 r c (put_reg i)) s positive below
        ∙ rol-run host c (ror_value v c) (put_reg i) _ positive below))
      (put-Holding host i v _ s _ small (rol-ror c v positive below small) (λ j. refl)),
)
