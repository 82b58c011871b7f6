-- ===== src/Cpu/Add/Carry.antt =====
-- The carry of ADC and the borrow of SBB (0x19 and 0x1B, src/cpu/ops.c) against the exact sums.
use fake_kernel.Prelude.{
  ℕ, ◌+◌, ◌/◌, ◌%◌, ◌^◌, ◌<◌, ◌≤◌, ◌≡◌, ◌≢◌, refl, arith, Bool, true, false, if◌then◌else◌, ◌==◌,
  ◌>>>◌, to_int, u8, u32, ltb, leb, add32, sub32,
}
use fake_kernel.Mem.{mem_read8}
use fake_kernel.Machine.{Machine, cf, zf, apply, apply_cpu}
use fake_kernel.Machine.Valid.{IsMachine}
use fake_kernel.Prog.{Host, run}
use fake_kernel.Prog.Valid.{Returns}
use fake_kernel.Cpu.{flag, set_cf, set_zf, set_sf, set_pf, set_of_sub}
use fake_kernel.Cpu.Flags.{flag-change_flag}
use fake_kernel.Cpu.Decode.{parse_modrm, read_rm32, write_rm32}
use fake_kernel.Cpu.Add.{carry_adc, borrow_sbb, op_sbb_rm32_r32, op_sbb_r32_rm32}

-- The carry that ADD and ADC read off the wrapped result is the carry of the exact sum, at 32 bits.
pub carry_adc-u32 :
    (a b c : ℕ)
    → c ≤ 1
    → a < 2 ^ 32
    → b < 2 ^ 32
    → carry_adc a c (u32 (a + b + c)) ≡ leb (2 ^ 32) (a + b + c)
unfolding carry_adc
carry_adc-u32 a b c h p q = ground arith

-- The same at 8 bits.
pub carry_adc-u8 :
    (a b c : ℕ)
    → c ≤ 1
    → a < 2 ^ 8
    → b < 2 ^ 8
    → carry_adc a c (u8 (a + b + c)) ≡ leb (2 ^ 8) (a + b + c)
unfolding carry_adc
carry_adc-u8 a b c h p q = ground arith

-- The borrow of `a - b - c`, as 0x19 and 0x1B compute it, is that of the exact difference.
borrow_sbb_lem : (a b c : ℕ) → c ≤ 1 → a < 2 ^ 32 → b < 2 ^ 32 → borrow_sbb a b c ≡ ltb a (b + c)
unfolding borrow_sbb
borrow_sbb_lem a b c h p q = ground arith

difference :
    (a b c : ℕ)
    → c ≤ 1
    → a < 2 ^ 32
    → b < 2 ^ 32
    → u32 (sub32 (sub32 a b) c) + (b + c) ≡ (if ltb a (b + c) then a + 2 ^ 32 else a)
difference a b c h p q = ground arith

to_int-le : (b : Bool) → to_int b ≤ 1
to_int-le true = omega arith
to_int-le false = omega arith

-- A machine that has run `dst - src - CF` into register `dst`: CF, ZF and the result are those of
-- the exact difference, EIP is one further, the cycles two more, and outside EFLAGS nothing else has
-- changed.
abbrev pub Subtracts : ℕ → ℕ → Machine → Machine → Type 0
Subtracts dst src s t =
    let a = s.cpu.regs dst in
    let b = s.cpu.regs src + to_int (flag cf s.cpu.eflags) in
    (flag cf t.cpu.eflags ≡ ltb a b)
    × (flag zf t.cpu.eflags ≡ (t.cpu.regs dst == 0))
    × (t.cpu.regs dst + b ≡ (if ltb a b then a + 2 ^ 32 else a))
    × ((k : ℕ) → k ≢ dst → t.cpu.regs k ≡ s.cpu.regs k)
    × (t ≡ record s {
      cpu = record s.cpu {
        regs = t.cpu.regs;
        eip = add32 s.cpu.eip 1;
        eflags = t.cpu.eflags;
        cycles = u32 (s.cpu.cycles + 2);
      };
    })

-- SBB between registers, 0x19 and 0x1B with a ModR/M byte whose mode is 3: the destination takes
-- the difference of the two registers and CF modulo 2 ^ 32, CF says whether the exact difference is
-- negative and ZF whether the result is 0, EIP moves over the ModR/M byte, the cycles are two
-- more, and outside EFLAGS nothing else changes. The other bits of EFLAGS are left open.
pub op_sbb-Subtracts :
    (host : Host) (size : ℕ) (s : Machine)
    → IsMachine size s
    → mem_read8 s.cpu.eip s.mem / 2 ^ 6 ≡ 3
    → (let mrm = mem_read8 s.cpu.eip s.mem in
        let reg = mrm / 2 ^ 3 % 8 in
        let rm = mrm % 8 in
        Returns (λ _ t. Subtracts rm reg s t) (run host (op_sbb_rm32_r32 0x19) s)
        × Returns (λ _ t. Subtracts reg rm s t) (run host (op_sbb_r32_rm32 0x1b) s))
unfolding run op_sbb_rm32_r32 op_sbb_r32_rm32 parse_modrm read_rm32 write_rm32 apply apply_cpu
    set_cf set_zf set_sf set_pf set_of_sub
op_sbb-Subtracts host size s h direct =
    let mrm = mem_read8 s.cpu.eip s.mem in
    let mode : (mrm / 2 ^ 6 % 4 == 3) ≡ true = ground arith in
    let mode' : (mrm >>> 6) % 4 == 3 ≡ true = mode in
    let small = to_int-le (flag cf s.cpu.eflags) in
    let fits = h.cpu.regs_fit in
    let c = to_int (flag cf s.cpu.eflags) in
    let reg = s.cpu.regs (mrm / 2 ^ 3 % 8) in
    let rm = s.cpu.regs (mrm % 8) in
    let reg_fits : reg < 2 ^ 32 = fits (mrm / 2 ^ 3 % 8) in
    let rm_fits : rm < 2 ^ 32 = fits (mrm % 8) in
    let below = borrow_sbb_lem rm reg c small rm_fits reg_fits in
    let above = borrow_sbb_lem reg rm c small reg_fits rm_fits in
    (
      rw (Returns, mode', mode')
          (
            simp flag-change_flag below,
            simp flag-change_flag (ground arith),
            ground (arith, difference rm reg c small rm_fits reg_fits),
            λ k ne. ground arith,
            refl,
          ),
      rw (Returns, mode', mode')
          (
            simp flag-change_flag above,
            simp flag-change_flag (ground arith),
            ground (arith, difference reg rm c small reg_fits rm_fits),
            λ k ne. ground arith,
            refl,
          ),
    )
