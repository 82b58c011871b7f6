-- ===== src/Cpu/Add/Override.antt =====
-- An instruction that updates its operand in memory, under a segment override.
use fake_kernel.Prelude.{
  ℕ, ◌+◌, ◌/◌, ◌%◌, ◌^◌, ◌≤◌, ◌≡◌, ◌≢◌, refl, ap, ◌∙◌, inr, arith, true, false, ◌==◌, ◌>>>◌, u32,
  add32, leb,
}
use fake_kernel.Mem.{mem_read8, mem_read32, mem_write32}
use fake_kernel.Mem.Laws.{mem_read32-lt, read32-write32}
use fake_kernel.Machine.{Machine, cf, apply, apply_cpu}
use fake_kernel.Machine.Valid.{IsMachine}
use fake_kernel.Prog.{Host, run}
use fake_kernel.Prog.Valid.{Returns}
use fake_kernel.Cpu.{flag, set_cf, set_zf, set_sf, set_pf, set_of_add}
use fake_kernel.Cpu.Flags.{flag-change_flag}
use fake_kernel.Cpu.Decode.{
  parse_modrm, parse_disp, effective, resolve_rm_addr, read_rm32, write_rm32,
}
use fake_kernel.Mem.Blocks.{read32-write32_apart}
use fake_kernel.Cpu.Add.{op_add_rm32_r32}

-- ADD of a register to the dword at an address in a register, with a segment base of 4 or more and
-- both the address and the address plus the base in memory: the dword is read at the latter, but
-- the sum goes to the address alone, and the dword that was read stays. The carry is that of the
-- sum. The base is forgotten, and the registers stay.
pub op_add_rm32_r32-override :
    (host : Host) (size : ℕ) (s : Machine)
    → IsMachine size s
    → size ≤ 2 ^ 32
    → mem_read8 s.cpu.eip s.mem / 2 ^ 6 ≡ 0
    → mem_read8 s.cpu.eip s.mem % 8 ≢ 4
    → mem_read8 s.cpu.eip s.mem % 8 ≢ 5
    → 4 ≤ s.seg_override
    → s.cpu.regs (mem_read8 s.cpu.eip s.mem % 8) + s.seg_override + 4 ≤ size
    → (let mrm = mem_read8 s.cpu.eip s.mem in
        let addr = s.cpu.regs (mrm % 8) in
        let old = mem_read32 (addr + s.seg_override) s.mem in
        let sum = old + s.cpu.regs (mrm / 2 ^ 3 % 8) in
        Returns
          (λ _ t.
            (mem_read32 addr t.mem ≡ u32 sum)
            × (mem_read32 (addr + s.seg_override) t.mem ≡ old)
            × (flag cf t.cpu.eflags ≡ leb (2 ^ 32) sum)
            × (t.seg_override ≡ 0)
            × (t.cpu.regs ≡ s.cpu.regs))
          (run host (op_add_rm32_r32 0x01) s))
unfolding run op_add_rm32_r32 parse_modrm parse_disp effective resolve_rm_addr read_rm32 write_rm32
    apply apply_cpu set_cf set_zf set_sf set_pf set_of_add
op_add_rm32_r32-override host size s h total plain no_sib no_disp high inside =
    let mrm = mem_read8 s.cpu.eip s.mem in
    let addr = s.cpu.regs (mrm % 8) in
    let old = mem_read32 (addr + s.seg_override) s.mem in
    let reg = s.cpu.regs (mrm / 2 ^ 3 % 8) in
    let three : (mrm >>> 6) % 4 == 3 ≡ false = ground arith in
    let zero' : (mrm >>> 6) % 4 == 0 ≡ true = ground arith in
    let one : (mrm >>> 6) % 4 == 1 ≡ false = ground arith in
    let two : (mrm >>> 6) % 4 == 2 ≡ false = ground arith in
    let four : mrm % 8 == 4 ≡ false = ground (arith, no_sib) in
    let five : mrm % 8 == 5 ≡ false = ground (arith, no_disp) in
    let at : add32 addr s.seg_override ≡ addr + s.seg_override = omega arith in
    let at' : add32 addr 0 ≡ addr = omega arith in
    let size' = h.same_size in
    let v = add32 old reg in
    let fits = h.cpu.regs_fit (mrm / 2 ^ 3 % 8) in
    let small = mem_read32-lt (addr + s.seg_override) s.mem h.bytes in
    let cut : u32 v ≡ v = omega arith in
    rw (Returns, three, four, one, two, zero', five, three, zero', five, at, at')
      (
        ap (λ (x : ℕ). mem_read32 addr (mem_write32 addr x s.mem)) cut
            ∙ read32-write32 s.mem addr v (omega (arith, size')) (omega (arith, size'))
                (omega arith),
        read32-write32_apart s.mem (addr + s.seg_override) addr (u32 v) (inr (omega arith))
            (omega (arith, size')) (omega arith),
        simp flag-change_flag (ground arith),
        refl,
        refl,
      )
