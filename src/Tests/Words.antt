-- ===== src/Tests/Words.antt =====
-- Words, flags, operands and memory at concrete inputs.
use fake_kernel.Prelude.{
  ◌+◌, ◌*◌, ◌<◌, ◌≡◌, ◌≢◌, ◌/◌, ◌^◌, ℕ, leb, ◌↔◌, refl, arith, false, if◌then◌else◌, ◌==◌, u8, u32,
  add32, sub32, ◌%◌,
}
use fake_kernel.Prelude.Int.{signed32, ◌+ℤ◌, ◌-ℤ◌, FitsInt32, pos}
use fake_kernel.Mem.{check_bounds, mem_read8, mem_read32, mem_write32}
use fake_kernel.Mem.Laws.{read32-write32}
use fake_kernel.Machine.Valid.{IsMachine}
use fake_kernel.Prog.{run, ◌>>◌}
use fake_kernel.Prog.Valid.{Returns}
use fake_kernel.Cpu.{flag, parity, overflow_add, overflow_sub, get_reg8, set_reg8}
use fake_kernel.Cpu.Flags.{parity-ones, ones}
use fake_kernel.Cpu.Overflow.{overflow_add-signed, overflow_sub-signed}
use fake_kernel.Cpu.Add.{op_add_rm32_r32, op_sbb_rm32_r32, op_sbb_r32_rm32}
use fake_kernel.Cpu.Add.Carry.{Subtracts, op_sbb-Subtracts}
use fake_kernel.Cpu.Add.Override.{op_add_rm32_r32-override}
use fake_kernel.Machine.{Machine, cf}
use fake_kernel.Cpu.Registers.{byte_of, get_reg8-set_reg8}
use fake_kernel.Cpu.Decode.{parse_modrm}
use fake_kernel.Cpu.Decode.Laws.{operand_bytes, parse_modrm_lem}
use fake_kernel.Tests.{demo, demo_cpu, demo_at, demo_memory, demo_host, demo_at-IsMachine}

demo-IsMachine : IsMachine 0x40_0000 demo
demo-IsMachine = demo_at-IsMachine 0x100 (omega arith)

-- The ModR/M byte 0x54 with a SIB byte and an 8-bit displacement.
parse_modrm_lem_example :
    (let s = demo_at 0x300 in
      let mrm = mem_read8 s.cpu.eip s.mem in
      let sib = mem_read8 (add32 s.cpu.eip 1) s.mem in
      Returns
        (λ m t.
          (m.mode * 64 + m.reg * 8 + m.rm ≡ mrm)
          × (m.reg < 8)
          × (m.rm < 8)
          × ((if m.has_sib then m.sib_scale * 64 + m.sib_index * 8 + m.sib_base else sib) ≡ sib)
          × (t ≡ record s {
            cpu = record s.cpu { eip = u32 (s.cpu.eip + 1 + operand_bytes mrm sib) };
          }))
        (run demo_host parse_modrm s))
parse_modrm_lem_example =
    parse_modrm_lem demo_host (demo_at 0x300) (omega arith)
      (demo_at-IsMachine 0x300 (omega arith)).bytes

-- The least number minus 1.
overflow_sub-signed_example :
    (overflow_sub 0x8000_0000 1 (sub32 (sub32 0x8000_0000 1) 0) ≡ false)
    ↔ FitsInt32 (signed32 0x8000_0000 -ℤ signed32 1 -ℤ pos 0)
overflow_sub-signed_example =
    overflow_sub-signed 0x8000_0000 1 0 (omega arith) (omega arith) (omega arith)

-- The greatest number plus 1 plus a carry.
overflow_add-signed_example :
    (overflow_add 0x7fff_ffff 1 (u32 (0x7fff_ffff + 1 + 1)) ≡ false)
    ↔ FitsInt32 (signed32 0x7fff_ffff +ℤ signed32 1 +ℤ pos 1)
overflow_add-signed_example =
    overflow_add-signed 0x7fff_ffff 1 1 (omega arith) (omega arith) (omega arith)

parity-ones_example : parity 0x173 ≡ (ones 8 (u8 0x173) % 2 == 0)
parity-ones_example = parity-ones 0x173

-- AH set and AL read.
get_reg8-set_reg8_example :
    Returns
      (λ v t.
        (v ≡ (if 4 == 0 then 0x7f else byte_of demo.cpu.regs 0))
        × (t.cpu.regs (4 % 4) / 2 ^ 16 ≡ demo.cpu.regs (4 % 4) / 2 ^ 16)
        × ((k : ℕ) → k ≢ 4 % 4 → t.cpu.regs k ≡ demo.cpu.regs k)
        × (t ≡ record demo { cpu = record demo.cpu { regs = t.cpu.regs } }))
      (run demo_host (set_reg8 4 0x7f >> get_reg8 0) demo)
get_reg8-set_reg8_example =
    get_reg8-set_reg8 demo_host 4 0 0x7f demo demo-IsMachine.cpu.regs_fit (omega arith)
      (omega arith) (omega arith)

read32-write32_example : mem_read32 0x500 (mem_write32 0x500 0xdead_beef demo_memory) ≡ 0xdead_beef
read32-write32_example =
    read32-write32 demo_memory 0x500 0xdead_beef (omega arith) (omega arith) (omega arith)

-- SBB between ESP and ESI in both directions, with a borrow to take in.
abbrev borrowing : Machine
borrowing = record (demo_at 0x200) { cpu = record (demo_cpu 0x200) { eflags = 3 } }

borrowing-IsMachine : IsMachine 0x40_0000 borrowing
borrowing-IsMachine =
    let h = demo_at-IsMachine 0x200 (omega arith) in
    record {
      cpu = record {
        regs_fit = h.cpu.regs_fit;
        eip_fits = h.cpu.eip_fits;
        reserved = refl;
        cycles_fit = h.cpu.cycles_fit;
      };
      bytes = h.bytes;
      same_size = refl;
      top = h.top;
    }

op_sbb-Subtracts_example :
    Returns (λ _ t. Subtracts 4 6 borrowing t) (run demo_host (op_sbb_rm32_r32 0x19) borrowing)
    × Returns (λ _ t. Subtracts 6 4 borrowing t) (run demo_host (op_sbb_r32_rm32 0x1b) borrowing)
unfolding mem_read8 check_bounds
op_sbb-Subtracts_example = op_sbb-Subtracts demo_host 0x40_0000 borrowing borrowing-IsMachine refl

-- ADD [EAX], EAX with EAX 10 and a segment base of 0xF6, so that the operand is the 5 at 0x100.
abbrev based : Machine
based = record (demo_at 0x500) { seg_override = 0xf6 }

based-IsMachine : IsMachine 0x40_0000 based
based-IsMachine =
    let h = demo_at-IsMachine 0x500 (omega arith) in
    record { cpu = h.cpu; bytes = h.bytes; same_size = refl; top = h.top }

op_add_rm32_r32-override_example :
    Returns
      (λ _ t.
        (mem_read32 10 t.mem ≡ u32 (mem_read32 0x100 demo_memory + 10))
        × (mem_read32 0x100 t.mem ≡ mem_read32 0x100 demo_memory)
        × (flag cf t.cpu.eflags ≡ leb (2 ^ 32) (mem_read32 0x100 demo_memory + 10))
        × (t.seg_override ≡ 0)
        × (t.cpu.regs ≡ based.cpu.regs))
      (run demo_host (op_add_rm32_r32 0x01) based)
unfolding mem_read8 check_bounds
op_add_rm32_r32-override_example =
    op_add_rm32_r32-override demo_host 0x40_0000 based based-IsMachine (omega arith) refl
      (omega arith) (omega arith) (omega arith) (omega arith)
