-- ===== src/Cpu/Decode/Laws.antt =====
-- Reading a ModR/M operand and its address.
use fake_kernel.Prelude.{
  ℕ, ◌+◌, ◌*◌, ◌/◌, ◌%◌, ◌^◌, ◌<◌, ◌≡◌, arith, if◌then◌else◌, ◌==◌, not, ◌&&◌, ◌||◌, u32, add32,
}
use fake_kernel.Mem.{mem_read8}
use fake_kernel.Machine.{Machine, apply, apply_cpu}
use fake_kernel.Prog.{Host, run}
use fake_kernel.Prog.Valid.{Returns}
use fake_kernel.Cpu.Decode.{parse_modrm, parse_disp}

-- The number of bytes that follow the ModR/M byte, from the three fields of the manual's table.
abbrev pub operand_bytes : ℕ → ℕ → ℕ
operand_bytes mrm sib =
    let has_sib = not (mrm / 64 == 3) && mrm % 8 == 4 in
    (if has_sib then 1 else 0)
    + (if mrm / 64 == 1
        then 1
        else if mrm / 64 == 2
        then 4
        else if mrm / 64 == 0 && (mrm % 8 == 5 || (has_sib && sib % 8 == 5))
        then 4
        else 0)

-- `parse_modrm` moves EIP over the ModR/M byte and exactly the bytes that belong to it, changes
-- nothing else, and splits the byte into fields that give it back.
pub parse_modrm_lem :
    (host : Host) (s : Machine)
    → s.cpu.eip < 2 ^ 32
    → ((a : ℕ) → s.mem.byte a < 2 ^ 8)
    → (let mrm = mem_read8 s.cpu.eip s.mem in
        let sib = mem_read8 (add32 s.cpu.eip 1) s.mem in
        Returns
          (λ m t.
            (m.mode * 64 + m.reg * 8 + m.rm ≡ mrm)
            × (m.reg < 8)
            × (m.rm < 8)
            × ((if m.has_sib then m.sib_scale * 64 + m.sib_index * 8 + m.sib_base else sib) ≡ sib)
            × (t ≡ record s {
              cpu = record s.cpu { eip = u32 (s.cpu.eip + 1 + operand_bytes mrm sib) };
            }))
          (run host parse_modrm s))
unfolding run parse_modrm parse_disp apply apply_cpu mem_read8
parse_modrm_lem host s small bytes = ground (arith, bytes s.cpu.eip, bytes (add32 s.cpu.eip 1))
