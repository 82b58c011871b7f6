-- ===== src/Cpu/Group.antt =====
-- The immediate groups 0x80, 0x81 and 0x83 (src/cpu/ops.c).
use fake_kernel.Prelude.{
  ℕ, ◌+◌, false, if◌then◌else◌, ltb, ◌==◌, bit_and, bit_or, bit_xor, ◌<<<◌, u8, u16, u32, add32,
  sub8, sub16, sub32, sext8, to_int,
}
use fake_kernel.Machine.{cf}
use fake_kernel.Prog.{Prog, gets, ◌>>=◌, ◌>>◌}
use fake_kernel.Cpu.{
  cycles, stop, fetch8, fetch16, fetch32, set_cf, set_pf, set_zf, set_sf, set_of_add, set_of_sub,
  get_flag,
}
use fake_kernel.Cpu.Decode.{
  ModRm, parse_modrm, read_rm8, write_rm8, read_rm16, write_rm16, read_rm32, write_rm32,
}

-- Each case of `switch (mrm.reg)` goes on to the code behind the switch, `finish`, or returns.
unfoldable pub group_80 : ℕ → ℕ → ℕ → (ℕ → Prog (Unit {0})) → Prog (Unit {0})
group_80 reg a imm finish =
    let added = u8 (a + imm) in
    let less = sub8 a imm in
    let add = (do set_cf (ltb added a); set_of_add a imm added; finish added) in
    let subtract = (do set_cf (ltb a imm); set_of_sub a imm less; finish less) in
    let compare = (do
      set_cf (ltb a imm)
      set_of_sub a imm less
      set_zf less
      set_sf less
      set_pf less
      cycles 2) in
    if reg == 0
    then add
    else if reg == 1
    then (do set_cf false; finish (bit_or a imm))
    else if reg == 2
    then add
    else if reg == 3
    then subtract
    else if reg == 4
    then (do set_cf false; finish (bit_and a imm))
    else if reg == 5
    then subtract
    else if reg == 6
    then (do set_cf false; finish (bit_xor a imm))
    else if reg == 7
    then compare
    else stop

unfoldable pub op_80_group : ℕ → Prog (Unit {0})
op_80_group op = do
  mrm ← parse_modrm
  imm ← fetch8
  a ← read_rm8 mrm
  group_80 mrm.reg a imm
      λ result. do write_rm8 mrm result; set_zf result; set_sf result; set_pf result; cycles 2

-- The 16-bit switch of `op_81` and `op_83`.
unfoldable pub group_16 : ℕ → ℕ → ℕ → (ℕ → Prog (Unit {0})) → Prog (Unit {0})
group_16 reg a imm finish =
    let less = sub16 a imm in
    let compare = (do set_cf (ltb a imm); set_zf less; set_sf (u32 (less <<< 16)); cycles 2) in
    if reg == 0
    then finish (u16 (a + imm))
    else if reg == 1
    then finish (bit_or a imm)
    else if reg == 4
    then finish (bit_and a imm)
    else if reg == 5
    then finish less
    else if reg == 6
    then finish (bit_xor a imm)
    else if reg == 7
    then compare
    else stop

-- What follows it.
unfoldable pub finish_16 : ModRm → ℕ → Prog (Unit {0})
finish_16 mrm result = do
  write_rm16 mrm result
  set_zf result
  set_sf (u32 (result <<< 16))
  cycles 2

unfoldable pub finish_32 : ℕ → Prog (Unit {0})
finish_32 result = do set_zf result; set_sf result; cycles 2

-- The 32-bit switch of `op_81`.
unfoldable pub group_81 : ModRm → ℕ → ℕ → Prog (Unit {0})
group_81 mrm a imm =
    let added = add32 a imm in
    let less = sub32 a imm in
    let logic = λ (v : ℕ). (do write_rm32 mrm v; set_cf false; finish_32 v) in
    let add = (do
      write_rm32 mrm added
      set_cf (ltb added a)
      set_of_add a imm added
      finish_32 added) in
    let subtract = (do
      write_rm32 mrm less
      set_cf (ltb a imm)
      set_of_sub a imm less
      finish_32 less) in
    let compare = (do set_cf (ltb a imm); set_of_sub a imm less; finish_32 less) in
    if mrm.reg == 0
    then add
    else if mrm.reg == 1
    then logic (bit_or a imm)
    else if mrm.reg == 4
    then logic (bit_and a imm)
    else if mrm.reg == 5
    then subtract
    else if mrm.reg == 6
    then logic (bit_xor a imm)
    else if mrm.reg == 7
    then compare
    else stop

unfoldable pub op_81 : ℕ → Prog (Unit {0})
op_81 op = do
  mrm ← parse_modrm
  small ← gets (λ s. s.operand_size_16)
  if small
      then (do imm ← fetch16; a ← read_rm16 mrm; group_16 mrm.reg a imm (finish_16 mrm))
      else (do imm ← fetch32; a ← read_rm32 mrm; group_81 mrm a imm)

-- The two cases that only 0x83 has; `get_cf` is read anew after `set_cf` has not yet run.
unfoldable pub group_83 : ModRm → ℕ → ℕ → Prog (Unit {0})
group_83 mrm a imm =
    let adc = (do
      carry ← get_flag cf
      let result = u32 (a + imm + to_int carry)
      write_rm32 mrm result
      set_cf (ltb result a)
      set_of_add a imm result
      finish_32 result) in
    let sbb = (do
      carry ← get_flag cf
      let result = sub32 (sub32 a imm) (to_int carry)
      write_rm32 mrm result
      set_cf (ltb a (add32 imm (to_int carry)))
      set_of_sub a imm result
      finish_32 result) in
    if mrm.reg == 2 then adc else if mrm.reg == 3 then sbb else group_81 mrm a imm

unfoldable pub op_83 : ℕ → Prog (Unit {0})
op_83 op = do
  mrm ← parse_modrm
  raw ← fetch8
  small ← gets (λ s. s.operand_size_16)
  if small
      then (do a ← read_rm16 mrm; group_16 mrm.reg a (u16 (sext8 raw)) (finish_16 mrm))
      else (do a ← read_rm32 mrm; group_83 mrm a (sext8 raw))
