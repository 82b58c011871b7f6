-- ===== src/Cpu/Shift.antt =====
-- The shift groups 0xC0, 0xC1 and 0xD0 to 0xD3, and SHLD (src/cpu/ops.c).
pub mod Rotate
use fake_kernel.Prelude.{
  ℕ, ◌-◌, ◌%◌, ◌^◌, Bool, false, if◌then◌else◌, ltb, leb, ◌==◌, ◌&&◌, ◌||◌, bit_or, ◌<<<◌, ◌>>>◌,
  u8, u32, not32, sext8, has_bit,
}
use fake_kernel.Machine.{reg_ecx}
use fake_kernel.Prog.{Prog, ret, undefined, ◌>>=◌, ◌>>◌}
use fake_kernel.Cpu.{get_reg, cycles, stop, fetch8, set_cf, set_pf, set_zf, set_sf, set_of_sub}
use fake_kernel.Cpu.Decode.{ModRm, parse_modrm, read_rm8, write_rm8, read_rm32, write_rm32}

-- `val >> (width - count)` on a promoted value: C leaves it undefined where the distance is
-- negative or 32.
unfoldable pub shift_back : ℕ → ℕ → ℕ → Prog ℕ
shift_back val width count =
    if leb count width && ltb (width - count) 32 then ret (val >>> (width - count)) else undefined

-- `val << (width - count)`, cut to 32 bits, under the same condition.
unfoldable pub shift_up : ℕ → ℕ → ℕ → Prog ℕ
shift_up val width count =
    if leb count width && ltb (width - count) 32
    then ret (u32 (val <<< (width - count)))
    else undefined

-- `(int32_t)val >> count`.
unfoldable pub sar32 : ℕ → ℕ → ℕ
sar32 val count = if has_bit val 31 then not32 (not32 val >>> count) else val >>> count

-- The bit that leaves on the right, `count ? (val >> (count - 1)) & 1 : 0`.
unfoldable pub last_out : ℕ → ℕ → Bool
last_out val count = if count == 0 then false else has_bit val (count - 1)

-- The bit that leaves on the left, `count ? (val >> (width - count)) & 1 : 0`.
unfoldable pub first_out : ℕ → ℕ → ℕ → Prog Bool
first_out val width count =
    if count == 0 then ret false else do v ← shift_back val width count; ret (has_bit v 0)

-- The switch of `op_c0_group` and `op_d2_group`, up to its result.
unfoldable pub shift_8 : ℕ → ℕ → ℕ → (ℕ → Prog (Unit {0})) → Prog (Unit {0})
shift_8 reg val count finish =
    let rol = (do
      back ← shift_back val 8 count
      let result = u8 (bit_or (val <<< count) back)
      set_cf (has_bit result 0)
      finish result) in
    let ror = (do
      up ← shift_up val 8 count
      let result = u8 (bit_or (val >>> count) up)
      set_cf (has_bit result 7)
      finish result) in
    let shl = (do
      let result = u8 (val <<< count)
      out ← first_out val 8 count
      set_cf out
      set_zf result
      set_sf result
      finish result) in
    let shift_right = λ (result : ℕ). (do
      set_cf (last_out val count)
      set_zf result
      set_sf result
      finish result) in
    if reg == 0
    then rol
    else if reg == 1
    then ror
    else if reg == 4 || reg == 6
    then shl
    else if reg == 5
    then shift_right (val >>> count)
    else if reg == 7
    then shift_right (u8 (sar32 (sext8 val) count))
    else stop

-- The switch of `op_c1_group` and `op_d3_group`.
unfoldable pub shift_32 : ℕ → ℕ → ℕ → (ℕ → Prog (Unit {0})) → Prog (Unit {0})
shift_32 reg val count finish =
    let rol = (do
      back ← shift_back val 32 count
      let result = bit_or (u32 (val <<< count)) back
      set_cf (has_bit result 0)
      finish result) in
    let ror = (do
      up ← shift_up val 32 count
      let result = bit_or (val >>> count) up
      set_cf (has_bit result 31)
      finish result) in
    let shl = (do
      let result = u32 (val <<< count)
      out ← first_out val 32 count
      set_cf out
      set_zf result
      set_sf result
      finish result) in
    let shift_right = λ (result : ℕ). (do
      set_cf (last_out val count)
      set_zf result
      set_sf result
      finish result) in
    if reg == 0
    then rol
    else if reg == 1
    then ror
    else if reg == 4 || reg == 6
    then shl
    else if reg == 5
    then shift_right (val >>> count)
    else if reg == 7
    then shift_right (sar32 val count)
    else stop

abbrev finish_8 : ModRm → ℕ → Prog (Unit {0})
finish_8 mrm result = do write_rm8 mrm result; set_pf result; cycles 2

abbrev finish_32 : ModRm → ℕ → Prog (Unit {0})
finish_32 mrm result = do write_rm32 mrm result; cycles 2

unfoldable pub op_c0_group : ℕ → Prog (Unit {0})
op_c0_group op = do
  mrm ← parse_modrm
  imm ← fetch8
  val ← read_rm8 mrm
  shift_8 mrm.reg val (imm % 32) (finish_8 mrm)

unfoldable pub op_c1_group : ℕ → Prog (Unit {0})
op_c1_group op = do
  mrm ← parse_modrm
  imm ← fetch8
  val ← read_rm32 mrm
  shift_32 mrm.reg val (imm % 32) (finish_32 mrm)

unfoldable pub op_d2_group : ℕ → Prog (Unit {0})
op_d2_group op = do
  mrm ← parse_modrm
  ecx ← get_reg reg_ecx
  val ← read_rm8 mrm
  shift_8 mrm.reg val (ecx % 32) (finish_8 mrm)

unfoldable pub op_d3_group : ℕ → Prog (Unit {0})
op_d3_group op = do
  mrm ← parse_modrm
  ecx ← get_reg reg_ecx
  val ← read_rm32 mrm
  shift_32 mrm.reg val (ecx % 32) (finish_32 mrm)

-- The shifts by 1, with the top bit `width - 1`.
unfoldable pub shift_one : ℕ → ℕ → ℕ → (ℕ → Prog (Unit {0})) → Prog (Unit {0})
shift_one width reg val finish =
    let left = val <<< 1 % 2 ^ width in
    let rol = (do
      let result = bit_or left (val >>> (width - 1))
      set_cf (has_bit result 0)
      finish result) in
    let ror = (do
      let result = bit_or (val >>> 1) (val <<< (width - 1) % 2 ^ width)
      set_cf (has_bit result (width - 1))
      finish result) in
    let shl = (do set_cf (has_bit val (width - 1)); set_zf left; set_sf left; finish left) in
    let shift_right =
      λ (result : ℕ). (do set_cf (has_bit val 0); set_zf result; set_sf result; finish result) in
    if reg == 0
    then rol
    else if reg == 1
    then ror
    else if reg == 4 || reg == 6
    then shl
    else if reg == 5
    then shift_right (val >>> 1)
    else if reg == 7
    then shift_right (if width == 8 then u8 (sar32 (sext8 val) 1) else sar32 val 1)
    else stop

unfoldable pub op_d0_group : ℕ → Prog (Unit {0})
op_d0_group op = do mrm ← parse_modrm; val ← read_rm8 mrm; shift_one 8 mrm.reg val (finish_8 mrm)

unfoldable pub op_d1_group : ℕ → Prog (Unit {0})
op_d1_group op = do mrm ← parse_modrm; val ← read_rm32 mrm; shift_one 32 mrm.reg val (finish_32 mrm)

-- 0x0F 0xA4
unfoldable pub op_shld_rm32_r32_imm8 : ℕ → Prog (Unit {0})
op_shld_rm32_r32_imm8 op = do
  mrm ← parse_modrm
  imm ← fetch8
  let count = imm % 32
  dst ← read_rm32 mrm
  src ← get_reg mrm.reg
  let result = bit_or (u32 (dst <<< count)) (src >>> (32 - count))
  if count == 0 then ret tt else do
    write_rm32 mrm result
    set_cf (has_bit dst (32 - count))
    set_zf result
    set_sf result
    set_pf result
    set_of_sub dst src result
    cycles 3
