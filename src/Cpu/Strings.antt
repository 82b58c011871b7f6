-- ===== src/Cpu/Strings.antt =====
-- The string instructions and their REP loops (src/cpu/ops.c).
pub mod Laws
pub mod Scan
pub mod Copy
use fake_kernel.Prelude.{
  ℕ, zero, suc, ◌+◌, ◌-◌, ◌*◌, ◌/◌, ◌%◌, ◌^◌, Bool, true, false, if◌then◌else◌, ltb, leb, ◌==◌, not,
  ◌&&◌, ◌||◌, differs, bit_and, bit_or, bit_xor, ◌<<<◌, ◌>>>◌, u8, u16, u32, u64, add32, sub8,
  sub16, sub32, not8, not32, sext8, sext16, has_bit, bit, to_int, Option, none, some,
}
use fake_kernel.Machine.{
  Machine, XmmReg, cf, pf, zf, sf, of, reg_eax, reg_ecx, reg_edx, reg_ebx, reg_esp, reg_ebp,
  reg_esi, reg_edi, set_seg_override, set_operand_size_16, set_mmx, set_xmm, set_fpu, set_fpu_top,
}
use fake_kernel.Prog.{Prog, ret, undefined, out_of_fuel, gets, assign, ◌>>=◌, ◌>>◌}
use fake_kernel.Cpu.{
  get_reg, put_reg, get_eip, put_eip, cycles, stop, read8, read16, read32, store8, store16, store32,
  fetch8, fetch16, fetch32, set_cf, set_pf, set_zf, set_sf, set_of_add, set_of_sub, get_flag,
  get_reg8, set_reg8,
}
use fake_kernel.Cpu.Decode.{
  ModRm, parse_modrm, resolve_rm_addr, read_rm8, write_rm8, read_rm16, write_rm16, read_rm32,
  write_rm32, put_reg16, read64, store64, read_xmm_src, write_xmm_dst,
}

-- One round of MOVSB, MOVSD, STOSB and STOSD.
unfoldable pub movsb_once : Prog (Unit {0})
movsb_once = do
  esi ← get_reg reg_esi
  val ← read8 esi
  edi ← get_reg reg_edi
  store8 edi val
  put_reg reg_esi (esi + 1)
  put_reg reg_edi (edi + 1)

unfoldable pub movsd_once : Prog (Unit {0})
movsd_once = do
  esi ← get_reg reg_esi
  val ← read32 esi
  edi ← get_reg reg_edi
  store32 edi val
  put_reg reg_esi (esi + 4)
  put_reg reg_edi (edi + 4)

unfoldable pub stosb_once : Prog (Unit {0})
stosb_once = do
  edi ← get_reg reg_edi
  eax ← get_reg reg_eax
  store8 edi eax
  put_reg reg_edi (edi + 1)

unfoldable pub stosd_once : Prog (Unit {0})
stosd_once = do
  edi ← get_reg reg_edi
  eax ← get_reg reg_eax
  store32 edi eax
  put_reg reg_edi (edi + 4)

-- Flags of a comparison of bytes; PF is not touched.
unfoldable pub compare_bytes : ℕ → ℕ → Prog (Unit {0})
compare_bytes a b = do
  let result = sub8 a b
  set_cf (ltb a b)
  set_zf result
  set_sf result
  set_of_sub a b result

-- 0xA4
unfoldable pub op_movsb : ℕ → Prog (Unit {0})
op_movsb op = do movsb_once; cycles 2

-- 0xA5
unfoldable pub op_movsd : ℕ → Prog (Unit {0})
op_movsd op = do movsd_once; cycles 2

-- 0xA6
unfoldable pub op_cmpsb : ℕ → Prog (Unit {0})
op_cmpsb op = do
  esi ← get_reg reg_esi
  put_reg reg_esi (esi + 1)
  a ← read8 esi
  edi ← get_reg reg_edi
  put_reg reg_edi (edi + 1)
  b ← read8 edi
  compare_bytes a b
  cycles 2

-- 0xAA
unfoldable pub op_stosb : ℕ → Prog (Unit {0})
op_stosb op = do stosb_once; cycles 2

-- 0xAB
unfoldable pub op_stosd : ℕ → Prog (Unit {0})
op_stosd op = do stosd_once; cycles 2

-- 0xAE
unfoldable pub op_scasb : ℕ → Prog (Unit {0})
op_scasb op = do
  eax ← get_reg reg_eax
  edi ← get_reg reg_edi
  b ← read8 edi
  put_reg reg_edi (edi + 1)
  compare_bytes (u8 eax) b
  cycles 2

-- `while (cpu->regs[REG_ECX] > 0) { …; cpu->regs[REG_ECX]--; }` with fuel for the rounds.
unfoldable pub rep_loop : Prog (Unit {0}) → ℕ → Prog (Unit {0})
rep_loop once zero = out_of_fuel
rep_loop once (suc fuel) = do
  ecx ← get_reg reg_ecx
  if ecx == 0
      then ret tt
      else do once; left ← get_reg reg_ecx; put_reg reg_ecx (sub32 left 1); rep_loop once fuel

-- A case of `op_rep`: the loop, given one round more than ECX counts.
unfoldable pub rep_case : Prog (Unit {0}) → Prog (Unit {0})
rep_case once = do count ← get_reg reg_ecx; rep_loop once (count + 1); cycles (count + 1)

-- The loop of REPNE SCASB.
unfoldable pub scasb_loop : ℕ → Prog (Unit {0})
scasb_loop zero = out_of_fuel
scasb_loop (suc fuel) = do
  ecx ← get_reg reg_ecx
  if ecx == 0 then ret tt else do
    eax ← get_reg reg_eax
    edi ← get_reg reg_edi
    b ← read8 edi
    put_reg reg_edi (edi + 1)
    put_reg reg_ecx (sub32 ecx 1)
    compare_bytes (u8 eax) b
    found ← get_flag zf
    if found then ret tt else scasb_loop fuel

-- 0xF2 0xAE
unfoldable pub repne_scasb : Prog (Unit {0})
repne_scasb = do
  count ← get_reg reg_ecx
  scasb_loop (count + 1)
  left ← get_reg reg_ecx
  cycles (left + 1)
