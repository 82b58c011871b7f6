-- ===== src/Cpu/Decode.antt =====
-- The ModR/M byte: decoding, effective addresses and the operands of each width
-- (src/cpu/cpu.h `ModRM`, src/cpu/ops.c `parse_modrm` to `write_xmm_dst`).
pub mod Laws
use fake_kernel.Prelude.{
  ℕ, ◌+◌, ◌-◌, ◌*◌, ◌%◌, Bool, true, false, if◌then◌else◌, ltb, leb, ◌==◌, not, ◌&&◌, ◌||◌, bit_and,
  bit_or, ◌<<<◌, ◌>>>◌, u8, u16, u32, add32, sext8,
}
use fake_kernel.Machine.{Machine, XmmReg, set_seg_override, set_xmm}
use fake_kernel.Prog.{Prog, ret, gets, assign, ◌>>=◌, ◌>>◌}
use fake_kernel.Cpu.{
  get_reg, put_reg, fetch8, fetch32, read8, read16, read32, store8, store16, store32, get_reg8,
  set_reg8,
}

-- `mode` is the field `mod`. The SIB fields are 0 where the source leaves them unset.
pub record ModRm : Type 0 where
  pub mode : ℕ
  pub reg : ℕ
  pub rm : ℕ
  pub has_sib : Bool
  pub has_disp : Bool
  pub disp : ℕ
  pub sib_base : ℕ
  pub sib_index : ℕ
  pub sib_scale : ℕ

-- The fields of the ModR/M byte alone, with the SIB byte if there is one.
abbrev pub modrm_fields : ℕ → Bool → ℕ → ModRm
modrm_fields mrm has_sib sib = record {
  mode = (mrm >>> 6) % 4;
  reg = (mrm >>> 3) % 8;
  rm = mrm % 8;
  has_sib = has_sib;
  has_disp = false;
  disp = 0;
  sib_base = sib % 8;
  sib_index = (sib >>> 3) % 8;
  sib_scale = (sib >>> 6) % 4;
}

abbrev pub with_disp : ModRm → ℕ → ModRm
with_disp m d = record m { has_disp = true; disp = d }

-- The displacement that follows, by `mod`.
unfoldable pub parse_disp : ModRm → Prog ModRm
parse_disp m =
    if m.mode == 1
    then (do b ← fetch8; ret (with_disp m (sext8 b)))
    else if m.mode == 2
    then (do d ← fetch32; ret (with_disp m d))
    else if m.mode == 0 && (m.rm == 5 || (m.has_sib && m.sib_base == 5))
    then (do d ← fetch32; ret (with_disp m d))
    else ret m

unfoldable pub parse_modrm : Prog ModRm
unfolding parse_disp
parse_modrm = do
  mrm ← fetch8
  if (mrm >>> 6) % 4 == 3
      then ret (modrm_fields mrm false 0)
      else if mrm % 8 == 4
      then (do sib ← fetch8; parse_disp (modrm_fields mrm true sib))
      else parse_disp (modrm_fields mrm false 0)

-- The address without the segment base.
unfoldable pub effective : ModRm → (ℕ → ℕ) → ℕ
effective m regs =
    let addr =
      if m.has_sib
      then add32 (if m.sib_base == 5 && m.mode == 0 then 0 else regs m.sib_base)
          (if m.sib_index == 4 then 0 else u32 (regs m.sib_index <<< m.sib_scale))
      else if m.mode == 0 && m.rm == 5
      then 0
      else regs m.rm in
    if m.has_disp then add32 addr m.disp else addr

-- The segment base is used once and forgotten.
unfoldable pub resolve_rm_addr : ModRm → Prog ℕ
unfolding effective
resolve_rm_addr m = if m.mode == 3 then ret 0 else do
  addr ← gets (λ s. add32 (effective m s.cpu.regs) s.seg_override)
  assign (set_seg_override 0)
  ret addr

unfoldable pub read_rm32 : ModRm → Prog ℕ
unfolding resolve_rm_addr
read_rm32 m = if m.mode == 3 then get_reg m.rm else do a ← resolve_rm_addr m; read32 a

unfoldable pub write_rm32 : ModRm → ℕ → Prog (Unit {0})
unfolding resolve_rm_addr
write_rm32 m val = if m.mode == 3 then put_reg m.rm val else do a ← resolve_rm_addr m; store32 a val

-- The operands of 8 and 16 bits, which the handlers spell out where they use them.
unfoldable pub read_rm8 : ModRm → Prog ℕ
unfolding resolve_rm_addr get_reg8
read_rm8 m = if m.mode == 3 then get_reg8 m.rm else do a ← resolve_rm_addr m; read8 a

unfoldable pub write_rm8 : ModRm → ℕ → Prog (Unit {0})
unfolding resolve_rm_addr set_reg8
write_rm8 m val = if m.mode == 3 then set_reg8 m.rm val else do a ← resolve_rm_addr m; store8 a val

unfoldable pub read_rm16 : ModRm → Prog ℕ
unfolding resolve_rm_addr
read_rm16 m =
    if m.mode == 3 then (do v ← get_reg m.rm; ret (u16 v)) else do a ← resolve_rm_addr m; read16 a

-- `regs[i] = (regs[i] & 0xFFFF0000) | val`.
abbrev pub put_reg16 : ℕ → ℕ → Prog (Unit {0})
put_reg16 i val = do v ← get_reg i; put_reg i (bit_or (bit_and v 0xffff_0000) val)

unfoldable pub write_rm16 : ModRm → ℕ → Prog (Unit {0})
unfolding resolve_rm_addr
write_rm16 m val =
    if m.mode == 3 then put_reg16 m.rm val else do a ← resolve_rm_addr m; store16 a val

-- Two dwords of memory as a `uint64_t`, and back.
abbrev pub read64 : ℕ → Prog ℕ
read64 a = do lo ← read32 a; hi ← read32 (add32 a 4); ret (bit_or lo (hi <<< 32))

abbrev pub store64 : ℕ → ℕ → Prog (Unit {0})
store64 a v = do store32 a v; store32 (add32 a 4) (v >>> 32)

unfoldable pub read_xmm_src : ModRm → Prog XmmReg
unfolding resolve_rm_addr
read_xmm_src m = if m.mode == 3 then gets (λ s. s.xmm_regs m.rm) else do
  a ← resolve_rm_addr m
  lo ← read64 a
  hi ← read64 (add32 a 8)
  ret (record { lo = lo; hi = hi })

unfoldable pub write_xmm_dst : ModRm → XmmReg → Prog (Unit {0})
unfolding resolve_rm_addr
write_xmm_dst m val =
    if m.mode == 3
    then assign (set_xmm m.rm val)
    else do a ← resolve_rm_addr m; store64 a val.lo; store64 (add32 a 8) val.hi
