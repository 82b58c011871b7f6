-- ===== src/Cpu/Sse.antt =====
-- The first MMX and SSE handlers behind 0x0F (src/cpu/ops.c).
pub mod Move
use fake_kernel.Prelude.{
  ℕ, zero, suc, ◌+◌, ◌*◌, ◌/◌, ◌%◌, ◌^◌, if◌then◌else◌, ◌==◌, bit_or, bit_xor, ◌<<<◌, u32, has_bit,
}
use fake_kernel.Machine.{XmmReg, set_mmx, set_xmm}
use fake_kernel.Prog.{Prog, gets, assign, ◌>>=◌, ◌>>◌}
use fake_kernel.Cpu.{put_reg, get_eip, put_eip, cycles, stop, fetch8}
use fake_kernel.Cpu.Decode.{
  ModRm, parse_modrm, resolve_rm_addr, read_rm32, write_rm32, read64, store64, read_xmm_src,
  write_xmm_dst,
}

abbrev pub get_mmx : ℕ → Prog ℕ
get_mmx i = gets (λ s. s.mmx_regs i)

abbrev pub put_mmx : ℕ → ℕ → Prog (Unit {0})
put_mmx i v = assign (set_mmx i v)

abbrev pub get_xmm : ℕ → Prog XmmReg
get_xmm i = gets (λ s. s.xmm_regs i)

abbrev pub put_xmm : ℕ → ℕ → ℕ → Prog (Unit {0})
put_xmm i lo hi = assign (set_xmm i (record { lo = lo; hi = hi }))

-- The source operand of 64 bits: an MMX register, the low half of an XMM register, or memory.
unfoldable pub read_mm_src : ModRm → Prog ℕ
read_mm_src mrm =
    if mrm.mode == 3 then get_mmx mrm.rm else do addr ← resolve_rm_addr mrm; read64 addr

unfoldable pub read_xmm_low : ModRm → Prog ℕ
read_xmm_low mrm =
    if mrm.mode == 3
    then gets (λ s. (s.xmm_regs mrm.rm).lo)
    else do addr ← resolve_rm_addr mrm; read64 addr

unfoldable pub write_mm_dst : ModRm → ℕ → Prog (Unit {0})
write_mm_dst mrm val =
    if mrm.mode == 3 then put_mmx mrm.rm val else do addr ← resolve_rm_addr mrm; store64 addr val

-- The field of `width` bits at bit `pos`.
abbrev pub field : ℕ → ℕ → ℕ → ℕ
field x pos width = x / 2 ^ pos % 2 ^ width

-- 0x0F 0x10
unfoldable pub op_movups_xmm_rm128 : ℕ → Prog (Unit {0})
op_movups_xmm_rm128 op = do
  mrm ← parse_modrm
  src ← read_xmm_src mrm
  assign (set_xmm mrm.reg src)
  cycles 3

-- 0x0F 0x11
unfoldable pub op_movups_rm128_xmm : ℕ → Prog (Unit {0})
op_movups_rm128_xmm op = do
  mrm ← parse_modrm
  src ← get_xmm mrm.reg
  write_xmm_dst mrm src
  cycles 3

-- 0x0F 0x16
unfoldable pub op_movhps_xmm_m64 : ℕ → Prog (Unit {0})
op_movhps_xmm_m64 op = do
  mrm ← parse_modrm
  val ← read_xmm_low mrm
  dst ← get_xmm mrm.reg
  put_xmm mrm.reg dst.lo val
  cycles 3

-- 0x0F 0x17
unfoldable pub op_movhps_m64_xmm : ℕ → Prog (Unit {0})
op_movhps_m64_xmm op = do
  mrm ← parse_modrm
  src ← get_xmm mrm.reg
  dst ← get_xmm mrm.rm
  if mrm.mode == 3
      then (do put_xmm mrm.rm src.hi dst.hi; cycles 3)
      else (do addr ← resolve_rm_addr mrm; store64 addr src.hi; cycles 3)

-- The results of the PUNPCKL instructions on 64 bits.
unfoldable pub interleave_bytes : ℕ → ℕ → ℕ
interleave_bytes dst src =
    bit_or
      (bit_or
        (bit_or
          (bit_or
            (bit_or (bit_or (bit_or (field dst 0 8) (field src 0 8 <<< 8)) (field dst 8 8 <<< 16))
              (field src 8 8 <<< 24))
            (field dst 16 8 <<< 32))
          (field src 16 8 <<< 40))
        (field dst 24 8 <<< 48))
      (field src 24 8 <<< 56)

unfoldable pub interleave_words : ℕ → ℕ → ℕ
interleave_words dst src =
    bit_or (bit_or (bit_or (field dst 0 16) (field src 0 16 <<< 16)) (field dst 16 16 <<< 32))
      (field src 16 16 <<< 48)

abbrev pub mmx_combine : (ℕ → ℕ → ℕ) → Prog (Unit {0})
mmx_combine f = do
  mrm ← parse_modrm
  src ← read_mm_src mrm
  dst ← get_mmx mrm.reg
  put_mmx mrm.reg (f dst src)
  cycles 3

-- 0x0F 0x60
unfoldable pub op_punpcklbw : ℕ → Prog (Unit {0})
op_punpcklbw op = mmx_combine interleave_bytes

-- 0x0F 0x61
unfoldable pub op_punpcklwd : ℕ → Prog (Unit {0})
op_punpcklwd op = mmx_combine interleave_words

-- 0x0F 0x62
unfoldable pub op_punpckldq : ℕ → Prog (Unit {0})
op_punpckldq op = mmx_combine (λ dst src. bit_or (u32 dst) (u32 src <<< 32))

-- 0x0F 0x6C
unfoldable pub op_punpcklqdq : ℕ → Prog (Unit {0})
op_punpcklqdq op = do
  mrm ← parse_modrm
  src ← read_xmm_src mrm
  dst ← get_xmm mrm.reg
  put_xmm mrm.reg dst.lo src.lo
  cycles 3

-- 0x0F 0x6D
unfoldable pub op_punpckhqdq : ℕ → Prog (Unit {0})
op_punpckhqdq op = do
  mrm ← parse_modrm
  src ← read_xmm_src mrm
  dst ← get_xmm mrm.reg
  put_xmm mrm.reg dst.hi src.hi
  cycles 3
