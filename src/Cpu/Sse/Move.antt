-- ===== src/Cpu/Sse/Move.antt =====
-- Moves, comparisons and masks of the MMX registers, and the prefixed forms (src/cpu/ops.c).
use fake_kernel.Prelude.{
  ℕ, zero, suc, ◌+◌, ◌*◌, ◌/◌, ◌%◌, ◌^◌, if◌then◌else◌, ◌==◌, bit_or, bit_xor, ◌<<<◌, u32, has_bit,
}
use fake_kernel.Machine.{set_xmm}
use fake_kernel.Prog.{Prog, assign, ◌>>=◌, ◌>>◌}
use fake_kernel.Cpu.{put_reg, get_eip, put_eip, cycles, stop, fetch8}
use fake_kernel.Cpu.Decode.{
  parse_modrm, resolve_rm_addr, read_rm32, write_rm32, store64, read_xmm_src, write_xmm_dst,
}
use fake_kernel.Cpu.Sse.{
  get_mmx, put_mmx, get_xmm, put_xmm, read_mm_src, read_xmm_low, write_mm_dst, field, mmx_combine,
}

-- 0x0F 0x6E
unfoldable pub op_movd_mm_rm32 : ℕ → Prog (Unit {0})
op_movd_mm_rm32 op = do mrm ← parse_modrm; val ← read_rm32 mrm; put_mmx mrm.reg val; cycles 3

-- 0x0F 0x6F
unfoldable pub op_movq_mm_rm64 : ℕ → Prog (Unit {0})
op_movq_mm_rm64 op = do mrm ← parse_modrm; val ← read_mm_src mrm; put_mmx mrm.reg val; cycles 3

-- Four words of `src` in the order that the immediate byte names.
unfoldable pub shuffle : ℕ → ℕ → ℕ
shuffle src imm =
    let word = λ (k : ℕ). field src (16 * (imm / 2 ^ (2 * k) % 4)) 16 in
    bit_or (bit_or (bit_or (word 0) (word 1 <<< 16)) (word 2 <<< 32)) (word 3 <<< 48)

-- 0x0F 0x70
unfoldable pub op_pshufw : ℕ → Prog (Unit {0})
op_pshufw op = do
  mrm ← parse_modrm
  src ← read_mm_src mrm
  imm ← fetch8
  put_mmx mrm.reg (shuffle src imm)
  cycles 3

-- The loop of PCMPEQB over `left` bytes from byte `i`.
unfoldable pub equal_bytes : ℕ → ℕ → ℕ → ℕ → ℕ
equal_bytes zero i dst src = 0
equal_bytes (suc left) i dst src =
    bit_or ((if field dst (i * 8) 8 == field src (i * 8) 8 then 0xff else 0) <<< (i * 8))
      (equal_bytes left (i + 1) dst src)

-- 0x0F 0x74
unfoldable pub op_pcmpeqb : ℕ → Prog (Unit {0})
op_pcmpeqb op = mmx_combine (equal_bytes 8 0)

-- 0x0F 0x7E
unfoldable pub op_movd_rm32_mm : ℕ → Prog (Unit {0})
op_movd_rm32_mm op = do mrm ← parse_modrm; val ← get_mmx mrm.reg; write_rm32 mrm (u32 val); cycles 3

-- 0x0F 0x7F
unfoldable pub op_movq_rm64_mm2 : ℕ → Prog (Unit {0})
op_movq_rm64_mm2 op = do mrm ← parse_modrm; val ← get_mmx mrm.reg; write_mm_dst mrm val; cycles 3

-- 0x0F 0xD6
unfoldable pub op_movq_rm64_mm : ℕ → Prog (Unit {0})
op_movq_rm64_mm op = do mrm ← parse_modrm; val ← get_mmx mrm.reg; write_mm_dst mrm val; cycles 3

-- The loop of PMOVMSKB.
unfoldable pub sign_mask : ℕ → ℕ → ℕ → ℕ
sign_mask zero i src = 0
sign_mask (suc left) i src =
    bit_or (if has_bit src (i * 8 + 7) then 2 ^ i else 0) (sign_mask left (i + 1) src)

-- 0x0F 0xD7
unfoldable pub op_pmovmskb : ℕ → Prog (Unit {0})
op_pmovmskb op = do
  mrm ← parse_modrm
  src ← get_mmx mrm.rm
  put_reg mrm.reg (sign_mask 8 0 src)
  cycles 3

-- 0x0F 0xEF
unfoldable pub op_pxor_mm_mm : ℕ → Prog (Unit {0})
op_pxor_mm_mm op = mmx_combine bit_xor

-- 0xF2 0x0F
unfoldable pub repne_0f : Prog (Unit {0})
repne_0f = do
  sse_op ← fetch8
  let movsd_load = (do mrm ← parse_modrm; val ← read_xmm_low mrm; put_xmm mrm.reg val 0; cycles 3)
  let movsd_store = (do
    mrm ← parse_modrm
    src ← get_xmm mrm.reg
    if mrm.mode == 3
        then (do put_xmm mrm.rm src.lo 0; cycles 3)
        else (do addr ← resolve_rm_addr mrm; store64 addr src.lo; cycles 3))
  let pshuflw = (do
    mrm ← parse_modrm
    src ← read_xmm_src mrm
    imm ← fetch8
    put_xmm mrm.reg (shuffle src.lo imm) src.hi
    cycles 3)
  if sse_op == 0x10
      then movsd_load
      else if sse_op == 0x11
      then movsd_store
      else if sse_op == 0x70
      then pshuflw
      else stop

-- 0xF3 0x0F
unfoldable pub rep_0f : Prog (Unit {0})
rep_0f = do
  sse_op ← fetch8
  let endbr = (do eip ← get_eip; put_eip (eip + 1); cycles 1)
  let movdqu_load = (do
    mrm ← parse_modrm
    src ← read_xmm_src mrm
    assign (set_xmm mrm.reg src)
    cycles 3)
  let movq = (do mrm ← parse_modrm; val ← read_xmm_low mrm; put_xmm mrm.reg val 0; cycles 3)
  let movdqu_store = (do mrm ← parse_modrm; src ← get_xmm mrm.reg; write_xmm_dst mrm src; cycles 3)
  let pshufhw = (do
    mrm ← parse_modrm
    src ← read_xmm_src mrm
    imm ← fetch8
    put_xmm mrm.reg src.lo (shuffle src.hi imm)
    cycles 3)
  if sse_op == 0x1e
      then endbr
      else if sse_op == 0x6f
      then movdqu_load
      else if sse_op == 0x7e
      then movq
      else if sse_op == 0x7f
      then movdqu_store
      else if sse_op == 0x70
      then pshufhw
      else stop
