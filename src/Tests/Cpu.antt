-- ===== src/Tests/Cpu.antt =====
-- Runs of the processor at concrete inputs.
use fake_kernel.Prelude.{
  ℕ, ◌+◌, ◌*◌, ◌-◌, ◌%◌, ◌<◌, ◌≤◌, ◌^◌, ◌≡◌, ◌≢◌, ◌⊎◌, refl, inr, arith, false, if◌then◌else◌, ◌==◌,
  leb, ltb, u8, u32, add32,
}
use fake_kernel.Mem.{mem_read8, mem_read32}
use fake_kernel.Machine.{cf, zf, sf, of, reg_eax, reg_ecx, reg_edx, reg_esp}
use fake_kernel.Machine.Valid.{IsMachine}
use fake_kernel.Prog.{run, ◌>>◌}
use fake_kernel.Prog.Valid.{Returns}
use fake_kernel.Cpu.{flag, put_reg}
use fake_kernel.Cpu.Sub.{op_cmp_eax_imm32, op_cmp_al_imm8}
use fake_kernel.Cpu.Sub.Bytes.{op_cmp_al_imm8_lem}
use fake_kernel.Cpu.Branch.{test_condition}
use fake_kernel.Cpu.Branch.Compare.{code, Holds, Decides, less}
use fake_kernel.Cpu.Branch.Orders.{cmp-test_condition}
use fake_kernel.Cpu.Decode.{modrm_fields}
use fake_kernel.Cpu.Stack.{op_push_r32, op_pop_r32, op_call_rel32, op_ret}
use fake_kernel.Cpu.Stack.Laws.{HasRoom, op_push_r32_lem, push-pop, call-ret}
use fake_kernel.Cpu.Strings.{rep_case, stosb_once, movsb_once, repne_scasb}
use fake_kernel.Cpu.Shift.{shift_32}
use fake_kernel.Cpu.Shift.Rotate.{Holding, rotates_lem}
use fake_kernel.Cpu.Strings.Scan.{IsScan, repne_scasb-IsScan}
use fake_kernel.Cpu.Strings.Copy.{HasRegions, IsCopied, rep_movsb-IsCopied}
use fake_kernel.Cpu.MulDiv.Signed.{signed_product, imul_rm32_lem}
use fake_kernel.Cpu.Strings.Laws.{HasTarget, IsFilled, rep_stosb-IsFilled}
use fake_kernel.Cpu.MulDiv.Dword.{mul_rm32, imul_rm32, div_rm32}
use fake_kernel.Cpu.MulDiv.Laws.{mul_rm32_lem, div_rm32_lem}
use fake_kernel.Tests.{demo, demo_host, demo_at-IsMachine}

demo-IsMachine : IsMachine 0x40_0000 demo
demo-IsMachine = demo_at-IsMachine 0x100 (omega arith)

demo-HasRoom : HasRoom 0x40_0000 demo
demo-HasRoom = record {
  valid = demo-IsMachine;
  addressable = omega arith;
  above = omega arith;
  inside = omega arith;
}

demo-HasTarget : HasTarget demo
demo-HasTarget = record { addressable = omega arith; inside = omega arith }

-- EAX is 10 and the immediate 5.
cmp-test_condition_example :
    Returns
      (λ c t. Decides c (Holds less (demo.cpu.regs reg_eax) (mem_read32 demo.cpu.eip demo.mem)))
      (run demo_host (op_cmp_eax_imm32 0x3d >> test_condition (code less)) demo)
cmp-test_condition_example = cmp-test_condition less demo_host 0x40_0000 demo demo-IsMachine

rep_stosb-IsFilled_example :
    Returns
      (λ _ t. IsFilled (demo.cpu.regs reg_ecx) demo t)
      (run demo_host (rep_case stosb_once) demo)
rep_stosb-IsFilled_example =
    rep_stosb-IsFilled demo_host 0x40_0000 demo demo-IsMachine demo-HasTarget

-- The call goes 5 bytes past its end.
call-ret_example :
    Returns
      (λ _ t.
        (t.cpu.eip ≡ u32 (add32 demo.cpu.eip 4 + mem_read32 demo.cpu.eip demo.mem))
        × Returns
            (λ _ v. (v.cpu.eip ≡ add32 demo.cpu.eip 4) × ((i : ℕ) → v.cpu.regs i ≡ demo.cpu.regs i))
            (run demo_host (op_ret 0xc3) t))
      (run demo_host (op_call_rel32 0xe8) demo)
call-ret_example = call-ret demo_host 0x40_0000 demo demo-HasRoom

-- PUSH ECX and POP EBX.
push-pop_example :
    Returns
      (λ _ t.
        (i : ℕ)
        → t.cpu.regs i ≡ (if i == 0x5b % 8 then demo.cpu.regs (0x51 % 8) else demo.cpu.regs i))
      (run demo_host (op_push_r32 0x51 >> op_pop_r32 0x5b) demo)
push-pop_example =
    push-pop demo_host 0x40_0000 0x51 0x5b demo demo-HasRoom (omega arith) (omega arith)

-- PUSH ESP.
op_push_r32_lem_example :
    Returns
      (λ _ t.
        (t.cpu.regs reg_esp ≡ demo.cpu.regs reg_esp - 4)
        × ((i : ℕ) → i ≢ reg_esp → t.cpu.regs i ≡ demo.cpu.regs i)
        × (mem_read32 (t.cpu.regs reg_esp) t.mem
            ≡ (if 0x54 % 8 == reg_esp then demo.cpu.regs reg_esp - 4 else demo.cpu.regs (0x54 % 8)))
        × ((a : ℕ)
            → (a < t.cpu.regs reg_esp) ⊎ (demo.cpu.regs reg_esp ≤ a)
            → t.mem.byte a ≡ demo.mem.byte a)
        × (t ≡ record demo {
          mem = record demo.mem { byte = t.mem.byte };
          cpu = record demo.cpu { regs = t.cpu.regs; cycles = u32 (demo.cpu.cycles + 1) };
        }))
      (run demo_host (op_push_r32 0x54) demo)
op_push_r32_lem_example = op_push_r32_lem demo_host 0x40_0000 0x54 demo demo-HasRoom

-- AL is 10 and the immediate 5.
op_cmp_al_imm8_lem_example :
    (let a = u8 (demo.cpu.regs reg_eax) in
      let b = mem_read8 demo.cpu.eip demo.mem in
      Returns
        (λ _ t.
          (flag cf t.cpu.eflags ≡ ltb a b)
          × (flag zf t.cpu.eflags ≡ (a == b))
          × (flag sf t.cpu.eflags ≡ false)
          × (flag of t.cpu.eflags ≡ false))
        (run demo_host (op_cmp_al_imm8 0x3c) demo))
op_cmp_al_imm8_lem_example = op_cmp_al_imm8_lem demo_host 0x40_0000 demo demo-IsMachine

-- MUL ECX, and DIV ECX with EDX below it.
mul_rm32_lem_example :
    (let product = demo.cpu.regs reg_eax * demo.cpu.regs 1 in
      Returns
        (λ _ t.
          (t.cpu.regs reg_edx * 2 ^ 32 + t.cpu.regs reg_eax ≡ product)
          × (flag cf t.cpu.eflags ≡ leb (2 ^ 32) product))
        (run demo_host (mul_rm32 (modrm_fields 0xe1 false 0)) demo))
mul_rm32_lem_example =
    mul_rm32_lem demo_host 0x40_0000 demo (modrm_fields 0xe1 false 0) demo-IsMachine refl

div_rm32_lem_example :
    Returns
      (λ _ t.
        (t.cpu.regs reg_eax * demo.cpu.regs 1 + t.cpu.regs reg_edx
          ≡ demo.cpu.regs reg_edx * 2 ^ 32 + demo.cpu.regs reg_eax)
        × (t.cpu.regs reg_edx < demo.cpu.regs 1))
      (run demo_host (div_rm32 (modrm_fields 0xf1 false 0)) demo)
div_rm32_lem_example =
    div_rm32_lem demo_host 0x40_0000 demo (modrm_fields 0xf1 false 0) demo-IsMachine refl
      (omega arith)

repne_scasb-IsScan_example :
    Returns (λ _ t. IsScan (demo.cpu.regs reg_ecx) demo t) (run demo_host repne_scasb demo)
repne_scasb-IsScan_example =
    repne_scasb-IsScan demo_host 0x40_0000 demo demo-IsMachine demo-HasTarget

-- Three bytes from 10 to 0x2000.
demo-HasRegions : HasRegions 3 demo
demo-HasRegions = record {
  addressable = omega arith;
  bytes_fit = demo-IsMachine.bytes;
  source_in = omega arith;
  target_in = omega arith;
  apart = inr (omega arith);
}

rep_movsb-IsCopied_example :
    Returns
      (λ _ t. IsCopied (demo.cpu.regs reg_ecx) demo t)
      (run demo_host (rep_case movsb_once) demo)
rep_movsb-IsCopied_example =
    rep_movsb-IsCopied demo_host 0x40_0000 demo demo-IsMachine demo-HasRegions

-- IMUL ECX.
imul_rm32_lem_example :
    Returns
      (λ _ t.
        (t.cpu.regs reg_edx * 2 ^ 32 + t.cpu.regs reg_eax ≡ signed_product 10 3)
        × (flag cf t.cpu.eflags ≡ leb (2 ^ 32) (signed_product 10 3)))
      (run demo_host (imul_rm32 (modrm_fields 0xe9 false 0)) demo)
imul_rm32_lem_example =
    imul_rm32_lem demo_host 0x40_0000 demo (modrm_fields 0xe9 false 0) demo-IsMachine refl

-- By 4, through EBX.
rotates_lem_example :
    Returns
      (λ _ t. Holding 3 0x1234_5678 demo t)
      (run demo_host (shift_32 0 0x1234_5678 4 (λ r. shift_32 1 r 4 (put_reg 3))) demo)
    × Returns
        (λ _ t. Holding 3 0x1234_5678 demo t)
        (run demo_host (shift_32 1 0x1234_5678 4 (λ r. shift_32 0 r 4 (put_reg 3))) demo)
rotates_lem_example =
    rotates_lem demo_host 4 0x1234_5678 demo 3 (omega arith) (omega arith) (omega arith)
