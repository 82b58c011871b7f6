-- ===== src/Cpu/Total/Loops.antt =====
-- Fuel in the repeated string instructions, `op_rep` and `op_repne` (src/cpu/ops.c).
use fake_kernel.Prelude.{
  ℕ, zero, suc, ◌+◌, ◌^◌, ◌<◌, ◌≡◌, refl, arith, if◌then◌else◌, ◌==◌, u8, sub32,
}
use fake_kernel.Machine.{Machine, zf, reg_ecx, reg_eax, reg_edi, apply, apply_cpu}
use fake_kernel.Prog.{Prog, Host, run, ret, ◌>>=◌, ◌>>◌}
use fake_kernel.Prog.Valid.{Returns}
use fake_kernel.Prog.Finishes.{Finishes, Finishes->>=, Returns-Finishes->>=, Finishes-if}
use fake_kernel.Cpu.{get_reg, put_reg, cycles, read8, get_flag, set_cf, set_zf, set_sf, set_of_sub}
use fake_kernel.Cpu.Strings.{
  movsb_once, movsd_once, stosb_once, stosd_once, rep_loop, rep_case, scasb_loop, repne_scasb,
  compare_bytes,
}

-- A round that keeps ECX.
abbrev KeepsEcx : Host → Prog (Unit {0}) → Type 0
KeepsEcx host p =
    (s : Machine) → Returns (λ _ t. t.cpu.regs reg_ecx ≡ s.cpu.regs reg_ecx) (run host p s)

module _ (host : Host) (once : Prog (Unit {0})) (keeps : KeepsEcx host once) where
  rep_loop-Finishes :
      (fuel : ℕ) (s : Machine)
      → s.cpu.regs reg_ecx < 2 ^ 32
      → s.cpu.regs reg_ecx < fuel
      → Finishes (run host (rep_loop once fuel) s)
  unfolding run rep_loop apply apply_cpu
  rep_loop-Finishes zero s small enough = absurd (omega arith)
  rep_loop-Finishes (suc fuel) s small enough =
      let rest : ℕ → Prog (Unit {0}) =
        λ left. put_reg reg_ecx (sub32 left 1) >> rep_loop once fuel in
      let go : Prog (Unit {0}) = (do once; left ← get_reg reg_ecx; rest left) in
      Finishes-if host (s.cpu.regs reg_ecx == 0) (ret tt) go s (λ _. tt)
        λ more.
          Returns-Finishes->>= (λ _ t. t.cpu.regs reg_ecx ≡ s.cpu.regs reg_ecx) host once
            (λ _. get_reg reg_ecx >>= rest) s (keeps s)
            λ _ t same.
              let positive : 0 < s.cpu.regs reg_ecx = ground arith in
              rep_loop-Finishes fuel _ (omega arith) (omega (arith, same))

  rep_case-Finishes :
      (s : Machine) → s.cpu.regs reg_ecx < 2 ^ 32 → Finishes (run host (rep_case once) s)
  unfolding run rep_case
  rep_case-Finishes s small =
      let n = s.cpu.regs reg_ecx in
      Finishes->>= host (rep_loop once (n + 1)) (λ _. cycles (n + 1)) s
        (rep_loop-Finishes (n + 1) s small (omega arith)) (λ _ t. tt)

-- The loop of REPNE SCASB.
scasb_loop-Finishes :
    (host : Host) (fuel : ℕ) (s : Machine)
    → s.cpu.regs reg_ecx < 2 ^ 32
    → s.cpu.regs reg_ecx < fuel
    → Finishes (run host (scasb_loop fuel) s)
unfolding run scasb_loop compare_bytes set_cf set_zf set_sf set_of_sub apply apply_cpu
scasb_loop-Finishes host zero s small enough = absurd (omega arith)
scasb_loop-Finishes host (suc fuel) s small enough =
    let rest : Prog (Unit {0}) = (do
      found ← get_flag zf
      if found then ret tt else scasb_loop fuel) in
    let round : Prog (Unit {0}) = (do
      eax ← get_reg reg_eax
      edi ← get_reg reg_edi
      b ← read8 edi
      put_reg reg_edi (edi + 1)
      put_reg reg_ecx (sub32 (s.cpu.regs reg_ecx) 1)
      compare_bytes (u8 eax) b
      rest) in
    Finishes-if host (s.cpu.regs reg_ecx == 0) (ret tt) round s (λ _. tt)
      λ more.
        let positive : 0 < s.cpu.regs reg_ecx = ground arith in
        Finishes-if host _ (ret tt) (scasb_loop fuel) _ (λ _. tt)
          (λ _. scasb_loop-Finishes host fuel _ (omega arith) (omega arith))

-- All repeated instructions finish when ECX is a 32-bit word.
pub string_loops-Finish :
    (host : Host) (s : Machine)
    → s.cpu.regs reg_ecx < 2 ^ 32
    → Finishes (run host (rep_case movsb_once) s)
      × Finishes (run host (rep_case movsd_once) s)
      × Finishes (run host (rep_case stosb_once) s)
      × Finishes (run host (rep_case stosd_once) s)
      × Finishes (run host repne_scasb s)
unfolding run movsb_once movsd_once stosb_once stosd_once repne_scasb apply apply_cpu
string_loops-Finish host s small = (
  rep_case-Finishes host movsb_once (λ t. refl) s small,
  rep_case-Finishes host movsd_once (λ t. refl) s small,
  rep_case-Finishes host stosb_once (λ t. refl) s small,
  rep_case-Finishes host stosd_once (λ t. refl) s small,
  Finishes->>= host (scasb_loop (s.cpu.regs reg_ecx + 1))
      (λ _. get_reg reg_ecx >>= λ left. cycles (left + 1)) s
      (scasb_loop-Finishes host (s.cpu.regs reg_ecx + 1) s small (omega arith)) (λ _ t. tt),
)
