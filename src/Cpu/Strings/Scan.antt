-- ===== src/Cpu/Strings/Scan.antt =====
-- REPNE SCASB (`op_repne` of src/cpu/ops.c) as a search for a byte.
use fake_kernel.Prelude.{
  ℕ, zero, suc, ◌+◌, ◌^◌, ◌<◌, ◌≡◌, ◌≢◌, refl, inl, inr, arith, true, false, if◌then◌else◌, ◌==◌,
  ltb, u8, u32, sub8, sub32, has_bit, Bool-cases, ◌∙◌,
}
use mathlib.Core.Path.{ap, sym}
use fake_kernel.Mem.{mem_read8, check_bounds}
use fake_kernel.Machine.{
  Machine, cf, zf, sf, of, reg_eax, reg_ecx, reg_edi, apply, apply_cpu, update, change_flag,
}
use fake_kernel.Machine.Valid.{IsMachine}
use fake_kernel.Prog.{Host, ok, run, ret, run-if_true, run-if_false, ◌>>=◌}
use fake_kernel.Prog.Valid.{Returns, Returns-map, Returns->>=}
use fake_kernel.Cpu.{cycles, get_reg, flag, overflow_sub, set_cf, set_zf, set_sf, set_of_sub}
use fake_kernel.Cpu.Flags.{flag-change_flag}
use fake_kernel.Cpu.Strings.{scasb_loop, repne_scasb, compare_bytes}
use fake_kernel.Cpu.Strings.Laws.{HasTarget}

-- The byte that is looked for, and the one `k` places from EDI.
abbrev pub wanted : Machine → ℕ
wanted s = u8 (s.cpu.regs reg_eax)

abbrev pub target : Machine → ℕ → ℕ
target s k = s.mem.byte (s.cpu.regs reg_edi + k)

-- What a scan of `n` bytes comes to: AL at the first of its places, with ZF set, ECX counting the
-- bytes behind it and EDI there; or AL at none of them.
pub data Scanned (n : ℕ) (s t : Machine) : Type 0 where
  found :
      (j : ℕ)
      → target s j ≡ wanted s
      → ((k : ℕ) → k < j → target s k ≢ wanted s)
      → t.cpu.regs reg_ecx + j + 1 ≡ n
      → t.cpu.regs reg_edi ≡ s.cpu.regs reg_edi + j + 1
      → flag zf t.cpu.eflags ≡ true
      → Scanned n s t
  exhausted :
      ((k : ℕ) → k < n → target s k ≢ wanted s)
      → t.cpu.regs reg_ecx ≡ 0
      → t.cpu.regs reg_edi ≡ s.cpu.regs reg_edi + n
      → flag zf t.cpu.eflags ≡ (if n == 0 then flag zf s.cpu.eflags else false)
      → Scanned n s t

-- Memory and the other registers are as before.
pub record Kept (s t : Machine) : Type 0 where
  pub same_mem : t.mem ≡ s.mem
  pub others : (i : ℕ) → i ≢ reg_ecx → i ≢ reg_edi → t.cpu.regs i ≡ s.cpu.regs i

abbrev pub IsScan : ℕ → Machine → Machine → Type 0
IsScan n s t = Scanned n s t × Kept s t

abbrev compared : ℕ → ℕ → ℕ → ℕ
compared a b e =
    let r = sub8 a b in
    change_flag of (overflow_sub a b r)
      (change_flag sf (has_bit r 31) (change_flag zf (r == 0) (change_flag cf (ltb a b) e)))

-- The state after one round of the loop.
abbrev round : Machine → Machine
round s = record s {
  cpu = record s.cpu {
    regs =
        update (update s.cpu.regs reg_edi (u32 (s.cpu.regs reg_edi + 1))) reg_ecx
          (u32 (sub32 (s.cpu.regs reg_ecx) 1));
    eflags = compared (wanted s) (mem_read8 (s.cpu.regs reg_edi) s.mem) s.cpu.eflags;
  };
}

-- A machine whose scan stays in memory.
pub record Scannable (s : Machine) : Type 0 where
  pub target_in : HasTarget s
  pub bytes_fit : (a : ℕ) → s.mem.byte a < 2 ^ 8
  pub edi_fits : s.cpu.regs reg_edi < 2 ^ 32

round-zf :
    (s : Machine)
    → Scannable s
    → 0 < s.cpu.regs reg_ecx
    → flag zf (round s).cpu.eflags ≡ (wanted s == target s 0)
unfolding mem_read8 check_bounds
round-zf s h more =
    let inside : s.cpu.regs reg_edi < s.mem.size = omega (arith, h.target_in.inside) in
    let here = h.bytes_fit (s.cpu.regs reg_edi) in
    simp flag-change_flag (ground (arith, inside, here, h.target_in.addressable))

round-Scannable :
    (s : Machine)
    → Scannable s
    → 0 < s.cpu.regs reg_ecx
    → s.cpu.regs reg_ecx < 2 ^ 32
    → Scannable (round s)
round-Scannable s h more small = record {
  target_in = record {
    addressable = h.target_in.addressable;
    inside = omega (arith, h.target_in.addressable, h.target_in.inside);
  };
  bytes_fit = h.bytes_fit;
  edi_fits = omega arith;
}

target-round :
    (s : Machine) (k : ℕ)
    → Scannable s
    → 0 < s.cpu.regs reg_ecx
    → target (round s) k ≡ target s (k + 1)
target-round s k h more = ap s.mem.byte (omega (arith, h.target_in.addressable, h.target_in.inside))

-- The places behind the first.
behind :
    (s : Machine) (j : ℕ)
    → Scannable s
    → 0 < s.cpu.regs reg_ecx
    → target s 0 ≢ wanted s
    → ((k : ℕ) → k < j → target (round s) k ≢ wanted s)
    → (k : ℕ) → k < j + 1
    → target s k ≢ wanted s
behind s j h more apart rest zero under = apart
behind s j h more apart rest (suc k) under =
    let same : target (round s) k ≡ target s (suc k) =
      target-round s k h more ∙ ap (target s) (omega arith) in
    λ e. rest k (omega arith) (same ∙ e)

-- One round of bytes that differ, and then a scan from there.
round-Scanned :
    (n : ℕ) (s t : Machine)
    → Scannable s
    → s.cpu.regs reg_ecx ≡ suc n
    → target s 0 ≢ wanted s
    → flag zf (round s).cpu.eflags ≡ false
    → Scanned n (round s) t
    → Scanned (suc n) s t
round-Scanned n s t h e apart missed (found j here before left moved set) =
    let more : 0 < s.cpu.regs reg_ecx = omega arith in
    found (j + 1) (sym (target-round s j h more) ∙ here) (behind s j h more apart before)
      (omega arith) (omega (arith, moved, h.target_in.addressable, h.target_in.inside)) set
round-Scanned n s t h e apart missed (exhausted none left moved clear) =
    let more : 0 < s.cpu.regs reg_ecx = omega arith in
    exhausted (λ k under. behind s n h more apart none k (omega arith)) left
      (omega (arith, moved, h.target_in.addressable, h.target_in.inside))
      (ground (arith, clear, missed))

hit-Scanned :
    (n : ℕ) (s : Machine)
    → Scannable s
    → s.cpu.regs reg_ecx ≡ suc n
    → target s 0 ≡ wanted s
    → flag zf (round s).cpu.eflags ≡ true
    → Scanned (suc n) s (round s)
hit-Scanned n s h e here hit =
    found 0 here (λ k under. absurd (omega arith)) (omega arith)
      (omega (arith, h.target_in.addressable, h.target_in.inside)) hit

untouched : (s : Machine) → Kept s s
untouched s = record { same_mem = refl; others = λ i p q. refl }

round-Kept : (s t : Machine) → Kept (round s) t → Kept s t
round-Kept s t h = record {
  same_mem = h.same_mem;
  others = λ i p q. ground (arith, h.others i p q, p, q);
}

-- The cycle count is no part of it.
IsScan-cycles :
    (n : ℕ) (s t : Machine) (c : ℕ)
    → IsScan n s t
    → IsScan n s (record t { cpu = record t.cpu { cycles = c } })
IsScan-cycles n s t c (found j here before left moved set, kept) =
    (found j here before left moved set, record { same_mem = kept.same_mem; others = kept.others })
IsScan-cycles n s t c (exhausted none left moved clear, kept) =
    (exhausted none left moved clear, record { same_mem = kept.same_mem; others = kept.others })

module _ (host : Host) where
  scan_done :
      (fuel : ℕ) (s : Machine)
      → (s.cpu.regs reg_ecx == 0) ≡ true
      → run host (scasb_loop (suc fuel)) s ≡ ok tt s
  unfolding scasb_loop run
  scan_done fuel s e = run-if_true host (ret tt) _ s (s.cpu.regs reg_ecx == 0) e

  scan_more :
      (fuel : ℕ) (s : Machine)
      → (s.cpu.regs reg_ecx == 0) ≡ false
      → run host (scasb_loop (suc fuel)) s
        ≡ run host (if flag zf (round s).cpu.eflags then ret tt else scasb_loop fuel) (round s)
  unfolding scasb_loop compare_bytes set_cf set_zf set_sf set_of_sub run apply apply_cpu
  scan_more fuel s e = run-if_false host (ret tt) _ s (s.cpu.regs reg_ecx == 0) e

  scasb_loop-IsScan :
      (fuel n : ℕ) (s : Machine)
      → Scannable s
      → s.cpu.regs reg_ecx ≡ n
      → n < 2 ^ 32
      → n < fuel
      → Returns (λ _ t. IsScan n s t) (run host (scasb_loop fuel) s)
  unfolding run
  scasb_loop-IsScan zero n s h e small enough = absurd (omega arith)
  scasb_loop-IsScan (suc fuel) zero s h e small enough =
      rw (scan_done fuel s (ground arith))
        (exhausted (λ k under. absurd (omega arith)) e (omega arith) refl, untouched s)
  scasb_loop-IsScan (suc fuel) (suc n) s h e small enough =
      let more : 0 < s.cpu.regs reg_ecx = omega arith in
      let last = round-zf s h more in
      rw (scan_more fuel s (ground arith)) (elim (Bool-cases (flag zf (round s).cpu.eflags)) [
        | inl hit ↦ rw hit (
          hit-Scanned n s h e (ground (arith, last)) hit,
          round-Kept s (round s) (untouched (round s)),
        )
        | inr missed ↦ rw missed (
            Returns-map (λ _ t. IsScan n (round s) t) (λ _ t. IsScan (suc n) s t)
              (run host (scasb_loop fuel) (round s))
              (λ _ t (done, kept).
                (round-Scanned n s t h e (ground (arith, last)) missed done, round-Kept s t kept))
              (scasb_loop-IsScan fuel n (round s) (round-Scannable s h more (omega arith))
                (omega arith) (omega arith) (omega arith)))
      ])

-- REPNE SCASB over a region in memory returns: the fuel that its count gives is enough. It stops
-- behind the first byte of the region that equals AL, with ZF set and ECX counting the bytes behind
-- that one; where no byte does, behind the region, with ECX 0 and ZF clear, or as it was when the
-- region is empty. Memory and all registers but ECX and EDI are as before.
pub repne_scasb-IsScan :
    (host : Host) (size : ℕ) (s : Machine)
    → IsMachine size s
    → HasTarget s
    → Returns (λ _ t. IsScan (s.cpu.regs reg_ecx) s t) (run host repne_scasb s)
unfolding repne_scasb run apply apply_cpu
repne_scasb-IsScan host size s v h =
    let n = s.cpu.regs reg_ecx in
    let scannable : Scannable s = record {
      target_in = h;
      bytes_fit = v.bytes;
      edi_fits = v.cpu.regs_fit reg_edi;
    } in
    Returns->>= (λ _ t. IsScan n s t) (λ _ t. IsScan n s t) host (scasb_loop (n + 1))
      (λ _. get_reg reg_ecx >>= λ left. cycles (left + 1)) s
      (scasb_loop-IsScan host (n + 1) n s scannable refl (v.cpu.regs_fit reg_ecx) (omega arith))
      (λ _ t done. IsScan-cycles n s t _ done)
