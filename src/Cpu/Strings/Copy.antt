-- ===== src/Cpu/Strings/Copy.antt =====
-- REP MOVSB (`op_rep` of src/cpu/ops.c) as a copy.
use fake_kernel.Prelude.{
  ℕ, zero, suc, ◌+◌, ◌^◌, ◌<◌, ◌≤◌, ◌≡◌, ◌≢◌, ◌⊎◌, inl, refl, arith, false, if◌then◌else◌, ◌==◌, u8,
  u32, sub32, ◌∙◌,
}
use mathlib.Core.Path.{ap}
use fake_kernel.Mem.{mem_read8, mem_write8, check_bounds}
use fake_kernel.Machine.{Machine, reg_ecx, reg_esi, reg_edi, apply, apply_cpu, update}
use fake_kernel.Machine.Valid.{IsMachine}
use fake_kernel.Prog.{Host, run, ret, run-if_false}
use fake_kernel.Prog.Valid.{Returns, Returns-map, Returns->>=}
use fake_kernel.Cpu.{cycles}
use fake_kernel.Cpu.Strings.{movsb_once, rep_loop, rep_case}
use fake_kernel.Cpu.Strings.Laws.{loop_done}

-- The state after `n` bytes have been copied from ESI to EDI.
pub record IsCopied (n : ℕ) (s t : Machine) : Type 0 where
  pub counted : t.cpu.regs reg_ecx ≡ 0
  pub source_moved : t.cpu.regs reg_esi ≡ s.cpu.regs reg_esi + n
  pub target_moved : t.cpu.regs reg_edi ≡ s.cpu.regs reg_edi + n
  pub others : (i : ℕ) → i ≢ reg_ecx → i ≢ reg_esi → i ≢ reg_edi → t.cpu.regs i ≡ s.cpu.regs i
  pub copied :
      (k : ℕ) → k < n → t.mem.byte (s.cpu.regs reg_edi + k) ≡ s.mem.byte (s.cpu.regs reg_esi + k)
  pub elsewhere :
      (a : ℕ)
      → (a < s.cpu.regs reg_edi) ⊎ (s.cpu.regs reg_edi + n ≤ a)
      → t.mem.byte a ≡ s.mem.byte a
  pub same_size : t.mem.size ≡ s.mem.size

-- A machine whose ESI, EDI and ECX name two regions of memory that fit `n` bytes, the target not
-- ahead of the source inside of it.
pub record HasRegions (n : ℕ) (s : Machine) : Type 0 where
  pub addressable : s.mem.size < 2 ^ 32
  pub bytes_fit : (a : ℕ) → s.mem.byte a < 2 ^ 8
  pub source_in : s.cpu.regs reg_esi + n ≤ s.mem.size
  pub target_in : s.cpu.regs reg_edi + n ≤ s.mem.size
  pub apart :
      (s.cpu.regs reg_edi ≤ s.cpu.regs reg_esi) ⊎ (s.cpu.regs reg_esi + n ≤ s.cpu.regs reg_edi)

-- The state after one round of the loop.
abbrev round : Machine → Machine
round s = record s {
  mem = mem_write8 (s.cpu.regs reg_edi) (u8 (mem_read8 (s.cpu.regs reg_esi) s.mem)) s.mem;
  cpu = record s.cpu {
    regs =
        update
          (update (update s.cpu.regs reg_esi (u32 (s.cpu.regs reg_esi + 1))) reg_edi
            (u32 (s.cpu.regs reg_edi + 1)))
          reg_ecx (u32 (sub32 (s.cpu.regs reg_ecx) 1));
  };
}

-- Memory after a round: the byte at EDI is the byte at ESI.
round-byte :
    (n : ℕ) (s : Machine) (a : ℕ)
    → HasRegions (suc n) s
    → (round s).mem.byte a
      ≡ (if a == s.cpu.regs reg_edi then s.mem.byte (s.cpu.regs reg_esi) else s.mem.byte a)
unfolding mem_write8 mem_read8 check_bounds
round-byte n s a h =
    let here = h.bytes_fit (s.cpu.regs reg_esi) in
    ground (arith, here, h.addressable, h.source_in, h.target_in)

round-size : (s : Machine) → (round s).mem.size ≡ s.mem.size
unfolding mem_write8 check_bounds
round-size s = ground arith

round-HasRegions : (n : ℕ) (s : Machine) → HasRegions (suc n) s → HasRegions n (round s)
round-HasRegions n s h = record {
  addressable = omega (arith, round-size s, h.addressable);
  bytes_fit =
      λ a. ground (arith, round-byte n s a h, h.bytes_fit a, h.bytes_fit (s.cpu.regs reg_esi));
  source_in = omega (arith, round-size s, h.source_in, h.addressable);
  target_in = omega (arith, round-size s, h.target_in, h.addressable);
  apart = ground (arith, h.apart, h.source_in, h.target_in, h.addressable);
}

-- A byte of the source behind the first is not yet written over.
round-source :
    (n k : ℕ) (s : Machine)
    → HasRegions (suc n) s
    → k < n
    → (round s).mem.byte (s.cpu.regs reg_esi + 1 + k) ≡ s.mem.byte (s.cpu.regs reg_esi + suc k)
round-source n k s h under =
    let next : s.cpu.regs reg_esi + 1 + k ≡ s.cpu.regs reg_esi + suc k = omega arith in
    ground (arith, round-byte n s (s.cpu.regs reg_esi + 1 + k) h, h.apart, ap s.mem.byte next)

-- The first byte of the target stays, and those behind it are the later rounds'.
copied_at :
    (n k : ℕ) (s t : Machine)
    → HasRegions (suc n) s
    → IsCopied n (round s) t
    → k < suc n
    → t.mem.byte (s.cpu.regs reg_edi + k) ≡ s.mem.byte (s.cpu.regs reg_esi + k)
copied_at n zero s t h done under =
    let edi = s.cpu.regs reg_edi in
    let kept : t.mem.byte edi ≡ (round s).mem.byte edi =
      done.elsewhere edi (inl (omega (arith, h.target_in, h.addressable))) in
    let here : (round s).mem.byte edi ≡ s.mem.byte (s.cpu.regs reg_esi) =
      ground (arith, round-byte n s edi h) in
    ap t.mem.byte (omega arith) ∙ kept ∙ here ∙ ap s.mem.byte (omega arith)
copied_at n (suc k) s t h done under =
    let source : u32 (s.cpu.regs reg_esi + 1) + k ≡ s.cpu.regs reg_esi + 1 + k =
      omega (arith, h.source_in, h.addressable) in
    ap t.mem.byte (omega (arith, h.target_in, h.addressable))
    ∙ done.copied k (omega arith)
    ∙ ap (round s).mem.byte source
    ∙ round-source n k s h (omega arith)

elsewhere_at :
    (n : ℕ) (s t : Machine) (a : ℕ)
    → HasRegions (suc n) s
    → IsCopied n (round s) t
    → (a < s.cpu.regs reg_edi) ⊎ (s.cpu.regs reg_edi + suc n ≤ a)
    → t.mem.byte a ≡ s.mem.byte a
elsewhere_at n s t a h done outside =
    let target : u32 (s.cpu.regs reg_edi + 1) ≡ s.cpu.regs reg_edi + 1 =
      omega (arith, h.target_in, h.addressable) in
    let still : (a < u32 (s.cpu.regs reg_edi + 1)) ⊎ (u32 (s.cpu.regs reg_edi + 1) + n ≤ a) =
      ground (arith, outside, target) in
    done.elsewhere a still ∙ ground (arith, round-byte n s a h, outside)

round-IsCopied :
    (n : ℕ) (s t : Machine) → HasRegions (suc n) s → IsCopied n (round s) t → IsCopied (suc n) s t
round-IsCopied n s t h done =
    let esi = s.cpu.regs reg_esi in
    let edi = s.cpu.regs reg_edi in
    let source : u32 (esi + 1) ≡ esi + 1 = omega (arith, h.source_in, h.addressable) in
    let target : u32 (edi + 1) ≡ edi + 1 = omega (arith, h.target_in, h.addressable) in
    record {
      counted = done.counted;
      source_moved = omega (arith, done.source_moved, source);
      target_moved = omega (arith, done.target_moved, target);
      others = λ i p q r. ground (arith, done.others i p q r, p, q, r);
      copied = λ k under. copied_at n k s t h done under;
      elsewhere = λ a outside. elsewhere_at n s t a h done outside;
      same_size = done.same_size ∙ round-size s;
    }

module _ (host : Host) where
  loop_more :
      (fuel : ℕ) (s : Machine)
      → (s.cpu.regs reg_ecx == 0) ≡ false
      → run host (rep_loop movsb_once (suc fuel)) s ≡ run host (rep_loop movsb_once fuel) (round s)
  unfolding rep_loop movsb_once run apply apply_cpu
  loop_more fuel s e = run-if_false host (ret tt) _ s (s.cpu.regs reg_ecx == 0) e

  movsb_loop-IsCopied :
      (fuel n : ℕ) (s : Machine)
      → HasRegions n s
      → s.cpu.regs reg_ecx ≡ n
      → n < 2 ^ 32
      → n < fuel
      → Returns (λ _ t. IsCopied n s t) (run host (rep_loop movsb_once fuel) s)
  movsb_loop-IsCopied zero n s h e small enough = absurd (omega arith)
  movsb_loop-IsCopied (suc fuel) zero s h e small enough =
      rw (loop_done host movsb_once fuel s (ground arith)) (record {
        counted = e;
        source_moved = omega arith;
        target_moved = omega arith;
        others = λ i p q r. refl;
        copied = λ k under. absurd (omega arith);
        elsewhere = λ a outside. refl;
        same_size = refl;
      })
  movsb_loop-IsCopied (suc fuel) (suc n) s h e small enough = rw (loop_more fuel s (ground arith)) (
      Returns-map (λ _ t. IsCopied n (round s) t) (λ _ t. IsCopied (suc n) s t)
        (run host (rep_loop movsb_once fuel) (round s)) (λ _ t done. round-IsCopied n s t h done)
        (movsb_loop-IsCopied fuel n (round s) (round-HasRegions n s h) (omega arith) (omega arith)
          (omega arith)))

-- REP MOVSB between two regions that lie in memory returns: the fuel that its count gives is
-- enough. Where the target does not start inside the source behind its first byte, the target holds
-- what the source held, no other byte has changed, ECX is 0, ESI and EDI stand behind the regions,
-- and the other registers are as before.
pub rep_movsb-IsCopied :
    (host : Host) (size : ℕ) (s : Machine)
    → IsMachine size s
    → HasRegions (s.cpu.regs reg_ecx) s
    → Returns (λ _ t. IsCopied (s.cpu.regs reg_ecx) s t) (run host (rep_case movsb_once) s)
unfolding rep_case run apply apply_cpu
rep_movsb-IsCopied host size s v h =
    let n = s.cpu.regs reg_ecx in
    Returns->>= (λ _ t. IsCopied n s t) (λ _ t. IsCopied n s t) host (rep_loop movsb_once (n + 1))
      (λ _. cycles (n + 1)) s
      (movsb_loop-IsCopied host (n + 1) n s h refl (v.cpu.regs_fit reg_ecx) (omega arith))
      (λ _ t done. record {
        counted = done.counted;
        source_moved = done.source_moved;
        target_moved = done.target_moved;
        others = done.others;
        copied = done.copied;
        elsewhere = done.elsewhere;
        same_size = done.same_size;
      })
