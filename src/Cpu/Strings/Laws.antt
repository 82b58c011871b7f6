-- ===== src/Cpu/Strings/Laws.antt =====
-- The repeated string instructions.
use fake_kernel.Prelude.{
  ℕ, zero, suc, ◌+◌, ◌^◌, ◌<◌, ◌≤◌, ◌≡◌, ◌≢◌, refl, arith, true, false, ◌==◌, u8, u32, sub32,
}
use fake_kernel.Mem.{mem_write8, check_bounds, fill_bytes}
use fake_kernel.Machine.{Machine, reg_eax, reg_ecx, reg_edi, apply, apply_cpu, update}
use fake_kernel.Machine.Valid.{IsMachine}
use fake_kernel.Prog.{Prog, Host, ok, run, ret, run-if_true, run-if_false}
use fake_kernel.Prog.Valid.{Returns, Returns-map, Returns->>=}
use fake_kernel.Cpu.{cycles}
use fake_kernel.Cpu.Strings.{stosb_once, rep_loop, rep_case}

-- The state after `n` bytes have been stored from EDI on.
pub record IsFilled (n : ℕ) (s t : Machine) : Type 0 where
  pub counted : t.cpu.regs reg_ecx ≡ 0
  pub moved : t.cpu.regs reg_edi ≡ u32 (s.cpu.regs reg_edi + n)
  pub others : (i : ℕ) → i ≢ reg_ecx → i ≢ reg_edi → t.cpu.regs i ≡ s.cpu.regs i
  pub filled :
      (a : ℕ) → t.mem.byte a ≡ (fill_bytes (s.cpu.regs reg_edi) n (s.cpu.regs reg_eax) s.mem).byte a
  pub same_size : t.mem.size ≡ s.mem.size

-- A machine whose EDI and ECX name a region of memory.
pub record HasTarget (s : Machine) : Type 0 where
  pub addressable : s.mem.size < 2 ^ 32
  pub inside : s.cpu.regs reg_edi + s.cpu.regs reg_ecx ≤ s.mem.size

-- The state after one round of the loop.
abbrev round : Machine → Machine
round s = record s {
  mem = mem_write8 (s.cpu.regs reg_edi) (u8 (s.cpu.regs reg_eax)) s.mem;
  cpu = record s.cpu {
    regs =
        update (update s.cpu.regs reg_edi (u32 (s.cpu.regs reg_edi + 1))) reg_ecx
          (u32 (sub32 (s.cpu.regs reg_ecx) 1));
  };
}

round-IsFilled :
    (n : ℕ) (s t : Machine)
    → s.mem.size < 2 ^ 32
    → s.cpu.regs reg_edi < s.mem.size
    → IsFilled n (round s) t
    → IsFilled (suc n) s t
unfolding mem_write8 check_bounds fill_bytes
round-IsFilled n s t fits inside h = record {
  counted = h.counted;
  moved = omega (arith, h.moved);
  others = λ i p q. ground (arith, h.others i p q, p, q);
  filled = λ a. ground (arith, h.filled a);
  same_size = ground (arith, h.same_size);
}

round-HasTarget :
    (s : Machine)
    → HasTarget s
    → s.cpu.regs reg_ecx < 2 ^ 32
    → 0 < s.cpu.regs reg_ecx
    → HasTarget (round s)
unfolding mem_write8 check_bounds
round-HasTarget s h small more = record {
  addressable = ground (arith, h.addressable);
  inside = ground (arith, h.addressable, h.inside);
}

-- With ECX 0 the loop is done.
pub loop_done :
    (host : Host) (once : Prog (Unit {0})) (fuel : ℕ) (s : Machine)
    → (s.cpu.regs reg_ecx == 0) ≡ true
    → run host (rep_loop once (suc fuel)) s ≡ ok tt s
unfolding rep_loop run
loop_done host once fuel s e = run-if_true host (ret tt) _ s (s.cpu.regs reg_ecx == 0) e

module _ (host : Host) where
  loop_more :
      (fuel : ℕ) (s : Machine)
      → (s.cpu.regs reg_ecx == 0) ≡ false
      → run host (rep_loop stosb_once (suc fuel)) s ≡ run host (rep_loop stosb_once fuel) (round s)
  unfolding rep_loop stosb_once run apply apply_cpu
  loop_more fuel s e = run-if_false host (ret tt) _ s (s.cpu.regs reg_ecx == 0) e

  stosb_loop-IsFilled :
      (fuel n : ℕ) (s : Machine)
      → HasTarget s
      → s.cpu.regs reg_edi < 2 ^ 32
      → s.cpu.regs reg_ecx ≡ n
      → n < 2 ^ 32
      → n < fuel
      → Returns (λ _ t. IsFilled n s t) (run host (rep_loop stosb_once fuel) s)
  unfolding fill_bytes
  stosb_loop-IsFilled zero n s h fits e small enough = absurd (omega arith)
  stosb_loop-IsFilled (suc fuel) zero s h fits e small enough =
      rw (loop_done host stosb_once fuel s (ground arith)) (record {
        counted = e;
        moved = omega arith;
        others = λ i p q. refl;
        filled = λ a. ground arith;
        same_size = refl;
      })
  stosb_loop-IsFilled (suc fuel) (suc n) s h fits e small enough =
      rw (loop_more fuel s (ground arith)) (
        Returns-map (λ _ t. IsFilled n (round s) t) (λ _ t. IsFilled (suc n) s t)
          (run host (rep_loop stosb_once fuel) (round s))
          (λ _ t done. round-IsFilled n s t h.addressable (omega (arith, h.inside)) done)
          (stosb_loop-IsFilled fuel n (round s) (round-HasTarget s h (omega arith) (omega arith))
            (omega arith) (omega arith) (omega arith) (omega arith)))

-- REP STOSB with a region that lies in memory returns: the fuel that its count gives is enough. It
-- fills the region with AL and nothing else, counts ECX down to 0, moves EDI over the region and
-- keeps the other registers.
pub rep_stosb-IsFilled :
    (host : Host) (size : ℕ) (s : Machine)
    → IsMachine size s
    → HasTarget s
    → Returns (λ _ t. IsFilled (s.cpu.regs reg_ecx) s t) (run host (rep_case stosb_once) s)
unfolding rep_case run apply apply_cpu
rep_stosb-IsFilled host size s v h =
    let n = s.cpu.regs reg_ecx in
    Returns->>= (λ _ t. IsFilled n s t) (λ _ t. IsFilled n s t) host (rep_loop stosb_once (n + 1))
      (λ _. cycles (n + 1)) s
      (stosb_loop-IsFilled host (n + 1) n s h (v.cpu.regs_fit reg_edi) refl (v.cpu.regs_fit reg_ecx)
        (omega arith))
      (λ _ t done. record {
        counted = done.counted;
        moved = done.moved;
        others = done.others;
        filled = done.filled;
        same_size = done.same_size;
      })
