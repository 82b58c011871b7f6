-- ===== src/Cpu/Total/Prefixes.antt =====
-- Fuel in the prefix handlers, which call `execute_opcode` again (src/cpu/ops.c).
use fake_kernel.Prelude.{
  ℕ, suc, ◌+◌, ◌-◌, ◌^◌, ◌<◌, ◌≤◌, ◌≡◌, refl, ap, arith, Bool-cases, inl, inr, ltb, u32, ◌==◌,
  if◌then◌else◌, false,
}
use fake_kernel.Mem.{mem_read8}
use fake_kernel.Mem.Laws.{out_of_bounds}
use fake_kernel.Machine.{
  Machine, reg_ecx, apply, apply_cpu, set_eip, set_seg_override, set_operand_size_16,
}
use fake_kernel.Prog.{Host, run, ◌>>◌, assign}
use fake_kernel.Prog.Total.{NoFuel, no_fuel}
use fake_kernel.Prog.Finishes.{Finishes, NoFuel-Finishes, Finishes->>=, Finishes-if}
use fake_kernel.Cpu.{cycles, stop}
use fake_kernel.Cpu.Table.{Handler}
use fake_kernel.Cpu.Execute.{
  op_prefix_0f, op_rep, op_repne, op_prefix_cs, op_prefix_gs, op_prefix_66, op_prefix_67,
  op_prefix_lock,
}
use fake_kernel.Cpu.System.{op_int}
use fake_kernel.Syscall.Build.{Build, backend, backend-IsBackend}
use fake_kernel.Syscall.Total.Dispatch.{dispatch_syscall-NoFuel}
use fake_kernel.Cpu.Strings.{rep_case, movsb_once, movsd_once, stosb_once, stosd_once, repne_scasb}
use fake_kernel.Cpu.Sse.Move.{rep_0f, repne_0f}
use fake_kernel.Cpu.Total.Loops.{string_loops-Finish}
use fake_kernel.Cpu.Total.Table0f.{opcode_table_0f-NoFuel}
use fake_kernel.Cpu.Total.Media.{SseMove_total}

module _ (host : Host) where
  -- Guest memory ends below 2 ^ 32, and ECX is a word.
  abbrev pub Ready : Machine → Type 0
  Ready s = (s.mem.size < 2 ^ 32) × (s.cpu.regs reg_ecx < 2 ^ 32)

  -- The handler finishes with fuel for the bytes from EIP to the end of memory.
  abbrev pub Serves : ℕ → Handler → Type 0
  Serves n h =
      (op : ℕ) (s : Machine)
      → Ready s
      → s.mem.size - s.cpu.eip + 2 ≤ n
      → Finishes (run host (h op) s)

  module _ (n : ℕ) where
    pub total : {h : Handler} → ((op : ℕ) → NoFuel (h op)) → Serves n h
    total {h = h} t op s ready enough = NoFuel-Finishes host (h op) s (t op)

    pub op_int-Serves : (build : Build) → Serves n (op_int (backend build))
    unfolding op_int
    op_int-Serves build op s ready enough = NoFuel-Finishes host (op_int (backend build) op) s (
        search (no_fuel, dispatch_syscall-NoFuel (backend build) (backend-IsBackend build)) depth
          40)

    pub op_prefix_0f-Serves : Serves n op_prefix_0f
    unfolding op_prefix_0f
    op_prefix_0f-Serves op s ready enough =
        NoFuel-Finishes host (op_prefix_0f op) s (search (no_fuel, opcode_table_0f-NoFuel) depth 40)

    pub op_repne-Serves : Serves n op_repne
    unfolding op_repne run apply apply_cpu
    op_repne-Serves op s ready enough =
        let next = mem_read8 s.cpu.eip s.mem in
        let t = apply (set_eip (s.cpu.eip + 1)) s in
        let loops = string_loops-Finish host t ready.1 in
        Finishes-if host (next == 0xae) repne_scasb (if next == 0x0f then repne_0f else stop) t
          (λ _. loops.4)
          (λ _.
            Finishes-if host (next == 0x0f) repne_0f stop t
              (λ _. NoFuel-Finishes host repne_0f t (SseMove_total op).9) (λ _. tt))

    pub op_rep-Serves : Serves n op_rep
    unfolding op_rep run apply apply_cpu
    op_rep-Serves op s ready enough =
        let next = mem_read8 s.cpu.eip s.mem in
        let t = apply (set_eip (s.cpu.eip + 1)) s in
        let loops = string_loops-Finish host t ready.1 in
        Finishes-if host (next == 0x0f) rep_0f _ t
          (λ _. NoFuel-Finishes host rep_0f t (SseMove_total op).10)
          λ _.
            Finishes-if host (next == 0xa4) (rep_case movsb_once) _ t (λ _. loops.0)
              λ _.
                Finishes-if host (next == 0xa5) (rep_case movsd_once) _ t (λ _. loops.1)
                  λ _.
                    Finishes-if host (next == 0xaa) (rep_case stosb_once) _ t (λ _. loops.2)
                      λ _.
                        Finishes-if host (next == 0xab) (rep_case stosd_once) stop t (λ _. loops.3)
                          (λ _. tt)

    -- What a prefix passes on, with one step of fuel fewer.
    module _ (exec : Handler) (serves : Serves n exec)
        (zero_finishes : (s : Machine) → Finishes (run host (exec 0) s)) where
      next-Finishes :
          (s t : Machine)
          → Ready s
          → s.mem.size - s.cpu.eip + 2 ≤ suc n
          → t.mem ≡ s.mem
          → t.cpu.regs reg_ecx ≡ s.cpu.regs reg_ecx
          → t.cpu.eip ≡ u32 (s.cpu.eip + 1)
          → Finishes (run host (exec (mem_read8 s.cpu.eip s.mem)) t)
      next-Finishes s t ready enough same_mem same_ecx moved =
          let size : t.mem.size ≡ s.mem.size = ap (λ m. m.size) same_mem in
          elim (Bool-cases (ltb s.cpu.eip s.mem.size)) [
            | inl e ↦
                let inside : s.cpu.eip < s.mem.size = ground arith in
                serves (mem_read8 s.cpu.eip s.mem) t
                  (omega (arith, ready, size), omega (arith, ready, same_ecx))
                  (omega (arith, ready, size, moved))
            | inr e ↦
                let outside : s.mem.size ≤ s.cpu.eip = ground arith in
                rw (out_of_bounds s.mem s.cpu.eip 0 outside).0 (zero_finishes t)
          ]

      pub op_prefix_cs-Serves : Serves (suc n) (op_prefix_cs exec)
      unfolding op_prefix_cs run apply apply_cpu
      op_prefix_cs-Serves op s ready enough =
          Finishes->>= host (exec (mem_read8 s.cpu.eip s.mem)) (λ _. cycles 1) _
            (next-Finishes s _ ready enough refl refl refl) (λ _ t. tt)

      pub op_prefix_67-Serves : Serves (suc n) (op_prefix_67 exec)
      unfolding op_prefix_67 run apply apply_cpu
      op_prefix_67-Serves op s ready enough =
          Finishes->>= host (exec (mem_read8 s.cpu.eip s.mem)) (λ _. cycles 1) _
            (next-Finishes s _ ready enough refl refl refl) (λ _ t. tt)

      pub op_prefix_lock-Serves : Serves (suc n) (op_prefix_lock exec)
      unfolding op_prefix_lock run apply apply_cpu
      op_prefix_lock-Serves op s ready enough =
          Finishes->>= host (exec (mem_read8 s.cpu.eip s.mem)) (λ _. cycles 1) _
            (next-Finishes s _ ready enough refl refl refl) (λ _ t. tt)

      pub op_prefix_gs-Serves : Serves (suc n) (op_prefix_gs exec)
      unfolding op_prefix_gs run apply apply_cpu
      op_prefix_gs-Serves op s ready enough =
          Finishes->>= host (exec (mem_read8 s.cpu.eip s.mem))
            (λ _. assign (set_seg_override 0) >> cycles 1) _
            (next-Finishes s _ ready enough refl refl refl) (λ _ t. tt)

      pub op_prefix_66-Serves : Serves (suc n) (op_prefix_66 exec)
      unfolding op_prefix_66 run apply apply_cpu
      op_prefix_66-Serves op s ready enough =
          Finishes->>= host (exec (mem_read8 s.cpu.eip s.mem))
            (λ _. assign (set_operand_size_16 false)) _
            (next-Finishes s _ ready enough refl refl refl) (λ _ t. tt)
