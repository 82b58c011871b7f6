-- ===== src/Cpu/Stack/Laws.antt =====
-- What goes on the stack, and what comes back from it.
use fake_kernel.Prelude.{
  ℕ, ◌+◌, ◌-◌, ◌%◌, ◌^◌, ◌<◌, ◌≤◌, ◌≡◌, ◌≢◌, ◌⊎◌, refl, arith, false, if◌then◌else◌, ◌==◌, sub32,
  add32, u32, ◌∙◌, ap,
}
use fake_kernel.Mem.{mem_read32, mem_write32}
use fake_kernel.Mem.Laws.{read32-write32, write32-outside}
use fake_kernel.Mem.Blocks.{mem_write32-size}
use fake_kernel.Machine.{Machine, reg_esp, set_reg, add_cycles, write32, apply, apply_cpu}
use fake_kernel.Machine.Valid.{IsMachine}
use fake_kernel.Prog.{Host, run, ◌>>◌}
use fake_kernel.Prog.Valid.{Returns}
use fake_kernel.Cpu.Stack.{op_push_r32, op_pop_r32, op_call_rel32, op_ret}

-- A machine whose stack pointer has room for one more dword in memory.
pub record HasRoom (size : ℕ) (s : Machine) : Type 0 where
  pub valid : IsMachine size s
  pub addressable : size ≤ 2 ^ 32
  pub above : 4 ≤ s.cpu.regs reg_esp
  pub inside : s.cpu.regs reg_esp ≤ size

module _ (size : ℕ) (s : Machine) (room : HasRoom size s) where
  -- The dword that a push of `v` leaves on top.
  top_of_push :
      (v : ℕ)
      → v < 2 ^ 32
      → (e : ℕ) → e ≡ u32 (sub32 (s.cpu.regs reg_esp) 4)
      → mem_read32 e (mem_write32 e (u32 v) s.mem) ≡ v
  top_of_push v small e same =
      let fits = room.valid.cpu.regs_fit reg_esp in
      let above = room.above in
      let inside = room.inside in
      let total = room.valid.same_size in
      let addressable = room.addressable in
      let cut : u32 v ≡ v = omega arith in
      rw cut (read32-write32 s.mem e v (omega arith) (omega arith) small)

-- PUSH of a register with room on the stack moves ESP down by 4, keeps the other registers, puts a
-- dword there and changes no other byte; the cycles are one more, and nothing else changes. The
-- dword is the register's, but for PUSH ESP it is ESP after the move.
pub op_push_r32_lem :
    (host : Host) (size op : ℕ) (s : Machine)
    → HasRoom size s
    → Returns
        (λ _ t.
          (t.cpu.regs reg_esp ≡ s.cpu.regs reg_esp - 4)
          × ((i : ℕ) → i ≢ reg_esp → t.cpu.regs i ≡ s.cpu.regs i)
          × (mem_read32 (t.cpu.regs reg_esp) t.mem
              ≡ (if op % 8 == reg_esp then s.cpu.regs reg_esp - 4 else s.cpu.regs (op % 8)))
          × ((a : ℕ)
              → (a < t.cpu.regs reg_esp) ⊎ (s.cpu.regs reg_esp ≤ a)
              → t.mem.byte a ≡ s.mem.byte a)
          × (t ≡ record s {
            mem = record s.mem { byte = t.mem.byte };
            cpu = record s.cpu { regs = t.cpu.regs; cycles = u32 (s.cpu.cycles + 1) };
          }))
        (run host (op_push_r32 op) s)
unfolding run op_push_r32 apply apply_cpu
op_push_r32_lem host size op s room =
    let fits = room.valid.cpu.regs_fit in
    let above = room.above in
    let total = room.valid.same_size in
    let addressable = room.addressable in
    let moved : u32 (sub32 (s.cpu.regs reg_esp) 4) ≡ s.cpu.regs reg_esp - 4 =
      omega (arith, fits reg_esp) in
    let inside = room.inside in
    let e = s.cpu.regs reg_esp - 4 in
    let val =
      if op % 8 == reg_esp then u32 (sub32 (s.cpu.regs reg_esp) 4) else s.cpu.regs (op % 8) in
    let small : val < 2 ^ 32 = ground (arith, fits (op % 8)) in
    let cut : u32 val ≡ val = omega arith in
    let moved_esp = apply (set_reg reg_esp (sub32 (s.cpu.regs reg_esp) 4)) s in
    let pushed = moved_esp.cpu.regs (op % 8) in
    let last =
      apply (add_cycles 1) (apply (write32 (moved_esp.cpu.regs reg_esp) (u32 pushed)) moved_esp) in
    let back = top_of_push size s room val small (u32 (sub32 (s.cpu.regs reg_esp) 4)) refl in
    (
      moved,
      λ i ne. ground (arith, ne),
      back ∙ rw moved refl,
      λ a apart.
          write32-outside s.mem (u32 (sub32 (s.cpu.regs reg_esp) 4)) (u32 val) a
            (ground (arith, apart)) (omega arith),
      ap (λ (n : ℕ). record last { mem = record last.mem { size = n } })
          (mem_write32-size (u32 (sub32 (s.cpu.regs reg_esp) 4)) (u32 pushed) s.mem),
    )

-- PUSH of one register and POP of another, with room on the stack and neither of them ESP: the
-- second holds what the first held, and every other register, ESP too, what it held before.
pub push-pop :
    (host : Host) (size op next : ℕ) (s : Machine)
    → HasRoom size s
    → op % 8 ≢ reg_esp
    → next % 8 ≢ reg_esp
    → Returns
        (λ _ t.
          (i : ℕ) → t.cpu.regs i ≡ (if i == next % 8 then s.cpu.regs (op % 8) else s.cpu.regs i))
        (run host (op_push_r32 op >> op_pop_r32 next) s)
unfolding run op_push_r32 op_pop_r32 apply apply_cpu
push-pop host size op next s room ne far =
    let fits = room.valid.cpu.regs_fit in
    let above = room.above in
    let e = u32 (sub32 (s.cpu.regs reg_esp) 4) in
    let back = top_of_push size s room (s.cpu.regs (op % 8)) (fits (op % 8)) e refl in
    let other : (op % 8 == reg_esp) ≡ false = ground (arith, ne) in
    rw (other, back) λ i. ground (arith, fits i, fits (op % 8), fits reg_esp, far)

-- POP ESP, behind a PUSH of another register with room on the stack, leaves in ESP the popped
-- dword plus 4, as ESP is moved after it was loaded.
pub push-pop_esp :
    (host : Host) (size op next : ℕ) (s : Machine)
    → HasRoom size s
    → op % 8 ≢ reg_esp
    → next % 8 ≡ reg_esp
    → Returns
        (λ _ t. t.cpu.regs reg_esp ≡ add32 (s.cpu.regs (op % 8)) 4)
        (run host (op_push_r32 op >> op_pop_r32 next) s)
unfolding run op_push_r32 op_pop_r32 apply apply_cpu
push-pop_esp host size op next s room ne same =
    let fits = room.valid.cpu.regs_fit in
    let e = u32 (sub32 (s.cpu.regs reg_esp) 4) in
    let back = top_of_push size s room (s.cpu.regs (op % 8)) (fits (op % 8)) e refl in
    let other : (op % 8 == reg_esp) ≡ false = ground (arith, ne) in
    rw (other, back) (ground (arith, fits (op % 8), same))

-- CALL with room on the stack and then RET: execution goes on behind the CALL, with every register
-- as it was. Between them EIP is that address plus the offset.
pub call-ret :
    (host : Host) (size : ℕ) (s : Machine)
    → HasRoom size s
    → Returns
        (λ _ t.
          (t.cpu.eip ≡ u32 (add32 s.cpu.eip 4 + mem_read32 s.cpu.eip s.mem))
          × Returns
              (λ _ v. (v.cpu.eip ≡ add32 s.cpu.eip 4) × ((i : ℕ) → v.cpu.regs i ≡ s.cpu.regs i))
              (run host (op_ret 0xc3) t))
        (run host (op_call_rel32 0xe8) s)
unfolding run op_call_rel32 op_ret apply apply_cpu
call-ret host size s room =
    let fits = room.valid.cpu.regs_fit in
    let above = room.above in
    let e = u32 (sub32 (s.cpu.regs reg_esp) 4) in
    let next : u32 (s.cpu.eip + 4) < 2 ^ 32 = omega arith in
    let back = top_of_push size s room (u32 (s.cpu.eip + 4)) next e refl in
    (refl, rw back (omega arith, λ i. ground (arith, fits i, fits reg_esp)))
