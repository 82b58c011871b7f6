-- ===== src/Cpu/Emulate/Interrupt.antt =====
-- INT 0x80 from the fetch of its bytes (`emulate` of src/cpu/cpu.c) to the backend.
use fake_kernel.Prelude.{
  ℕ, ◌+◌, ◌^◌, ◌<◌, ◌≤◌, ◌≡◌, ◌≢◌, refl, arith, ◌⊎◌, suc, true, false, ◌==◌, u32, ◌∷◌, ◌∙◌,
}
use mathlib.Core.Path.{ap, sym, subst}
use fake_kernel.Mem.{mem_read8}
use fake_kernel.Machine.{
  Machine, HostCall, reg_eax, reg_ebx, reg_ecx, reg_edx, apply, apply_cpu, set_reg, halt,
}
use fake_kernel.Prog.{Host, exited, run, assign, run-if_true, run->>=, and_then, ◌>>◌}
use fake_kernel.Prog.Valid.{Returns}
use fake_kernel.Platform.{Platform, calls_of}
use fake_kernel.Cpu.{cycles}
use fake_kernel.Cpu.Table.{fill, fill_all}
use fake_kernel.Cpu.System.{op_int}
use fake_kernel.Cpu.Execute.{execute_opcode, opcode_table, entries}
use fake_kernel.Cpu.Emulate.{emulate, emulate_once, prefix_fuel}
use fake_kernel.Cpu.Emulate.Laws.{emulate_running}
use fake_kernel.Syscall.{dispatch_syscall}
use fake_kernel.Syscall.Host.{bytes_at}
use fake_kernel.Syscall.Files.{valid_fd, sys_write}
use fake_kernel.Syscall.Files.Contract.{writes, perform}
use fake_kernel.Syscall.Files.Writev.{write_call, write_answer}
use fake_kernel.Syscall.Files.Writev.Sends.{sys_write-run}
use fake_kernel.Syscall.Requests.{to_write, answer, dispatch_syscall-perform, dispatch_syscall-exit}

-- The bytes of INT 0x80 stand at EIP.
pub record AtInterrupt (s : Machine) : Type 0 where
  pub opcode : mem_read8 s.cpu.eip s.mem ≡ 0xcd
  pub vector : mem_read8 (u32 (s.cpu.eip + 1)) s.mem ≡ 0x80

-- The state after the fetches.
abbrev pub entered : Machine → Machine
entered s = record s {
  last_eip = u32 s.cpu.eip;
  cpu = record s.cpu { eip = u32 (u32 (s.cpu.eip + 1) + 1) };
}

module _ (plat : Platform) (host : Host) (s : Machine) where
  abbrev fetched : Machine
  fetched = record s { last_eip = u32 s.cpu.eip; cpu = record s.cpu { eip = u32 (s.cpu.eip + 1) } }

  execute-int :
      run host (execute_opcode plat prefix_fuel 0xcd) fetched
      ≡ run host (op_int (calls_of plat) 0xcd) fetched
  unfolding execute_opcode opcode_table entries fill fill_all
  execute-int = refl

  op_int-dispatch :
      mem_read8 (u32 (s.cpu.eip + 1)) s.mem ≡ 0x80
      → run host (op_int (calls_of plat) 0xcd) fetched
        ≡ run host (dispatch_syscall (calls_of plat) >> cycles 50) (entered s)
  unfolding op_int run apply apply_cpu
  op_int-dispatch vector =
      run-if_true host _ _ (entered s) (mem_read8 (u32 (s.cpu.eip + 1)) s.mem == 0x80)
        (ground arith)

  emulate_once-dispatch :
      AtInterrupt s
      → run host (emulate_once plat) s
        ≡ run host (dispatch_syscall (calls_of plat) >> cycles 50) (entered s)
  unfolding emulate_once run apply apply_cpu
  emulate_once-dispatch h =
      ap (λ op. run host (execute_opcode plat prefix_fuel op) fetched) h.opcode
      ∙ execute-int
      ∙ op_int-dispatch h.vector

-- A guest that is about to write `n + 1` bytes of its memory to an open descriptor.
pub record AtWrite (n : ℕ) (s : Machine) : Type 0 where
  pub interrupt : AtInterrupt s
  pub number : s.cpu.regs reg_eax ≡ 4
  pub counted : s.cpu.regs reg_edx ≡ n + 1
  pub usable : valid_fd (s.cpu.regs reg_ebx) s.fd_table ≡ true
  pub addressable : s.mem.size < 2 ^ 32
  pub buffer_in : s.cpu.regs reg_ecx + (n + 1) ≤ s.mem.size

module _ (plat : Platform) (host : Host) (n : ℕ) (s : Machine) where
  -- The call to the host, and the answer in EAX.
  abbrev pub guest_call : HostCall
  guest_call =
      write_call plat.build (s.fd_table (s.cpu.regs reg_ebx)).host_fd
        (bytes_at (n + 1) (s.cpu.regs reg_ecx) s.mem)

  abbrev pub guest_answer : ℕ
  guest_answer = write_answer plat.build (host s.trace guest_call)

  abbrev called : Machine
  called = record (entered s) { trace = guest_call ∷ s.trace }

  answer-run :
      AtWrite n s
      → run host
          (answer (perform (calls_of plat) (writes (s.cpu.regs reg_ebx) (s.cpu.regs reg_ecx) n)))
          (entered s)
        ≡ run host (assign (set_reg reg_eax guest_answer)) called
  unfolding perform
  answer-run h =
      let call = sys_write (calls_of plat) (s.cpu.regs reg_ebx) (s.cpu.regs reg_ecx) (n + 1) in
      run->>= host call (λ v. assign (set_reg reg_eax v)) (entered s)
      ∙ ap (λ r. and_then r (λ v. run host (assign (set_reg reg_eax v))))
          (sys_write-run host (entered s) plat.build (s.cpu.regs reg_ebx) (s.cpu.regs reg_ecx)
            (n + 1) h.usable h.addressable h.buffer_in (omega arith))

  write-run :
      AtWrite n s
      → run host (emulate_once plat) s
        ≡ run host (cycles 50) (apply (set_reg reg_eax guest_answer) called)
  unfolding run
  write-run h =
      emulate_once-dispatch plat host s h.interrupt
      ∙ run->>= host (dispatch_syscall (calls_of plat)) (λ _. cycles 50) (entered s)
      ∙ ap (λ r. and_then r (λ _. run host (cycles 50)))
          (dispatch_syscall-perform (calls_of plat) host (entered s) _
              (to_write n h.number h.counted)
            ∙ answer-run h)

  -- One round of the loop at INT 0x80 with EAX 4, an open descriptor in EBX and a buffer in memory:
  -- it returns, having made exactly one call to the host, which writes exactly the bytes of the
  -- buffer to the host's descriptor. EAX has the host's count or the negated error, EIP stands
  -- behind the two bytes, and memory, the flags and all other registers are as before. This is so
  -- in both builds.
  pub emulate_once-write :
      AtWrite n s
      → Returns
          (λ _ t.
            (t.trace ≡ guest_call ∷ s.trace)
            × (t.cpu.regs reg_eax ≡ u32 guest_answer)
            × (t.cpu.eip ≡ u32 (s.cpu.eip + 2))
            × (t.cpu.eflags ≡ s.cpu.eflags)
            × (t.mem ≡ s.mem)
            × ((i : ℕ) → i ≢ reg_eax → t.cpu.regs i ≡ s.cpu.regs i))
          (run host (emulate_once plat) s)
  unfolding run apply apply_cpu
  emulate_once-write h =
      subst (Returns _) (sym (write-run h))
        (refl, refl, omega arith, refl, refl, λ i apart. ground (arith, apart))

-- A running guest at INT 0x80 that asks for `exit` or `exit_group` ends the program in this round,
-- with the status in EBX, and no host call and no change of memory: the loop needs no more fuel
-- than for one round.
pub emulate-exit :
    (plat : Platform) (host : Host) (fuel : ℕ) (s : Machine)
    → AtInterrupt s
    → s.cpu.halted ≡ false
    → (s.cpu.regs reg_eax ≡ 1) ⊎ (s.cpu.regs reg_eax ≡ 252)
    → run host (emulate plat (suc fuel)) s ≡ exited (s.cpu.regs reg_ebx) (apply halt (entered s))
emulate-exit plat host fuel s h going number =
    emulate_running plat host fuel s going
    ∙ ap (λ r. and_then r (λ _. run host (emulate plat fuel)))
        (emulate_once-dispatch plat host s h
          ∙ run->>= host (dispatch_syscall (calls_of plat)) (λ _. cycles 50) (entered s)
          ∙ ap (λ r. and_then r (λ _. run host (cycles 50)))
              (dispatch_syscall-exit (calls_of plat) host (entered s) number))
