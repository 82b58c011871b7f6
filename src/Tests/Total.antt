-- ===== src/Tests/Total.antt =====
-- The ends of rounds and runs at concrete inputs.
use fake_kernel.Prelude.{ℕ, ◌+◌, ◌≡◌, ◌≢◌, refl, arith, inl, if◌then◌else◌, ◌==◌, u32, ◌∷◌}
use fake_kernel.Mem.{mem_read8, check_bounds}
use fake_kernel.Machine.{Machine, reg_eax, halt, apply}
use fake_kernel.Prog.Valid.{Returns}
use fake_kernel.Syscall.Files.{valid_fd}
use fake_kernel.Cpu.Emulate.Interrupt.{
  AtInterrupt, AtWrite, entered, guest_call, guest_answer, emulate_once-write, emulate-exit,
}
use fake_kernel.Prog.{run, exited}
use fake_kernel.Prog.Finishes.{Finishes}
use fake_kernel.Cpu.Emulate.{emulate, emulate_once}
use fake_kernel.Cpu.Emulate.Runs.{EmulateOutcome, emulate-Rounds}
use fake_kernel.Cpu.Total.Rounds.{emulate_once-Finishes}
use fake_kernel.Tests.{demo, demo_at, demo_at-IsMachine, demo_host, demo_platform}

-- HLT stands at 0x200.
emulate_once-Finishes_example :
    Finishes (run demo_host (emulate_once demo_platform) (demo_at 0x200))
emulate_once-Finishes_example =
    emulate_once-Finishes demo_platform demo_host 0x40_0000 (demo_at 0x200)
      (demo_at-IsMachine 0x200 (omega arith)) (omega arith)

emulate-Rounds_example :
    EmulateOutcome demo_platform demo_host 3
      (demo_at 0x200)
      (run demo_host (emulate demo_platform 3) (demo_at 0x200))
emulate-Rounds_example =
    emulate-Rounds demo_platform demo_host 3 0x40_0000 (demo_at 0x200)
      (demo_at-IsMachine 0x200 (omega arith)) (omega arith)

-- INT 0x80 at 0x100, for three bytes from 0x300 to descriptor 3.
abbrev writing : Machine
writing = record demo {
  cpu = record demo.cpu { regs = λ i. if i == 0 then 4 else if i == 1 then 0x300 else 3 };
  mem = record demo.mem {
    byte = λ a. if a == 0x100 then 0xcd else if a == 0x101 then 0x80 else demo.mem.byte a;
  };
}

writing-AtWrite : AtWrite 2 writing
unfolding mem_read8 check_bounds valid_fd
writing-AtWrite = record {
  interrupt = record { opcode = refl; vector = refl };
  number = refl;
  counted = refl;
  usable = refl;
  addressable = omega arith;
  buffer_in = omega arith;
}

emulate_once-write_example :
    Returns
      (λ _ t.
        (t.trace ≡ guest_call demo_platform demo_host 2 writing ∷ writing.trace)
        × (t.cpu.regs reg_eax ≡ u32 (guest_answer demo_platform demo_host 2 writing))
        × (t.cpu.eip ≡ u32 (writing.cpu.eip + 2))
        × (t.cpu.eflags ≡ writing.cpu.eflags)
        × (t.mem ≡ writing.mem)
        × ((i : ℕ) → i ≢ reg_eax → t.cpu.regs i ≡ writing.cpu.regs i))
      (run demo_host (emulate_once demo_platform) writing)
emulate_once-write_example = emulate_once-write demo_platform demo_host 2 writing writing-AtWrite

-- The same place with EAX 1, for `exit` with status 3.
abbrev exiting : Machine
exiting = record writing { cpu = record writing.cpu { regs = λ i. if i == 0 then 1 else 3 } }

exiting-AtInterrupt : AtInterrupt exiting
unfolding mem_read8 check_bounds
exiting-AtInterrupt = record { opcode = refl; vector = refl }

emulate-exit_example :
    run demo_host (emulate demo_platform 1) exiting ≡ exited 3 (apply halt (entered exiting))
emulate-exit_example =
    emulate-exit demo_platform demo_host 0 exiting exiting-AtInterrupt refl (inl refl)
