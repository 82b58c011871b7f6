-- ===== src/Cpu/Emulate/Laws.antt =====
-- The whole emulator.
use fake_kernel.Prelude.{ℕ, suc, ◌≡◌, refl, ◌∙◌, arith, true, false}
use fake_kernel.Machine.{Machine}
use fake_kernel.Machine.Valid.{IsMachine, IsCpu, apply-IsMachine, IsMachine-trace}
use fake_kernel.Prog.{Prog, Host, ok, run, run->>=, and_then, run-if_true, run-if_false, ret, ◌>>◌}
use fake_kernel.Prog.Valid.{Ends, run-Ends}
use fake_kernel.Platform.{Platform}
use fake_kernel.Cpu.Emulate.{init_cpu, emulate, emulate_once}

-- One round of the loop, and the whole loop on any fuel, keep the machine well formed whatever the
-- instructions are and whatever the host answers: in the state in which they return or exit, registers
-- fit 32 bits, bit 1 of EFLAGS is set, bytes fit 8 bits, and the guest memory has the size that it
-- started with.
pub emulate-IsMachine :
    (plat : Platform) (host : Host) (fuel size : ℕ) (s : Machine)
    → IsMachine size s
    → Ends (IsMachine size) (run host (emulate_once plat) s)
      × Ends (IsMachine size) (run host (emulate plat fuel) s)
emulate-IsMachine plat host fuel size s h = (kept (emulate_once plat), kept (emulate plat fuel))
  where
    kept : (p : Prog (Unit {0})) → Ends (IsMachine size) (run host p s)
    kept p = run-Ends (IsMachine size) apply-IsMachine IsMachine-trace host p s h

pub init_cpu-IsCpu : IsCpu init_cpu
unfolding init_cpu
init_cpu-IsCpu = record {
  regs_fit = λ i. omega arith;
  eip_fits = omega arith;
  reserved = refl;
  cycles_fit = omega arith;
}

module _ (plat : Platform) (host : Host) (fuel : ℕ) (s : Machine) where
  pub emulate_stopped : s.cpu.halted ≡ true → run host (emulate plat (suc fuel)) s ≡ ok tt s
  unfolding run emulate
  emulate_stopped e =
      run-if_true host (ret tt) (emulate_once plat >> emulate plat fuel) s s.cpu.halted e

  pub emulate_running :
      s.cpu.halted ≡ false
      → run host (emulate plat (suc fuel)) s
        ≡ and_then (run host (emulate_once plat) s) (λ _. run host (emulate plat fuel))
  unfolding run emulate
  emulate_running e =
      run-if_false host (ret tt) (emulate_once plat >> emulate plat fuel) s s.cpu.halted e
      ∙ run->>= host (emulate_once plat) (λ _. emulate plat fuel) s
