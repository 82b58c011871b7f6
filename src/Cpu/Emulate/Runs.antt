-- ===== src/Cpu/Emulate/Runs.antt =====
-- The loop of `emulate` (src/cpu/cpu.c) as a relation: sequences of rounds.
use fake_kernel.Prelude.{
  ℕ, zero, suc, ◌^◌, ◌<◌, ◌≡◌, refl, sym, arith, true, false, Bool-cases, inl, inr,
}
use mathlib.Core.Path.{subst}
use fake_kernel.Machine.{Machine}
use fake_kernel.Machine.Valid.{IsMachine}
use fake_kernel.Prog.{Host, Run, ok, exited, run, and_then}
use fake_kernel.Prog.Valid.{Ends}
use fake_kernel.Prog.Finishes.{Finishes}
use fake_kernel.Platform.{Platform}
use fake_kernel.Cpu.Emulate.{emulate, emulate_once}
use fake_kernel.Cpu.Emulate.Laws.{emulate-IsMachine, emulate_stopped, emulate_running}
use fake_kernel.Cpu.Total.Rounds.{emulate_once-Finishes}

module _ (plat : Platform) (host : Host) where
  -- A number of rounds from one machine to another, the processor running before each.
  pub data Rounds : ℕ → Machine → Machine → Type 0 where
    no_rounds : {s : Machine} → Rounds 0 s s
    round :
        {k : ℕ} {s m t : Machine}
        → s.cpu.halted ≡ false
        → run host (emulate_once plat) s ≡ ok tt m
        → Rounds k m t
        → Rounds (suc k) s t

  -- How the loop can end when it is given fuel for a number of rounds.
  abbrev pub EmulateOutcome : ℕ → Machine → Run (Unit {0}) → Type 0
  EmulateOutcome fuel s (ok u t) = (k : ℕ) × (k < fuel) × Rounds k s t × (t.cpu.halted ≡ true)
  EmulateOutcome fuel s (exited n t) =
      (k : ℕ) × (m : Machine) × (k < fuel)
      × Rounds k s m
      × (m.cpu.halted ≡ false)
      × (run host (emulate_once plat) m ≡ exited n t)
  EmulateOutcome fuel s Run.undefined =
      (k : ℕ) × (m : Machine) × (k < fuel)
      × Rounds k s m
      × (m.cpu.halted ≡ false)
      × (run host (emulate_once plat) m ≡ Run.undefined)
  EmulateOutcome fuel s Run.out_of_fuel = (t : Machine) × Rounds fuel s t

  -- One more round in front.
  after_round :
      (fuel : ℕ) (s m : Machine) (r : Run (Unit {0}))
      → s.cpu.halted ≡ false
      → run host (emulate_once plat) s ≡ ok tt m
      → EmulateOutcome fuel m r
      → EmulateOutcome (suc fuel) s r
  after_round fuel s m (ok u t) going e (k, below, rounds, stopped) =
      (suc k, omega arith, round going e rounds, stopped)
  after_round fuel s m (exited n t) going e (k, l, below, rounds, last, how) =
      (suc k, l, omega arith, round going e rounds, last, how)
  after_round fuel s m Run.undefined going e (k, l, below, rounds, last, how) =
      (suc k, l, omega arith, round going e rounds, last, how)
  after_round fuel s m Run.out_of_fuel going e (t, rounds) = (t, round going e rounds)

  first_round :
      (fuel size : ℕ) (s : Machine) (r : Run (Unit {0}))
      → s.cpu.halted ≡ false
      → run host (emulate_once plat) s ≡ r
      → Finishes r
      → Ends (IsMachine size) r
      → ((m : Machine) → IsMachine size m → EmulateOutcome fuel m (run host (emulate plat fuel) m))
      → EmulateOutcome (suc fuel) s (and_then r (λ _. run host (emulate plat fuel)))
  first_round fuel size s (ok u m) going e ends valid rest =
      after_round fuel s m (run host (emulate plat fuel) m) going e (rest m valid)
  first_round fuel size s (exited n t) going e ends valid rest =
      (0, s, omega arith, no_rounds, going, e)
  first_round fuel size s Run.undefined going e ends valid rest =
      (0, s, omega arith, no_rounds, going, e)
  first_round fuel size s Run.out_of_fuel going e ends valid rest = absurd ends

  -- The loop does what the relation says, on every well-formed machine whose memory is smaller than
  -- the address space: it returns after fewer rounds than its fuel with the processor halted; or it
  -- exits or is undefined as the round after those is; or all of its fuel went into rounds that
  -- returned. It never stops short for another reason.
  pub emulate-Rounds :
      (fuel size : ℕ) (s : Machine)
      → IsMachine size s
      → size < 2 ^ 32
      → EmulateOutcome fuel s (run host (emulate plat fuel) s)
  unfolding run emulate
  emulate-Rounds zero size s valid small = (s, no_rounds)
  emulate-Rounds (suc fuel) size s valid small = elim (Bool-cases s.cpu.halted) [
    | inl stopped ↦
        subst (EmulateOutcome (suc fuel) s) (sym (emulate_stopped plat host fuel s stopped))
          (0, omega arith, no_rounds, stopped)
    | inr going ↦
        subst (EmulateOutcome (suc fuel) s) (sym (emulate_running plat host fuel s going)) (
          first_round fuel size s (run host (emulate_once plat) s) going refl
            (emulate_once-Finishes plat host size s valid small)
            (emulate-IsMachine plat host fuel size s valid).0
            (λ m v. emulate-Rounds fuel size m v small))
  ]
