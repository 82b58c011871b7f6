-- ===== src/Start/Laws.antt =====
-- `main` (src/main.c) from its start: the loader, the set-up and the loop together.
use fake_kernel.Prelude.{
  ℕ, ◌+◌, ◌^◌, ◌≡◌, ◌≢◌, refl, ap, sym, ◌∙◌, arith, u32, ◌≤◌, List, ◌∷◌, Option, none, some,
}
use mathlib.Core.Path.{subst}
use fake_kernel.Mem.{init_mem}
use fake_kernel.Machine.{I386, Machine, apply, apply_cpu, reg_esp, write8}
use fake_kernel.Machine.Valid.{IsMachine, apply-IsMachine, IsMachine-trace}
use fake_kernel.Prog.{Prog, Host, Run, ok, exited, run, run->>=, and_then, ret, ◌>>◌}
use fake_kernel.Prog.Valid.{Ends, run-Ends, Returns}
use fake_kernel.Platform.{Platform}
use fake_kernel.Cpu.Emulate.{emulate, init_cpu}
use fake_kernel.Cpu.Emulate.Laws.{init_cpu-IsCpu}
use fake_kernel.Loader.{File, load_elf, read_ehdr}
use fake_kernel.Loader.Laws.{LoadOutcome, load_elf-Returns}
use fake_kernel.Start.SetUp.{IsStarted, set_up-IsStarted}
use fake_kernel.Start.{power_on, write_stub, set_up, main, stub_addr}

power_on-IsMachine : (plat : Platform) → IsMachine (2 ^ 29) (power_on plat)
unfolding power_on init_mem
power_on-IsMachine plat = record {
  cpu = init_cpu-IsCpu;
  bytes = λ a. omega arith;
  same_size = refl;
  top = omega arith;
}

-- The machine on which `main` calls the loader: memory holds `int 0x80; ret` at the stub's address.
abbrev pub with_stub : Platform → Machine
with_stub plat =
    apply (write8 (stub_addr + 2) 0xc3)
      (apply (write8 (stub_addr + 1) 0x80) (apply (write8 stub_addr 0xcd) (power_on plat)))

with_stub-IsMachine : (plat : Platform) → IsMachine (2 ^ 29) (with_stub plat)
with_stub-IsMachine plat =
    let s1 = apply (write8 stub_addr 0xcd) (power_on plat) in
    let s2 = apply (write8 (stub_addr + 1) 0x80) s1 in
    apply-IsMachine (write8 (stub_addr + 2) 0xc3) s2 (
      apply-IsMachine (write8 (stub_addr + 1) 0x80) s1
        (apply-IsMachine (write8 stub_addr 0xcd) (power_on plat) (power_on-IsMachine plat)))

with_stub-cpu : (plat : Platform) → (with_stub plat).cpu ≡ init_cpu
unfolding apply apply_cpu power_on
with_stub-cpu plat = refl

-- A program whose end leaves room for the block of thread-local storage.
abbrev pub FitsBlock : Option ℕ → Type 0
FitsBlock none = Unit {0}
FitsBlock (some load_end) = (0x400 ≤ load_end) × (load_end + 0x408 ≤ 2 ^ 29)

-- How `main` ends, from what the loader returned and its state `t`: at once with status 1; or as the
-- loop ends, from a well-formed machine that has been set up for the program, with EIP at its entry
-- point and all registers but ESP 0, and with status 0 where the loop returns.
abbrev pub MainOutcome : Platform → Host → ℕ → ℕ → Option ℕ → Machine → Run ℕ → Type 0
MainOutcome plat host fuel entry none t r = r ≡ ok 1 t
MainOutcome plat host fuel entry (some load_end) t r =
    (m : Machine) × IsMachine (2 ^ 29) m
    × IsStarted load_end t m
    × (m.cpu.eip ≡ u32 entry)
    × ((i : ℕ) → i ≢ reg_esp → m.cpu.regs i ≡ 0)
    × (r ≡ and_then (run host (emulate plat fuel) m) (λ _ u. ok 0 u))

module _ (plat : Platform) (host : Host) (fuel entry : ℕ) where
  started_case :
      (r : Run (Unit {0})) (load_end : ℕ) (t : Machine)
      → t.cpu.eip ≡ u32 entry
      → ((i : ℕ) → i ≢ reg_esp → t.cpu.regs i ≡ 0)
      → Returns (λ _ m. IsStarted load_end t m) r
      → Ends (IsMachine (2 ^ 29)) r
      → MainOutcome plat host fuel entry
          (some load_end)
          t
          (and_then r (λ _. run host (emulate plat fuel >> ret 0)))
  unfolding run
  started_case (ok u m) load_end t at_entry zeros started valid = (
    m,
    valid,
    started,
    ap (λ (x : Machine). x.cpu.eip) started.0 ∙ at_entry,
    λ i apart. ap (λ (x : Machine). x.cpu.regs i) started.0 ∙ zeros i apart,
    run->>= host (emulate plat fuel) (λ _. ret 0) m,
  )
  started_case (exited n m) load_end t at_entry zeros started valid = absurd started
  started_case Run.undefined load_end t at_entry zeros started valid = absurd started
  started_case Run.out_of_fuel load_end t at_entry zeros started valid = absurd started

  abbrev after_load : Option ℕ → Prog ℕ
  after_load loaded = elim loaded [
    | none ↦ ret 1
    | some load_end ↦ (do set_up load_end; emulate plat fuel; ret 0)
  ]

  load_case :
      (r : Run (Option ℕ)) (s : Machine)
      → s.cpu ≡ init_cpu
      → Returns (LoadOutcome entry s) r
      → Ends (IsMachine (2 ^ 29)) r
      → Returns (λ loaded _. FitsBlock loaded) r
      → Returns
          (λ loaded t.
            MainOutcome plat host fuel entry loaded t (and_then r (λ a. run host (after_load a))))
          r
  unfolding run init_cpu
  load_case (ok none t) s start loaded valid room = refl
  load_case (ok (some load_end) t) s start (page, loaded) valid (low, inside) =
      subst (MainOutcome plat host fuel entry (some load_end) t)
        (sym (run->>= host (set_up load_end) (λ _. emulate plat fuel >> ret 0) t))
        (started_case (run host (set_up load_end) t) load_end t
          (ap (λ (x : Machine). x.cpu.eip) loaded)
          (λ i apart.
            ap (λ (x : Machine). x.cpu.regs i) loaded
            ∙ ground (arith, apart)
            ∙ ap (λ (c : I386). c.regs i) start)
          (set_up-IsStarted host load_end t valid.same_size low inside)
          (run-Ends (IsMachine (2 ^ 29)) apply-IsMachine IsMachine-trace host (set_up load_end) t
            valid))
  load_case (exited n t) s start loaded valid room = absurd loaded
  load_case Run.undefined s start loaded valid room = absurd loaded
  load_case Run.out_of_fuel s start loaded valid room = absurd loaded

pub main-MainOutcome :
    (plat : Platform) (host : Host) (fuel : ℕ) (f : File) (path : List ℕ) (args : List (List ℕ))
    → Returns (λ loaded _. FitsBlock loaded) (run host (load_elf f (path ∷ args)) (with_stub plat))
    → Returns
        (λ loaded t.
          MainOutcome plat host fuel
            (read_ehdr (f.read 0 52)).e_entry
            loaded
            t
            (run host (main plat fuel f (path ∷ args)) (power_on plat)))
        (run host (load_elf f (path ∷ args)) (with_stub plat))
unfolding run main write_stub
main-MainOutcome plat host fuel f path args room =
    let entry = (read_ehdr (f.read 0 52)).e_entry in
    let s = with_stub plat in
    let load = load_elf f (path ∷ args) in
    subst
      (λ (r : Run ℕ).
        Returns (λ loaded t. MainOutcome plat host fuel entry loaded t r) (run host load s))
      (sym (run->>= host load (after_load plat host fuel entry) s))
      (load_case plat host fuel entry (run host load s) s (with_stub-cpu plat)
        (load_elf-Returns host f (path ∷ args) s)
        (run-Ends (IsMachine (2 ^ 29)) apply-IsMachine IsMachine-trace host load s
          (with_stub-IsMachine plat))
        room)
