-- ===== src/Syscall/Requests.antt =====
-- The calls on descriptors as the guest makes them, through `dispatch_syscall`
-- (src/syscall/syscall.c).
use fake_kernel.Prelude.{ℕ, ◌+◌, ◌≡◌, ◌⊎◌, inl, inr, refl, u32, ◌∙◌}
use fake_kernel.Machine.{
  Machine, reg_eax, reg_ebx, reg_ecx, reg_edx, reg_esi, reg_edi, reg_ebp, set_reg, halt, apply,
  apply_cpu,
}
use fake_kernel.Prog.{Prog, Host, run, exited, ◌>>=◌, assign}
use fake_kernel.Prog.Answers.{Performs, Performs->>=}
use fake_kernel.Syscall.Interface.{Backend, SetsErrno}
use fake_kernel.Syscall.Build.{Build, backend}
use fake_kernel.Syscall.Files.Contract.{
  FileCall, writes, reads, seeks, stats, closes, opens, perform, opened_in, FdStep,
}
use fake_kernel.Syscall.Files.Contract.Refines.{perform-FdStep}
use fake_kernel.Syscall.{dispatch_syscall, dispatch_low, dispatch_middle, dispatch_high}
use fake_kernel.Syscall.Signals.{sys_exit}
use mathlib.Core.Path.{subst, sym, ap}

-- The calls that the registers ask for, by the number in EAX.
pub data Requests (s : Machine) : FileCall → Type 0 where
  to_read :
      (n : ℕ)
      → s.cpu.regs reg_eax ≡ 3
      → s.cpu.regs reg_edx ≡ n + 1
      → Requests s (reads (s.cpu.regs reg_ebx) (s.cpu.regs reg_ecx) n)
  to_write :
      (n : ℕ)
      → s.cpu.regs reg_eax ≡ 4
      → s.cpu.regs reg_edx ≡ n + 1
      → Requests s (writes (s.cpu.regs reg_ebx) (s.cpu.regs reg_ecx) n)
  to_open :
      s.cpu.regs reg_eax ≡ 5
      → Requests s (opens (s.cpu.regs reg_ebx) (s.cpu.regs reg_ecx) (s.cpu.regs reg_edx))
  to_close : s.cpu.regs reg_eax ≡ 6 → Requests s (closes (s.cpu.regs reg_ebx))
  to_lseek :
      s.cpu.regs reg_eax ≡ 19
      → Requests s (seeks (s.cpu.regs reg_ebx) (s.cpu.regs reg_ecx) (s.cpu.regs reg_edx))
  to_fstat64 :
      s.cpu.regs reg_eax ≡ 197 → Requests s (stats (s.cpu.regs reg_ebx) (s.cpu.regs reg_ecx))
  to_openat :
      s.cpu.regs reg_eax ≡ 295
      → Requests s (opens (s.cpu.regs reg_ecx) (s.cpu.regs reg_edx) (s.cpu.regs reg_esi))

abbrev pub answer : Prog ℕ → Prog (Unit {0})
answer call = call >>= λ v. assign (set_reg reg_eax v)

-- The dispatcher with the number and the third argument given.
abbrev by_number : Backend → Machine → ℕ → ℕ → Prog (Unit {0})
by_number bk s nr edx =
    let ebx = s.cpu.regs reg_ebx in
    let ecx = s.cpu.regs reg_ecx in
    let esi = s.cpu.regs reg_esi in
    let edi = s.cpu.regs reg_edi in
    dispatch_low bk nr ebx ecx edx esi edi (
      dispatch_middle bk nr ebx ecx edx esi edi (s.cpu.regs reg_ebp)
        (dispatch_high bk nr ebx ecx edx esi))

module _ (bk : Backend) (host : Host) (s : Machine) where
  numbered :
      (nr : ℕ)
      → s.cpu.regs reg_eax ≡ nr
      → run host (dispatch_syscall bk) s ≡ run host (by_number bk s nr (s.cpu.regs reg_edx)) s
  unfolding run dispatch_syscall
  numbered nr e = ap (λ n. run host (by_number bk s n (s.cpu.regs reg_edx)) s) e

  counted :
      (nr edx : ℕ)
      → s.cpu.regs reg_eax ≡ nr
      → s.cpu.regs reg_edx ≡ edx
      → run host (dispatch_syscall bk) s ≡ run host (by_number bk s nr edx) s
  counted nr edx e d = numbered nr e ∙ ap (λ n. run host (by_number bk s nr n) s) d

  -- The dispatcher runs the call that is asked for and puts what it returns in EAX.
  pub dispatch_syscall-perform :
      (c : FileCall)
      → Requests s c
      → run host (dispatch_syscall bk) s ≡ run host (answer (perform bk c)) s
  unfolding dispatch_low dispatch_middle dispatch_high perform
  dispatch_syscall-perform c (to_read n e d) = counted 3 (n + 1) e d
  dispatch_syscall-perform c (to_write n e d) = counted 4 (n + 1) e d
  dispatch_syscall-perform c (to_open e) = numbered 5 e
  dispatch_syscall-perform c (to_close e) = numbered 6 e
  dispatch_syscall-perform c (to_lseek e) = numbered 19 e
  dispatch_syscall-perform c (to_fstat64 e) = numbered 197 e
  dispatch_syscall-perform c (to_openat e) = numbered 295 e

-- `exit` and `exit_group` end the run.
pub dispatch_syscall-exit :
    (bk : Backend) (host : Host) (s : Machine)
    → (s.cpu.regs reg_eax ≡ 1) ⊎ (s.cpu.regs reg_eax ≡ 252)
    → run host (dispatch_syscall bk) s ≡ exited (s.cpu.regs reg_ebx) (apply halt s)
unfolding run dispatch_low dispatch_middle dispatch_high sys_exit
dispatch_syscall-exit bk host s (inl e) = numbered bk host s 1 e
dispatch_syscall-exit bk host s (inr e) = numbered bk host s 252 e

-- The step that a call has made, with its answer in EAX as 32 bits.
abbrev pub Answered : Machine → FileCall → Machine → Type 0
Answered s c t = (r : ℕ) × FdStep (opened_in s) (opened_in t) c r × (t.cpu.regs reg_eax ≡ u32 r)

FdStep-answer :
    (host : Host) (s t : Machine) (c : FileCall) (r : ℕ)
    → FdStep (opened_in s) (opened_in t) c r
    → Performs (λ _ u. Answered s c u) (run host (assign (set_reg reg_eax r)) t)
unfolding run apply apply_cpu
FdStep-answer host s t c r h = (r, h, refl)

-- INT 0x80 for `read` and `write` of at least one byte, `open`, `close`, `lseek`, `fstat64` and
-- `openat` keeps the table of an abstract kernel, whatever the build and the state: a call on a
-- descriptor that is not open answers `-EBADF`; reads, writes, seeks and stats leave the table;
-- `close` takes its descriptor out, unless it is a standard stream, and answers 0; `open` either
-- answers the least free descriptor from 3 to 255 and puts it in, or answers a negative value. EAX
-- has the answer as 32 bits. The host sets `errno` as POSIX says. The call may be undefined, where
-- C is; it does not exit or run out of fuel.
pub dispatch_syscall-FdStep :
    (build : Build) (host : Host) (s : Machine) (c : FileCall)
    → SetsErrno host
    → Requests s c
    → Performs (λ _ t. Answered s c t) (run host (dispatch_syscall (backend build)) s)
dispatch_syscall-FdStep build host s c sets asks =
    subst (Performs (λ _ t. Answered s c t))
      (sym (dispatch_syscall-perform (backend build) host s c asks))
      (Performs->>= (λ r t. FdStep (opened_in s) (opened_in t) c r) (λ _ t. Answered s c t) host
        (perform (backend build) c) (λ v. assign (set_reg reg_eax v)) s
        (perform-FdStep build host s c sets) (λ r t h. FdStep-answer host s t c r h))
