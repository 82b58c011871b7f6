-- ===== src/Syscall/Signals.antt =====
-- Signals, the thread id and the exit (src/syscall/backend_win32.c).
use fake_kernel.Prelude.{ℕ, if◌then◌else◌, ltb, leb, ◌==◌, ◌||◌, [], ◌∷◌}
use fake_kernel.Machine.{halt, set_sigaction}
use fake_kernel.Prog.{Prog, ret, exit, gets, assign, ◌>>=◌, ◌>>◌}
use fake_kernel.Syscall.Host.{
  neg, efault, einval, is_negative, with_pointer, host_fill, host_copy, host_bytes,
}

abbrev pub sigmax : ℕ
sigmax = 64

-- `exit(status)` ends the process; `halted` is set before it.
unfoldable pub sys_exit : ℕ → Prog (Unit {0})
sys_exit status = do assign halt; exit status

-- A `LinuxSigaction` is 20 bytes.
unfoldable pub sys_rt_sigaction : ℕ → ℕ → ℕ → Prog ℕ
sys_rt_sigaction sig act_addr oact_addr =
    let set =
      if act_addr == 0
      then ret 0
      else with_pointer act_addr (neg efault)
          λ act. (do bytes ← host_bytes act 20; assign (set_sigaction sig bytes); ret 0) in
    if is_negative sig || sig == 0 || leb sigmax sig
    then ret (neg einval)
    else if oact_addr == 0
    then set
    else with_pointer oact_addr (neg efault)
        λ oact. do old ← gets (λ s. s.sigactions sig); host_copy oact old; set

unfoldable pub sys_rt_sigprocmask : ℕ → ℕ → ℕ → ℕ → Prog ℕ
sys_rt_sigprocmask how set_addr oset_addr sigsetsize =
    if oset_addr == 0
    then ret 0
    else with_pointer oset_addr (neg efault)
        λ oset. do host_fill oset (if ltb sigsetsize 8 then sigsetsize else 8) 0; ret 0

unfoldable pub sys_set_tid_address : ℕ → Prog ℕ
sys_set_tid_address tidptr =
    if tidptr == 0
    then ret 1
    else with_pointer tidptr 1 λ p. do host_copy p (1 ∷ 0 ∷ 0 ∷ 0 ∷ []); ret 1
