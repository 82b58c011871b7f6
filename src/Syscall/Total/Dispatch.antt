-- ===== src/Syscall/Total/Dispatch.antt =====
-- The assignments that the calls on descriptors make, and with them all system calls
-- (src/syscall/syscall.c and src/syscall/backend_win32.c).
use fake_kernel.Prelude.{ℕ, zero, suc, ◌-◌, ◌≤◌, arith, leb, List}
use fake_kernel.Prog.{Prog}
use fake_kernel.Prog.Total.{NoFuel}
use fake_kernel.Prog.Only.{Only, only_get, only_ret, Only-else, Only-if, Only-NoFuel}
use fake_kernel.Machine.{Write}
use fake_kernel.Prog.Answers.{Answers, Answers-Only}
use fake_kernel.Syscall.Interface.{
  Backend, IsBackend, IsBufferWrite, into_bytes, into_region, Opened, opened, refused,
}
use fake_kernel.Syscall.Files.{
  install, sys_write, sys_read, sys_open, sys_close, sys_lseek, sys_fstat64, sys_writev,
  writev_loop, alloc_fd, valid_fd, string_at,
}
use fake_kernel.Syscall.{sys_llseek, dispatch_low, dispatch_middle, dispatch_high, dispatch_syscall}
use fake_kernel.Syscall.Total.{
  Only-with_pointer, sys_munmap-Only, sys_mprotect-Only, sys_mmap2-Only, sys_brk-Only,
  sys_set_thread_area-Only, sys_exit-Only, sys_rt_sigaction-Only, sys_rt_sigprocmask-Only,
  sys_set_tid_address-Only, sys_uname-Only, sys_getrandom-Only, Only-both, alloc_fd-above,
  sys_tgkill-Only, IsCallWrite, call_rules, to_bytes, to_region,
}
use fake_kernel.Prog.Only.{Only-bind}

-- What the host's part of a call may do, a system call may.
IsBufferWrite-IsCallWrite : (w : Write) → IsBufferWrite w → IsCallWrite w
IsBufferWrite-IsCallWrite w (into_bytes a bs) = to_bytes a bs
IsBufferWrite-IsCallWrite w (into_region a n v) = to_region a n v

Answers-call : {A : Type 0} (p : Prog A) → Answers IsBufferWrite p → Only IsCallWrite p
Answers-call = Answers-Only IsBufferWrite IsCallWrite IsBufferWrite-IsCallWrite

install-Only : (fd : ℕ) (o : Opened) → 3 ≤ fd → Only IsCallWrite (install fd o)
install-Only fd (opened h) above = search (call_rules, above) depth 60
install-Only fd (refused e) above = only_ret e

-- The calls over any backend that keeps the laws.
module _ (bk : Backend) (lawful : IsBackend bk) where
  write_to-Only : (h : ℕ) (bs : List ℕ) → Only IsCallWrite (bk.write_to h bs)
  write_to-Only h bs = Answers-call _ (lawful.write_to_answers h bs)

  read_from-Only : (h p n : ℕ) → Only IsCallWrite (bk.read_from h p n)
  read_from-Only h p n = Answers-call _ (lawful.read_from_answers h p n)

  open_path-Only :
      (path : List ℕ) (flags mode : ℕ) → Only IsCallWrite (bk.open_path path flags mode)
  open_path-Only path flags mode = Answers-call _ (lawful.open_path_answers path flags mode)

  seek-Only : (h o w : ℕ) → Only IsCallWrite (bk.seek h o w)
  seek-Only h o w = Answers-call _ (lawful.seek_answers h o w)

  stat_into-Only : (fd h p : ℕ) → Only IsCallWrite (bk.stat_into fd h p)
  stat_into-Only fd h p = Answers-call _ (lawful.stat_into_answers fd h p)

  ruleset backend_rules =
      (call_rules, write_to-Only, read_from-Only, open_path-Only, seek-Only, stat_into-Only)

  sys_write-Only : (fd buf count : ℕ) → Only IsCallWrite (sys_write bk fd buf count)
  unfolding sys_write
  sys_write-Only fd buf count = search (Only-with_pointer, backend_rules) depth 60

  sys_read-Only : (fd buf count : ℕ) → Only IsCallWrite (sys_read bk fd buf count)
  unfolding sys_read
  sys_read-Only fd buf count = search (Only-with_pointer, backend_rules) depth 60 fits 20000

  sys_close-Only : (fd : ℕ) → Only IsCallWrite (sys_close bk fd)
  unfolding sys_close
  sys_close-Only fd = only_get _ λ s. only_get _ λ t.
      Only-if IsCallWrite (valid_fd fd s.fd_table) _ _
        (Only-else IsCallWrite (leb fd 2) _ _ (only_ret 0)
          λ high. let above : 3 ≤ fd = ground arith in search (call_rules, above) depth 60)
        (only_ret _)

  sys_lseek-Only : (fd offset whence : ℕ) → Only IsCallWrite (sys_lseek bk fd offset whence)
  unfolding sys_lseek
  sys_lseek-Only fd offset whence = search backend_rules depth 60

  sys_fstat64-Only : (fd buf : ℕ) → Only IsCallWrite (sys_fstat64 bk fd buf)
  unfolding sys_fstat64
  sys_fstat64-Only fd buf = search (Only-with_pointer, backend_rules) depth 60 fits 20000

  sys_open-Only : (path flags mode : ℕ) → Only IsCallWrite (sys_open bk path flags mode)
  unfolding sys_open
  sys_open-Only path flags mode = Only-with_pointer path _ _ λ p. only_get _ λ s. only_get _ λ t.
      Only-both (alloc_fd s.fd_table) (string_at (t.mem.size - p) p t.mem) _ _ (only_ret _)
        λ fd name e.
          Only-bind IsCallWrite (bk.open_path name flags mode) (install fd)
            (open_path-Only name flags mode)
            (λ o. install-Only fd o (alloc_fd-above s.fd_table fd e))

  sys_llseek-Only :
      (fd high low ptr whence : ℕ) → Only IsCallWrite (sys_llseek bk fd high low ptr whence)
  unfolding sys_llseek
  sys_llseek-Only fd high low ptr whence = search (sys_lseek-Only, call_rules) depth 60

  writev_loop-Only : (left fd iov total : ℕ) → Only IsCallWrite (writev_loop bk left fd iov total)
  unfolding writev_loop
  writev_loop-Only zero fd iov total = search call_rules
  writev_loop-Only (suc left) fd iov total =
      search (Only-with_pointer, call_rules, sys_write-Only, writev_loop-Only left fd) depth 60

  sys_writev-Only : (fd iov n : ℕ) → Only IsCallWrite (sys_writev bk fd iov n)
  unfolding sys_writev
  sys_writev-Only fd iov n = search (call_rules, writev_loop-Only) depth 60

  ruleset calls = (
    call_rules, sys_read-Only, sys_write-Only, sys_open-Only, sys_close-Only, sys_lseek-Only,
    sys_fstat64-Only, sys_munmap-Only, sys_mprotect-Only, sys_mmap2-Only, sys_brk-Only,
    sys_set_thread_area-Only, sys_exit-Only, sys_rt_sigaction-Only, sys_rt_sigprocmask-Only,
    sys_set_tid_address-Only, sys_uname-Only, sys_getrandom-Only, sys_llseek-Only, sys_tgkill-Only,
    sys_writev-Only,
  )

  dispatch_low-Only :
      (nr a b c d e : ℕ) (other : Prog (Unit {0}))
      → Only IsCallWrite other
      → Only IsCallWrite (dispatch_low bk nr a b c d e other)
  unfolding dispatch_low
  dispatch_low-Only nr a b c d e other h = search (calls, h) depth 80 fits 20000

  dispatch_middle-Only :
      (nr a b c d e f : ℕ) (other : Prog (Unit {0}))
      → Only IsCallWrite other
      → Only IsCallWrite (dispatch_middle bk nr a b c d e f other)
  unfolding dispatch_middle
  dispatch_middle-Only nr a b c d e f other h = search (calls, h) depth 80 fits 20000

  dispatch_high-Only : (nr a b c d : ℕ) → Only IsCallWrite (dispatch_high bk nr a b c d)
  unfolding dispatch_high
  dispatch_high-Only nr a b c d = search calls depth 80 fits 20000

  pub dispatch_syscall-Only : Only IsCallWrite (dispatch_syscall bk)
  unfolding dispatch_syscall
  dispatch_syscall-Only =
      search (call_rules, dispatch_low-Only, dispatch_middle-Only, dispatch_high-Only) depth 80 fits
        50000

  pub dispatch_syscall-NoFuel : NoFuel (dispatch_syscall bk)
  dispatch_syscall-NoFuel = Only-NoFuel IsCallWrite (dispatch_syscall bk) dispatch_syscall-Only
