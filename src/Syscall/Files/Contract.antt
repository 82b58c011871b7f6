-- ===== src/Syscall/Files/Contract.antt =====
-- The calls on descriptors (src/syscall/backend_win32.c) against an abstract table that has only the
-- open descriptors in it.
pub mod Refines
use fake_kernel.Prelude.{
  ℕ, ◌+◌, ◌-◌, ◌<◌, ◌≤◌, ◌≡◌, ◌≢◌, refl, arith, Bool, true, false, if◌then◌else◌, ltb, leb, ◌==◌,
  ◌&&◌, ◌∷◌, Option, none, some, List,
}
use fake_kernel.Machine.{Machine, Write, GuestFd, HostCall, set_fd, update, apply}
use fake_kernel.Prog.{Prog, ret, undefined, Host, Run, ok, run, ◌>>=◌, ◌>>◌}
use fake_kernel.Prog.Answers.{
  Answers, Performs, Answers-Performs, Performs-if, Performs->>=, Performs-both, Performs-map,
  answers, Answers-bind, Answers-if, answer_ret, answer_get,
}
use fake_kernel.Mem.{guest_to_host}
use fake_kernel.Syscall.Host.{
  neg, ebadf, emfile, efault, is_negative, with_pointer, host_bytes, host_fill,
}
use fake_kernel.Syscall.Interface.{
  Backend, IsBackend, IsBufferWrite, into_bytes, into_region, Opened, opened, refused, IsRefusal,
  SetsErrno, ask,
}
use fake_kernel.Syscall.Build.{Build, backend, backend-IsBackend}
use fake_kernel.Syscall.Files.{
  valid_fd, max_fds, alloc_fd, string_at, open_at, release_fd, install, with_fd, sys_write,
  sys_read, sys_open, sys_close, sys_lseek, sys_fstat64,
}
use fake_kernel.Syscall.Files.Laws.{IsLeastFree, alloc_fd_lem}
use mathlib.Core.Path.{subst}

-- The calls that take or give a descriptor. A read or a write has one byte more than its last
-- argument says, since a count of 0 asks nothing of the table.
pub data FileCall : Type 0 where
  writes reads : ℕ → ℕ → ℕ → FileCall
  seeks : ℕ → ℕ → ℕ → FileCall
  stats : ℕ → ℕ → FileCall
  closes : ℕ → FileCall
  opens : ℕ → ℕ → ℕ → FileCall

unfoldable pub perform : Backend → FileCall → Prog ℕ
perform bk (writes fd buf count) = sys_write bk fd buf (count + 1)
perform bk (reads fd buf count) = sys_read bk fd buf (count + 1)
perform bk (seeks fd offset whence) = sys_lseek bk fd offset whence
perform bk (stats fd buf) = sys_fstat64 bk fd buf
perform bk (closes fd) = sys_close bk fd
perform bk (opens path flags mode) = sys_open bk path flags mode

-- The abstract table: which descriptors are open.
abbrev pub Open : Type 0
Open = ℕ → Bool

abbrev pub opened_in : Machine → Open
opened_in s fd = (s.fd_table fd).used

abbrev pub Same : Open → Open → Type 0
Same u v = (fd : ℕ) → v fd ≡ u fd

abbrev pub OthersSame : ℕ → Open → Open → Type 0
OthersSame fd u v = (i : ℕ) → i ≢ fd → v i ≡ u i

-- The descriptor that a call works on, if it is not to make a new one.
unfoldable pub descriptor : FileCall → Option ℕ
descriptor (writes fd _ _) = some fd
descriptor (reads fd _ _) = some fd
descriptor (seeks fd _ _) = some fd
descriptor (stats fd _) = some fd
descriptor (closes fd) = some fd
descriptor (opens _ _ _) = none

abbrev pub is_open : ℕ → Open → Bool
is_open fd u = ltb fd 256 && u fd

-- What a call may do to the table, with what it returns.
pub data FdStep (u v : Open) : FileCall → ℕ → Type 0 where
  bad :
      (c : FileCall) (fd : ℕ)
      → descriptor c ≡ some fd
      → is_open fd u ≡ false
      → Same u v
      → FdStep u v c (neg ebadf)
  write_step :
      (fd buf count r : ℕ) → is_open fd u ≡ true → Same u v → FdStep u v (writes fd buf count) r
  read_step :
      (fd buf count r : ℕ) → is_open fd u ≡ true → Same u v → FdStep u v (reads fd buf count) r
  seek_step :
      (fd offset whence r : ℕ)
      → is_open fd u ≡ true
      → Same u v
      → FdStep u v (seeks fd offset whence) r
  stat_step : (fd buf r : ℕ) → is_open fd u ≡ true → Same u v → FdStep u v (stats fd buf) r
  close_standard : (fd : ℕ) → fd ≤ 2 → is_open fd u ≡ true → Same u v → FdStep u v (closes fd) 0
  close_step :
      (fd : ℕ)
      → 2 < fd
      → is_open fd u ≡ true
      → v fd ≡ false
      → OthersSame fd u v
      → FdStep u v (closes fd) 0
  open_step :
      (path flags mode fd : ℕ)
      → 3 ≤ fd
      → fd < 256
      → u fd ≡ false
      → ((i : ℕ) → 3 ≤ i → i < fd → u i ≡ true)
      → v fd ≡ true
      → OthersSame fd u v
      → FdStep u v (opens path flags mode) fd
  open_refused :
      (path flags mode r : ℕ)
      → is_negative r ≡ true
      → Same u v
      → FdStep u v (opens path flags mode) r
