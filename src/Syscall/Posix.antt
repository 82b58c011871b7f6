-- ===== src/Syscall/Posix.antt =====
-- The file system calls as built for a POSIX host (src/syscall/backend_win32.c).
use fake_kernel.Prelude.{
  ℕ, ◌%◌, ◌^◌, ◌<◌, ◌≡◌, arith, true, if◌then◌else◌, ◌==◌, u32, has_bit, List,
}
use fake_kernel.Machine.{Machine, OpenFlags, HostCall}
use fake_kernel.Prog.{Prog, ret, HostReply, Host, run, ◌>>=◌, ◌>>◌}
use fake_kernel.Prog.Answers.{Performs, Performs-if, answers}
use fake_kernel.Syscall.Host.{neg, host_copy, is_negative}
use fake_kernel.Syscall.Interface.{
  Backend, IsBackend, Opened, opened, refused, IsRefusal, SetsErrno, into_bytes, ask, stat64_bytes,
}

-- `n < 0 ? -errno : (int32_t)n`.
abbrev pub outcome : HostReply → ℕ
outcome r = if r.failed then u32 (neg (u32 r.errno)) else u32 r.value

unfoldable pub write_fd : ℕ → List ℕ → Prog ℕ
write_fd fd bytes = do r ← ask (HostCall.write fd bytes); ret (outcome r)

-- The host puts the bytes that it has read at the pointer.
unfoldable pub read_fd : ℕ → ℕ → ℕ → Prog ℕ
read_fd fd p count = do
  r ← ask (HostCall.read fd count)
  if r.failed then ret (outcome r) else do host_copy p r.bytes; ret (outcome r)

abbrev pub remap_flags : ℕ → OpenFlags
remap_flags flags = record {
  access = if flags % 4 == 2 then 2 else if flags % 4 == 1 then 1 else 0;
  creat = has_bit flags 6;
  trunc = has_bit flags 9;
  append = has_bit flags 10;
}

unfoldable pub open_fd : List ℕ → ℕ → ℕ → Prog Opened
open_fd path flags mode = do
  r ← ask (HostCall.open_file path (remap_flags flags) mode)
  if r.failed then ret (refused (outcome r)) else ret (opened (u32 r.value))

unfoldable pub seek_fd : ℕ → ℕ → ℕ → Prog ℕ
seek_fd fd offset whence = do r ← ask (HostCall.lseek fd offset whence); ret (outcome r)

unfoldable pub stat_fd : ℕ → ℕ → ℕ → Prog ℕ
stat_fd guest_fd fd p = do
  r ← ask (HostCall.fstat fd)
  if r.failed then ret (outcome r) else do host_copy p (stat64_bytes r.stat); ret 0

-- The descriptors of the standard streams are 0, 1 and 2 on the host too.
unfoldable pub posix : Backend
posix = record {
  std_handle = λ fd. fd;
  write_to = write_fd;
  read_from = read_fd;
  open_path = open_fd;
  release = HostCall.close;
  seek = seek_fd;
  stat_into = stat_fd;
}

outcome_negative :
    (r : HostReply)
    → r.failed ≡ true
    → 0 < r.errno
    → r.errno < 2 ^ 31
    → is_negative (outcome r) ≡ true
outcome_negative r failed positive small = ground arith

open_fd_refuses :
    (path : List ℕ) (flags mode : ℕ) (host : Host) (s : Machine)
    → SetsErrno host
    → Performs (λ o _. IsRefusal o) (run host (open_fd path flags mode) s)
unfolding open_fd run
open_fd_refuses path flags mode host s sets =
    let call = HostCall.open_file path (remap_flags flags) mode in
    Performs-if (λ o _. IsRefusal o) host (host s.trace call).failed _ _ _
      (λ failed.
        let known = sets s.trace call failed in
        outcome_negative (host s.trace call) failed known.0 known.1)
      (λ _. tt)

pub posix-IsBackend : IsBackend posix
unfolding posix write_fd read_fd open_fd seek_fd stat_fd
posix-IsBackend = record {
  write_to_answers = λ h bs. search answers depth 60;
  read_from_answers = λ h p count. search (answers, into_bytes) depth 60;
  open_path_answers = λ path flags mode. search answers depth 60;
  open_path_refuses = open_fd_refuses;
  seek_answers = λ h o w. search answers depth 60;
  stat_into_answers = λ fd h p. search (answers, into_bytes) depth 60;
}
