-- ===== src/Syscall/Files/Contract/Refines.antt =====
-- The calls on descriptors (src/syscall/backend_win32.c), step by step over the abstract table.
use fake_kernel.Prelude.{
  ℕ, ◌+◌, ◌-◌, ◌<◌, ◌≡◌, refl, arith, true, if◌then◌else◌, leb, ◌==◌, Option, none, some, List,
}
use fake_kernel.Machine.{Machine, Write, apply}
use fake_kernel.Prog.{Prog, ret, undefined, Host, run, ◌>>=◌, ◌>>◌}
use fake_kernel.Prog.Answers.{
  Answers, Performs, Answers-Performs, Performs-if, Performs->>=, Performs-both, Performs-map,
  answers, Answers-bind, answer_ret, answer_get,
}
use fake_kernel.Mem.{guest_to_host}
use fake_kernel.Syscall.Host.{neg, emfile, efault, with_pointer, host_bytes, host_fill}
use fake_kernel.Syscall.Interface.{
  Backend, IsBackend, IsBufferWrite, into_bytes, into_region, Opened, opened, refused, IsRefusal,
  SetsErrno,
}
use fake_kernel.Syscall.Build.{Build, backend, backend-IsBackend}
use fake_kernel.Syscall.Files.{
  valid_fd, alloc_fd, string_at, open_at, release_fd, install, with_fd, sys_write, sys_read,
  sys_open, sys_close, sys_lseek, sys_fstat64,
}
use fake_kernel.Syscall.Files.Laws.{IsLeastFree, alloc_fd_lem}
use fake_kernel.Syscall.Files.Contract.{
  FileCall, writes, reads, seeks, stats, closes, opens, perform, Open, opened_in, Same, descriptor,
  is_open, FdStep, bad, write_step, read_step, seek_step, stat_step, close_standard, close_step,
  open_step, open_refused,
}

-- A buffer write leaves the table.
buffer-Same :
    (u : Open) (w : Write) (s : Machine)
    → IsBufferWrite w
    → Same u (opened_in s)
    → Same u (opened_in (apply w s))
unfolding apply
buffer-Same u w s (into_bytes a bs) h = h
buffer-Same u w s (into_region a n v) h = h

Answers-Same :
    {A : Type 0} (host : Host) (p : Prog A) (s : Machine)
    → Answers IsBufferWrite p
    → Performs (λ _ t. Same (opened_in s) (opened_in t)) (run host p s)
Answers-Same host p s h =
    Answers-Performs IsBufferWrite (λ t. Same (opened_in s) (opened_in t))
      (λ w t. buffer-Same (opened_in s) w t) (λ t c k. k) host p s h (λ fd. refl)

Answers-with_pointer :
    (addr : ℕ) (k : ℕ → Prog ℕ)
    → ((p : ℕ) → Answers IsBufferWrite (k p))
    → Answers IsBufferWrite (with_pointer addr (neg efault) k)
Answers-with_pointer addr k h = answer_get _ (λ s. cases (guest_to_host addr s.mem))
  where
    cases :
        (o : Option ℕ)
        → Answers IsBufferWrite (elim o as (λ x. Prog ℕ) [ none ↦ ret (neg efault) | some p ↦ k p ])
    cases none = answer_ret (neg efault)
    cases (some p) = h p

ruleset buffer_rules = (answers, Answers-with_pointer, into_bytes, into_region)

-- One call from a state, over a backend that keeps the laws.
module _ (bk : Backend) (lawful : IsBackend bk) (host : Host) (s : Machine) where
  abbrev Steps : FileCall → ℕ → Machine → Type 0
  Steps c r t = FdStep (opened_in s) (opened_in t) c r

  Steps-with_fd :
      (c : FileCall) (fd : ℕ) (k : ℕ → Prog ℕ)
      → descriptor c ≡ some fd
      → (is_open fd (opened_in s) ≡ true
          → Performs (Steps c) (run host (k (s.fd_table fd).host_fd) s))
      → Performs (Steps c) (run host (with_fd fd k) s)
  unfolding run valid_fd
  Steps-with_fd c fd k names h =
      Performs-if (Steps c) host (valid_fd fd s.fd_table) _ _ s h
        (λ closed. bad c fd names closed (λ i. refl))

  -- A call that only fills buffers.
  Steps-buffer :
      (c : FileCall) (fd : ℕ) (k : ℕ → Prog ℕ)
      → descriptor c ≡ some fd
      → (is_open fd (opened_in s) ≡ true
          → (r : ℕ) (t : Machine) → Same (opened_in s) (opened_in t)
          → Steps c r t)
      → ((h : ℕ) → Answers IsBufferWrite (k h))
      → Performs (Steps c) (run host (with_fd fd k) s)
  Steps-buffer c fd k names step fills = Steps-with_fd c fd k names λ usable.
      Performs-map (λ _ t. Same (opened_in s) (opened_in t)) (Steps c) _ (step usable)
        (Answers-Same host (k (s.fd_table fd).host_fd) s (fills _))

  write_fills :
      (h p count : ℕ) → Answers IsBufferWrite (host_bytes p count >>= λ bytes. bk.write_to h bytes)
  write_fills h p count =
      Answers-bind IsBufferWrite (host_bytes p count) (bk.write_to h) (search buffer_rules depth 40)
        (lawful.write_to_answers h)

  stat_fills : (fd h p : ℕ) → Answers IsBufferWrite (host_fill p 104 0 >> bk.stat_into fd h p)
  stat_fills fd h p =
      Answers-bind IsBufferWrite (host_fill p 104 0) (λ _. bk.stat_into fd h p)
        (search buffer_rules depth 40) (λ _. lawful.stat_into_answers fd h p)

  perform_writes :
      (fd buf count : ℕ)
      → Performs (Steps (writes fd buf count)) (run host (perform bk (writes fd buf count)) s)
  unfolding perform sys_write descriptor
  perform_writes fd buf count =
      Performs-if _ host (count + 1 == 0) _ _ s (λ empty. absurd (ground arith))
        (λ _.
          Steps-buffer (writes fd buf count) fd _ refl
            (λ usable r t same. write_step fd buf count r usable same)
            (λ h. Answers-with_pointer buf _ (λ p. write_fills h p (count + 1))))

  perform_reads :
      (fd buf count : ℕ)
      → Performs (Steps (reads fd buf count)) (run host (perform bk (reads fd buf count)) s)
  unfolding perform sys_read descriptor
  perform_reads fd buf count =
      Performs-if _ host (count + 1 == 0) _ _ s (λ empty. absurd (ground arith))
        (λ _.
          Steps-buffer (reads fd buf count) fd _ refl
            (λ usable r t same. read_step fd buf count r usable same)
            (λ h. Answers-with_pointer buf _ (λ p. lawful.read_from_answers h p (count + 1))))

  perform_stats :
      (fd buf : ℕ) → Performs (Steps (stats fd buf)) (run host (perform bk (stats fd buf)) s)
  unfolding perform sys_fstat64 descriptor
  perform_stats fd buf =
      Steps-buffer (stats fd buf) fd _ refl (λ usable r t same. stat_step fd buf r usable same)
        (λ h. Answers-with_pointer buf _ (λ p. stat_fills fd h p))

  releases :
      (fd h : ℕ)
      → 2 < fd
      → is_open fd (opened_in s) ≡ true
      → Performs (Steps (closes fd)) (run host (release_fd bk fd h) s)
  unfolding run apply
  releases fd h high usable =
      close_step fd high usable (ground arith) (λ i apart. ground (arith, apart))

  perform_closes : (fd : ℕ) → Performs (Steps (closes fd)) (run host (perform bk (closes fd)) s)
  unfolding perform sys_close descriptor run
  perform_closes fd =
      Steps-with_fd (closes fd) fd (λ h. if leb fd 2 then ret 0 else release_fd bk fd h) refl
        λ usable.
          Performs-if (Steps (closes fd)) host (leb fd 2) (ret 0)
            (release_fd bk fd (s.fd_table fd).host_fd) s
            (λ low. close_standard fd (ground arith) usable (λ i. refl))
            (λ high. releases fd _ (ground arith) usable)

  perform_seeks :
      (fd offset whence : ℕ)
      → Performs (Steps (seeks fd offset whence)) (run host (perform bk (seeks fd offset whence)) s)
  unfolding perform sys_lseek descriptor
  perform_seeks fd offset whence =
      Steps-buffer (seeks fd offset whence) fd _ refl
        (λ usable r t same. seek_step fd offset whence r usable same)
        (λ h. lawful.seek_answers h offset whence)

  -- The descriptor is taken when the host has opened the file.
  installs :
      (path flags mode fd : ℕ) (o : Opened) (t : Machine)
      → IsLeastFree 3 253 s.fd_table (some fd)
      → Same (opened_in s) (opened_in t)
      → IsRefusal o
      → Performs (Steps (opens path flags mode)) (run host (install fd o) t)
  unfolding run apply
  installs path flags mode fd (opened h) t (above, below, free, taken) same fine =
      open_step path flags mode fd above (omega (arith, below)) free taken (ground arith)
        (λ i apart. ground (arith, same i))
  installs path flags mode fd (refused e) t least same negative =
      open_refused path flags mode e negative same

  module _ (sets : SetsErrno host) (path flags mode : ℕ) where
    opens_at :
        (free : Option ℕ) (name : Option (List ℕ))
        → IsLeastFree 3 253 s.fd_table free
        → Performs (Steps (opens path flags mode)) (
            run host
              (elim free as (λ _. Prog ℕ) [
                | none ↦ ret (neg emfile)
                | some fd ↦ elim name as (λ _. Prog ℕ) [
                  | none ↦ undefined
                  | some file ↦ bk.open_path file flags mode >>= install fd
                ]
              ])
              s)
    unfolding run
    opens_at none name least = open_refused path flags mode (neg emfile) refl (λ i. refl)
    opens_at (some fd) none least = tt
    opens_at (some fd) (some file) least =
        Performs->>= _ _ host (bk.open_path file flags mode) (install fd) s
          (Performs-both (λ _ t. Same (opened_in s) (opened_in t)) (λ o _. IsRefusal o) _
            (Answers-Same host _ s (lawful.open_path_answers file flags mode))
            (lawful.open_path_refuses file flags mode host s sets))
          (λ o t (same, negative). installs path flags mode fd o t least same negative)

    perform_opens :
        Performs (Steps (opens path flags mode)) (run host (perform bk (opens path flags mode)) s)
    unfolding perform sys_open run
    perform_opens = at_pointer (guest_to_host path s.mem)
      where
        at_pointer :
            (o : Option ℕ)
            → Performs (Steps (opens path flags mode)) (
                run host
                  (elim o as (λ _. Prog ℕ) [
                    | none ↦ ret (neg efault)
                    | some p ↦ open_at bk flags mode p
                  ])
                  s)
        at_pointer none = open_refused path flags mode (neg efault) refl (λ i. refl)
        at_pointer (some p) =
            opens_at (alloc_fd s.fd_table) (string_at (s.mem.size - p) p s.mem)
              (alloc_fd_lem s.fd_table)

  perform_case : (c : FileCall) → SetsErrno host → Performs (Steps c) (run host (perform bk c) s)
  perform_case (writes fd buf count) sets = perform_writes fd buf count
  perform_case (reads fd buf count) sets = perform_reads fd buf count
  perform_case (seeks fd offset whence) sets = perform_seeks fd offset whence
  perform_case (stats fd buf) sets = perform_stats fd buf
  perform_case (closes fd) sets = perform_closes fd
  perform_case (opens path flags mode) sets = perform_opens sets path flags mode

-- Whatever the build, the calls on descriptors keep the table of an abstract kernel: a call on a
-- descriptor that is not open returns `-EBADF`; reads, writes, seeks and stats leave the table; `close`
-- takes its descriptor out, unless it is a standard stream, and returns 0; `open` either returns the
-- least free descriptor from 3 to 255 and puts it in, or returns a negative value. A count is
-- positive, and the host sets `errno` as POSIX says. A call may be undefined, where C is; it does not
-- exit or run out of fuel.
pub perform-FdStep :
    (build : Build) (host : Host) (s : Machine) (c : FileCall)
    → SetsErrno host
    → Performs
        (λ r t. FdStep (opened_in s) (opened_in t) c r)
        (run host (perform (backend build) c) s)
perform-FdStep build host s c sets =
    perform_case (backend build) (backend-IsBackend build) host s c sets
