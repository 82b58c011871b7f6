-- ===== src/Syscall/Files/Writev/Sends.antt =====
-- The loop of `sys_writev` (src/syscall/backend_win32.c), vector by vector.
use fake_kernel.Prelude.{
  ℕ, zero, suc, ◌+◌, ◌^◌, ◌<◌, ◌≤◌, ◌≡◌, refl, inl, inr, arith, Bool, true, false, if◌then◌else◌,
  ◌==◌, add32, List, [], ◌∷◌, Bool-cases, ◌∙◌,
}
use mathlib.Core.Path.{ap, sym}
use fake_kernel.Mem.{Memory, mem_read32}
use fake_kernel.Machine.{Machine, HostCall}
use fake_kernel.Prog.{
  Prog, ret, Host, ok, run, run-if_true, run-if_false, run->>=, and_then, ◌>>=◌, ◌>>◌,
}
use fake_kernel.Syscall.Host.{
  neg, efault, is_negative, with_pointer, need, bytes_at, host_bytes, host_word,
}
use fake_kernel.Syscall.Posix.{posix, write_fd}
use fake_kernel.Syscall.Win32.{win32, write_handle}
use fake_kernel.Syscall.Build.{Build, for_posix, for_windows, backend}
use fake_kernel.Syscall.Files.{valid_fd, sys_write, sys_writev, writev_loop}
use fake_kernel.Syscall.Runs.{
  run-with_pointer, run-need, run-host_bytes, run-host_word, run-with_fd, run-either,
}
use fake_kernel.Syscall.Files.Writev.{buffers, AreReadable, write_call, write_answer, send, sent}

run-write_to :
    (host : Host) (s : Machine) (build : Build) (h : ℕ) (bs : List ℕ)
    → (let call = write_call build h bs in
        run host ((backend build).write_to h bs) s
        ≡ ok (write_answer build (host s.trace call)) (record s { trace = call ∷ s.trace }))
unfolding run backend posix win32 write_fd write_handle
run-write_to host s for_posix h bs = refl
run-write_to host s (for_windows std) h bs =
    run-either host (record s { trace = HostCall.write_file h bs ∷ s.trace })
      (host s.trace (HostCall.write_file h bs)).failed _ _

-- A write behind the test of its descriptor.
abbrev write_body : Build → ℕ → ℕ → ℕ → Prog ℕ
write_body build base len h =
    with_pointer base (neg efault)
      λ p. do bytes ← host_bytes p len; (backend build).write_to h bytes

-- One write of a buffer that lies in memory: one call to the host, with the bytes of the buffer.
pub sys_write-run :
    (host : Host) (s : Machine) (build : Build) (fd base len : ℕ)
    → valid_fd fd s.fd_table ≡ true
    → s.mem.size < 2 ^ 32
    → base + len ≤ s.mem.size
    → 0 < len
    → (let call = write_call build (s.fd_table fd).host_fd (bytes_at len base s.mem) in
        run host (sys_write (backend build) fd base len) s
        ≡ ok (write_answer build (host s.trace call)) (record s { trace = call ∷ s.trace }))
unfolding sys_write
sys_write-run host s build fd base len usable small inside some_bytes =
    let h = (s.fd_table fd).host_fd in
    let write_out : List ℕ → Prog ℕ = (backend build).write_to h in
    run-if_false host (ret 0) _ s (len == 0) (ground arith)
    ∙ run-with_fd host s fd (write_body build base len) usable
    ∙ run-with_pointer host s base (neg efault) (λ p. host_bytes p len >>= write_out) (omega arith)
        small
    ∙ run-host_bytes host s base len write_out inside
    ∙ run-write_to host s build h (bytes_at len base s.mem)

-- A vector without bytes asks nothing, and one with bytes makes one call.
module _ (build : Build) (host : Host) (h base : ℕ) (m : Memory) (rest : List (List ℕ)) (total : ℕ)
    (calls : List HostCall) where
  send-empty :
      (len : ℕ)
      → len ≡ 0
      → send build host h (bytes_at len base m ∷ rest) total calls
        ≡ send build host h rest total calls
  unfolding send bytes_at
  send-empty zero e = refl
  send-empty (suc len) e = absurd (omega arith)

  send-full :
      (len : ℕ)
      → 0 < len
      → (let call = write_call build h (bytes_at len base m) in
          let n = write_answer build (host calls call) in
          send build host h (bytes_at len base m ∷ rest) total calls ≡ (
            if is_negative n
            then (n, call ∷ calls)
            else send build host h rest (add32 total n) (call ∷ calls)))
  unfolding send bytes_at
  send-full zero some_bytes = absurd (omega arith)
  send-full (suc len) some_bytes = refl

-- What is left of the loop behind a vector's words.
abbrev behind : Build → ℕ → ℕ → ℕ → ℕ → ℕ → ℕ → Prog ℕ
behind build left fd iov total base len =
    let rest = writev_loop (backend build) left fd (add32 iov 8) in
    if len == 0 then rest total else do
      n ← sys_write (backend build) fd base len
      if is_negative n then ret n else rest (add32 total n)

writev_loop-behind :
    (build : Build) (host : Host) (fd left iov total : ℕ) (s : Machine)
    → s.mem.size < 2 ^ 32
    → iov + 8 ≤ s.mem.size
    → run host (writev_loop (backend build) (suc left) fd iov total) s
      ≡ run host
          (behind build left fd iov total (mem_read32 iov s.mem) (mem_read32 (iov + 4) s.mem))
          s
unfolding writev_loop
writev_loop-behind build host fd left iov total s small inside =
    let words : ℕ → ℕ → Prog ℕ = λ len base. behind build left fd iov total base len in
    run-with_pointer host s iov (neg efault)
      (λ p. need p 8 >> (host_word (p + 4) >>= λ len. host_word p >>= words len)) (omega arith)
      small
    ∙ run-need host s iov 8 (host_word (iov + 4) >>= λ len. host_word iov >>= words len) inside
    ∙ run-host_word host s (iov + 4) (λ len. host_word iov >>= words len) (omega arith)
    ∙ run-host_word host s iov (words (mem_read32 (iov + 4) s.mem)) (omega arith)

sent-if :
    (host : Host) (s t : Machine) (b : Bool) (p q : Prog ℕ) (x y : ℕ × List HostCall)
    → run host p t ≡ sent s x
    → run host q t ≡ sent s y
    → run host (if b then p else q) t ≡ sent s (if b then x else y)
sent-if host s t true p q x y h k = h
sent-if host s t false p q x y h k = k

module _ (build : Build) (host : Host) (fd : ℕ) where
  -- The loop from a state, its result by the reference.
  abbrev Sends : ℕ → Machine → Type 0
  Sends n s =
      (iov total : ℕ)
      → AreReadable n iov s.mem
      → run host (writev_loop (backend build) n fd iov total) s
        ≡ sent s (send build host (s.fd_table fd).host_fd (buffers n iov s.mem) total s.trace)

  empty-Sends :
      (n iov total base len : ℕ) (s : Machine)
      → len ≡ 0
      → add32 iov 8 ≡ iov + 8
      → AreReadable n (iov + 8) s.mem
      → Sends n s
      → run host (behind build n fd iov total base len) s
        ≡ sent s (
            send build host
              (s.fd_table fd).host_fd
              (bytes_at len base s.mem ∷ buffers n (iov + 8) s.mem)
              total
              s.trace)
  empty-Sends n iov total base len s empty next readable rest =
      run-if_true host _ _ s (len == 0) (ground arith)
      ∙ ap (λ a. run host (writev_loop (backend build) n fd a total) s) next
      ∙ rest (iov + 8) total readable
      ∙ ap (sent s) (sym (send-empty build host _ base s.mem _ total s.trace len empty))

  answered : (a : ℕ) (t : Machine) → run host (ret a) t ≡ ok a t
  unfolding run
  answered a t = refl

  full-Sends :
      (n iov total base len : ℕ) (s : Machine)
      → valid_fd fd s.fd_table ≡ true
      → s.mem.size < 2 ^ 32
      → base + len ≤ s.mem.size
      → 0 < len
      → add32 iov 8 ≡ iov + 8
      → AreReadable n (iov + 8) s.mem
      → ((calls : List HostCall) → Sends n (record s { trace = calls }))
      → run host (behind build n fd iov total base len) s
        ≡ sent s (
            send build host
              (s.fd_table fd).host_fd
              (bytes_at len base s.mem ∷ buffers n (iov + 8) s.mem)
              total
              s.trace)
  full-Sends n iov total base len s usable small inside some_bytes next readable rest =
      let h = (s.fd_table fd).host_fd in
      let call = write_call build h (bytes_at len base s.mem) in
      let answer = write_answer build (host s.trace call) in
      let later = record s { trace = call ∷ s.trace } in
      let go : ℕ → Prog ℕ = λ a.
        if is_negative a
        then ret a
        else writev_loop (backend build) n fd (add32 iov 8) (add32 total a) in
      run-if_false host _ _ s (len == 0) (ground arith)
      ∙ run->>= host (sys_write (backend build) fd base len) go s
      ∙ ap (λ r. and_then r (λ a. run host (go a)))
          (sys_write-run host s build fd base len usable small inside some_bytes)
      ∙ sent-if host s later (is_negative answer) (ret answer) _ (answer, call ∷ s.trace) _
          (answered answer later)
          (ap (λ a. run host (writev_loop (backend build) n fd a (add32 total answer)) later) next
            ∙ rest (call ∷ s.trace) (iov + 8) (add32 total answer) readable)
      ∙ ap (sent s) (
          sym (
            send-full build host h base s.mem (buffers n (iov + 8) s.mem) total s.trace len
              some_bytes))

  no_vectors :
      (h iov total : ℕ) (s : Machine)
      → run host (writev_loop (backend build) 0 fd iov total) s
        ≡ sent s (send build host h [] total s.trace)
  unfolding writev_loop send run
  no_vectors h iov total s = refl

  writev_loop-Sends :
      (n : ℕ) (s : Machine) → valid_fd fd s.fd_table ≡ true → s.mem.size < 2 ^ 32 → Sends n s
  unfolding AreReadable buffers
  writev_loop-Sends zero s usable small iov total readable =
      no_vectors (s.fd_table fd).host_fd iov total s
  writev_loop-Sends (suc n) s usable small iov total (inside, buffer_in, readable) =
      let base = mem_read32 iov s.mem in
      let len = mem_read32 (iov + 4) s.mem in
      let next : add32 iov 8 ≡ iov + 8 = omega arith in
      writev_loop-behind build host fd n iov total s small inside ∙ elim (Bool-cases (len == 0)) [
        | inl none_left ↦
            empty-Sends n iov total base len s (ground arith) next readable
              (writev_loop-Sends n s usable small)
        | inr some_left ↦
            full-Sends n iov total base len s usable small buffer_in (ground arith) next readable
              (λ calls. writev_loop-Sends n (record s { trace = calls }) usable small)
      ]

-- `writev` on an open descriptor, with its vectors and their buffers in memory, gives the host the
-- buffers that have bytes, in their order, each with exactly the bytes that memory holds, and up to
-- the first that the host refuses. It returns the sum of the host's counts modulo 2 ^ 32, or the
-- refusal, and changes nothing. This is so in both builds.
pub sys_writev-send :
    (build : Build) (host : Host) (fd iov n : ℕ) (s : Machine)
    → valid_fd fd s.fd_table ≡ true
    → s.mem.size < 2 ^ 32
    → is_negative n ≡ false
    → AreReadable n iov s.mem
    → run host (sys_writev (backend build) fd iov n) s
      ≡ sent s (send build host (s.fd_table fd).host_fd (buffers n iov s.mem) 0 s.trace)
unfolding sys_writev
sys_writev-send build host fd iov n s usable small counted readable =
    run-if_false host (ret 0) _ s (is_negative n) counted
    ∙ writev_loop-Sends build host fd n s usable small iov 0 readable
