-- ===== src/Syscall/Files/Writev.antt =====
-- `sys_writev` (src/syscall/backend_win32.c) as the sequence of its buffers.
pub mod Sends
use fake_kernel.Prelude.{
  ℕ, zero, suc, ◌+◌, ◌-◌, ◌*◌, ◌^◌, ◌<◌, ◌≤◌, ◌≡◌, refl, inl, inr, arith, Bool, true, false,
  if◌then◌else◌, ◌==◌, leb, add32, u32, none, some, List, [], ◌∷◌, Option, Bool-cases, ◌∙◌,
}
use mathlib.Core.Path.{ap, sym, subst}
use fake_kernel.Mem.{Memory, guest_to_host, check_bounds, mem_read32}
use fake_kernel.Machine.{Machine, HostCall}
use fake_kernel.Prog.{
  Prog, ret, Host, HostReply, Run, ok, run, gets, run-if_true, run-if_false, run->>=, and_then,
  ◌>>=◌, ◌>>◌,
}
use fake_kernel.Syscall.Host.{
  neg, ebadf, efault, is_negative, with_pointer, need, in_object, bytes_at, host_bytes, host_word,
}
use fake_kernel.Syscall.Posix.{posix, outcome, write_fd}
use fake_kernel.Syscall.Win32.{win32, eio, write_handle}
use fake_kernel.Syscall.Build.{Build, for_posix, for_windows, backend}
use fake_kernel.Syscall.Files.{valid_fd, with_fd, sys_write, sys_writev, writev_loop}

-- The buffers that `n` vectors from an address of memory name.
unfoldable pub buffers : ℕ → ℕ → Memory → List (List ℕ)
buffers zero iov m = []
buffers (suc n) iov m =
    bytes_at (mem_read32 (iov + 4) m) (mem_read32 iov m) m ∷ buffers n (iov + 8) m

-- The vectors and the buffers lie in memory.
unfoldable pub AreReadable : ℕ → ℕ → Memory → Type 0
AreReadable zero iov m = Unit
AreReadable (suc n) iov m =
    (iov + 8 ≤ m.size)
    × (mem_read32 iov m + mem_read32 (iov + 4) m ≤ m.size)
    × AreReadable n (iov + 8) m

-- How a build asks the host to write, and what it makes of the answer.
abbrev pub write_call : Build → ℕ → List ℕ → HostCall
write_call for_posix = HostCall.write
write_call (for_windows std) = HostCall.write_file

abbrev pub write_answer : Build → HostReply → ℕ
write_answer for_posix r = outcome r
write_answer (for_windows std) r = if r.failed then neg eio else u32 r.value

-- Sends buffers to the host one after the other, up to the first that is refused. The result is
-- the sum of the counts or the refusal, with the calls made.
unfoldable pub send : Build → Host → ℕ → List (List ℕ) → ℕ → List HostCall → ℕ × List HostCall
send build host h [] total calls = (total, calls)
send build host h ([] ∷ rest) total calls = send build host h rest total calls
send build host h ((b ∷ bs) ∷ rest) total calls =
    let call = write_call build h (b ∷ bs) in
    let n = write_answer build (host calls call) in
    let after = send build host h rest (add32 total n) (call ∷ calls) in
    if is_negative n then (n, call ∷ calls) else after

-- The end of a run that has answered and made calls.
abbrev pub sent : Machine → ℕ × List HostCall → Run ℕ
sent s (r, calls) = ok r (record s { trace = calls })
