-- ===== src/Syscall/Abi.antt =====
-- The guest's side of `dispatch_syscall` (src/syscall/syscall.c): registers and descriptors.
use fake_kernel.Prelude.{ℕ, ◌<◌, ◌≡◌, ◌≢◌, refl, arith}
use fake_kernel.Machine.{Machine, Write, reg_eax, apply, apply_cpu}
use fake_kernel.Prog.{Host, run}
use fake_kernel.Prog.Valid.{Ends}
use fake_kernel.Prog.Only.{Only-Ends}
use fake_kernel.Syscall.{dispatch_syscall}
use fake_kernel.Syscall.Total.{
  IsCallWrite, to_eax, to_halted, to_dword, to_bytes, to_region, to_gs_base, to_brk, to_mmap_ptr,
  to_fd, to_sigaction,
}
use fake_kernel.Syscall.Total.Dispatch.{dispatch_syscall-Only}
use fake_kernel.Syscall.Build.{Build, backend, backend-IsBackend}

-- All registers but EAX, EIP, the flags, the cycle count, the SSE, MMX and x87 registers, the
-- prefix state and the standard streams are the same.
abbrev pub SameUser : Machine → Machine → Type 0
SameUser s t =
    ((i : ℕ) → i ≢ reg_eax → t.cpu.regs i ≡ s.cpu.regs i)
    × ((fd : ℕ) → fd < 3 → t.fd_table fd ≡ s.fd_table fd)
    × (t.cpu.eip ≡ s.cpu.eip)
    × (t.cpu.eflags ≡ s.cpu.eflags)
    × (t.cpu.cycles ≡ s.cpu.cycles)
    × ((i : ℕ) → t.xmm_regs i ≡ s.xmm_regs i)
    × ((i : ℕ) → t.mmx_regs i ≡ s.mmx_regs i)
    × ((i : ℕ) → t.fpu_stack i ≡ s.fpu_stack i)
    × (t.fpu_top ≡ s.fpu_top)
    × (t.operand_size_16 ≡ s.operand_size_16)
    × (t.seg_override ≡ s.seg_override)

IsCallWrite-SameUser :
    (s : Machine) (w : Write) (t : Machine) → IsCallWrite w → SameUser s t → SameUser s (apply w t)
unfolding apply apply_cpu
IsCallWrite-SameUser s w t (to_eax v) (regs, fds, a, b, c, d, e, f, g, k, l) =
    (λ i apart. ground (arith, apart, regs i apart), fds, a, b, c, d, e, f, g, k, l)
IsCallWrite-SameUser s w t (to_fd i _ above) (regs, fds, a, b, c, d, e, f, g, k, l) =
    (regs, λ fd low. ground (arith, fds fd low), a, b, c, d, e, f, g, k, l)
IsCallWrite-SameUser s w t to_halted h = h
IsCallWrite-SameUser s w t (to_dword a v) h = h
IsCallWrite-SameUser s w t (to_bytes a bs) h = h
IsCallWrite-SameUser s w t (to_region a n v) h = h
IsCallWrite-SameUser s w t (to_gs_base v) h = h
IsCallWrite-SameUser s w t (to_brk v) h = h
IsCallWrite-SameUser s w t (to_mmap_ptr v) h = h
IsCallWrite-SameUser s w t (to_sigaction i bs) h = h

-- Whatever the build, the call, its arguments and the host's answers are, INT 0x80 leaves the guest's machine
-- as the ABI has it in the state in which it returns or exits: of the registers it changes EAX
-- alone, and EIP, the flags, the SSE, MMX and x87 registers and the prefix state are as before. The
-- standard streams stay open on the same descriptors of the host.
pub dispatch_syscall-SameUser :
    (build : Build) (host : Host) (s : Machine)
    → Ends (SameUser s) (run host (dispatch_syscall (backend build)) s)
dispatch_syscall-SameUser build host s =
    Only-Ends IsCallWrite (SameUser s) (λ w t. IsCallWrite-SameUser s w t) (λ t c h. h) host
      (dispatch_syscall (backend build)) s
      (dispatch_syscall-Only (backend build) (backend-IsBackend build))
      (
        λ i _. refl,
        λ fd _. refl,
        refl,
        refl,
        refl,
        λ i. refl,
        λ i. refl,
        λ i. refl,
        refl,
        refl,
        refl,
      )
