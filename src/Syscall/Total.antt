-- ===== src/Syscall/Total.antt =====
-- The assignments that the system calls make, and their fuel (src/syscall/syscall.c and
-- src/syscall/backend_win32.c).
pub mod Dispatch
use fake_kernel.Prelude.{ℕ, zero, suc, ◌-◌, ◌≤◌, ◌≡◌, refl, arith, leb, Option, none, some, List}
use fake_kernel.Prog.{Prog, ret, undefined}
use fake_kernel.Prog.Total.{NoFuel}
use fake_kernel.Prog.Only.{
  Only, only_rules, only_get, only_ret, only_undefined, Only-else, Only-if, Only-NoFuel,
}
use fake_kernel.Machine.{
  Write, GuestFd, set_reg, reg_eax, halt, write32, write_host, fill_host, set_gs_base, set_brk,
  set_mmap_ptr, set_fd, set_sigaction,
}
use fake_kernel.Mem.{guest_to_host}
use fake_kernel.Syscall.Host.{with_pointer}
use fake_kernel.Prog.Answers.{Answers, Answers-Only}
use fake_kernel.Syscall.Interface.{
  Backend, IsBackend, IsBufferWrite, into_bytes, into_region, Opened, opened, refused,
}
use fake_kernel.Syscall.Files.{
  install, sys_write, sys_read, sys_open, sys_close, sys_lseek, sys_fstat64, sys_writev,
  writev_loop, alloc_fd, valid_fd, string_at,
}
use mathlib.Core.Path.{subst}
use fake_kernel.Syscall.Files.Laws.{IsLeastFree, alloc_fd_lem}
use fake_kernel.Syscall.Space.{sys_munmap, sys_mprotect, sys_mmap2, sys_brk, sys_set_thread_area}
use fake_kernel.Syscall.Signals.{
  sys_exit, sys_rt_sigaction, sys_rt_sigprocmask, sys_set_tid_address,
}
use fake_kernel.Syscall.{
  sys_uname, sys_llseek, sys_getrandom, sys_tgkill, dispatch_low, dispatch_middle, dispatch_high,
  dispatch_syscall,
}

-- The assignments that a system call can make.
pub data IsCallWrite : Write → Type 0 where
  to_eax : (v : ℕ) → IsCallWrite (set_reg reg_eax v)
  to_halted : IsCallWrite halt
  to_dword : (a v : ℕ) → IsCallWrite (write32 a v)
  to_bytes : (a : ℕ) (bs : List ℕ) → IsCallWrite (write_host a bs)
  to_region : (a n v : ℕ) → IsCallWrite (fill_host a n v)
  to_gs_base : (v : ℕ) → IsCallWrite (set_gs_base v)
  to_brk : (v : ℕ) → IsCallWrite (set_brk v)
  to_mmap_ptr : (v : ℕ) → IsCallWrite (set_mmap_ptr v)
  to_fd : (i : ℕ) (d : GuestFd) → 3 ≤ i → IsCallWrite (set_fd i d)
  to_sigaction : (i : ℕ) (bs : List ℕ) → IsCallWrite (set_sigaction i bs)

pub ruleset call_rules = (
  only_rules, to_eax, to_halted, to_dword, to_bytes, to_region, to_gs_base, to_brk, to_mmap_ptr,
  to_fd, to_sigaction,
)

pub Only-with_pointer :
    {A : Type 0} (addr : ℕ) (failure : A) (k : ℕ → Prog A)
    → ((p : ℕ) → Only IsCallWrite (k p))
    → Only IsCallWrite (with_pointer addr failure k)
Only-with_pointer {A = A} addr failure k h = only_get _ (λ s. cases (guest_to_host addr s.mem))
  where
    cases :
        (o : Option ℕ)
        → Only IsCallWrite (elim o as (λ x. Prog A) [ none ↦ ret failure | some p ↦ k p ])
    cases none = only_ret failure
    cases (some p) = h p

pub sys_munmap-Only : (a n : ℕ) → Only IsCallWrite (sys_munmap a n)
unfolding sys_munmap
sys_munmap-Only a n = search call_rules depth 60

pub sys_mprotect-Only : (a n p : ℕ) → Only IsCallWrite (sys_mprotect a n p)
unfolding sys_mprotect
sys_mprotect-Only a n p = search call_rules depth 60

pub sys_mmap2-Only :
    (addr len prot flags fd pgoffset : ℕ)
    → Only IsCallWrite (sys_mmap2 addr len prot flags fd pgoffset)
unfolding sys_mmap2
sys_mmap2-Only addr len prot flags fd pgoffset =
    search (Only-with_pointer, call_rules) depth 60 fits 20000

pub sys_brk-Only : (b : ℕ) → Only IsCallWrite (sys_brk b)
unfolding sys_brk
sys_brk-Only b = search call_rules depth 60

pub sys_set_thread_area-Only : (u : ℕ) → Only IsCallWrite (sys_set_thread_area u)
unfolding sys_set_thread_area
sys_set_thread_area-Only u = search (Only-with_pointer, call_rules) depth 60 fits 20000

pub sys_exit-Only : (n : ℕ) → Only IsCallWrite (sys_exit n)
unfolding sys_exit
sys_exit-Only n = search call_rules depth 60

pub sys_rt_sigaction-Only : (sig act oact : ℕ) → Only IsCallWrite (sys_rt_sigaction sig act oact)
unfolding sys_rt_sigaction
sys_rt_sigaction-Only sig act oact = search (Only-with_pointer, call_rules) depth 60 fits 20000

pub sys_rt_sigprocmask-Only : (how a b n : ℕ) → Only IsCallWrite (sys_rt_sigprocmask how a b n)
unfolding sys_rt_sigprocmask
sys_rt_sigprocmask-Only how a b n = search (Only-with_pointer, call_rules) depth 60 fits 20000

pub sys_set_tid_address-Only : (p : ℕ) → Only IsCallWrite (sys_set_tid_address p)
unfolding sys_set_tid_address
sys_set_tid_address-Only p = search (Only-with_pointer, call_rules) depth 60 fits 20000

pub sys_uname-Only : (p : ℕ) → Only IsCallWrite (sys_uname p)
unfolding sys_uname
sys_uname-Only p = search (Only-with_pointer, call_rules) depth 60 fits 20000

pub sys_getrandom-Only : (p n : ℕ) → Only IsCallWrite (sys_getrandom p n)
unfolding sys_getrandom
sys_getrandom-Only p n = search (Only-with_pointer, call_rules) depth 60 fits 20000

-- A free descriptor and the name of the file, where both are there.
pub Only-both :
    {A : Type 0} (o : Option ℕ) (q : Option (List ℕ)) (none_free : Prog A) (f : ℕ → List ℕ → Prog A)
    → Only IsCallWrite none_free
    → ((fd : ℕ) (name : List ℕ) → o ≡ some fd → Only IsCallWrite (f fd name))
    → Only IsCallWrite (elim o [
      | none ↦ none_free
      | some fd ↦ elim q [ none ↦ undefined | some name ↦ f fd name ]
    ])
Only-both none q none_free f h k = h
Only-both (some fd) none none_free f h k = only_undefined
Only-both (some fd) (some name) none_free f h k = k fd name refl

-- `alloc_fd` gives no standard stream away.
pub alloc_fd-above : (table : ℕ → GuestFd) (fd : ℕ) → alloc_fd table ≡ some fd → 3 ≤ fd
alloc_fd-above table fd e = (subst (IsLeastFree 3 253 table) e (alloc_fd_lem table)).0

pub sys_tgkill-Only : (sig : ℕ) → Only IsCallWrite (sys_tgkill sig)
unfolding sys_tgkill
sys_tgkill-Only sig = search (sys_exit-Only, call_rules) depth 60
