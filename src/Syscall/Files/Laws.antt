-- ===== src/Syscall/Files/Laws.antt =====
-- The table of file descriptors.
use fake_kernel.Prelude.{
  ℕ, zero, suc, ◌+◌, ◌<◌, ◌≤◌, ◌≡◌, ◌≢◌, inl, inr, arith, true, false, ◌==◌, Option, none, some,
  ◌∷◌, Bool-cases,
}
use fake_kernel.Machine.{Machine, GuestFd, apply}
use fake_kernel.Prog.{Host, ok, run}
use fake_kernel.Prog.Valid.{Returns}
use fake_kernel.Syscall.Interface.{Backend}
use fake_kernel.Syscall.Host.{neg, ebadf}
use fake_kernel.Syscall.Files.{
  valid_fd, find_free, alloc_fd, sys_close, sys_read, sys_write, sys_lseek, sys_fstat64,
}

-- What a search of the table from `i` with `left` places to go has found.
abbrev pub IsLeastFree : ℕ → ℕ → (ℕ → GuestFd) → Option ℕ → Type 0
IsLeastFree i left table none = (j : ℕ) → i ≤ j → j < i + left → (table j).used ≡ true
IsLeastFree i left table (some fd) =
    (i ≤ fd)
    × (fd < i + left)
    × ((table fd).used ≡ false)
    × ((j : ℕ) → i ≤ j → j < fd → (table j).used ≡ true)

step_free :
    (i left : ℕ) (table : ℕ → GuestFd) (o : Option ℕ)
    → (table i).used ≡ true
    → IsLeastFree (i + 1) left table o
    → IsLeastFree i (suc left) table o
step_free i left table none here h = λ j p q. elim (Bool-cases (j == i)) [
  | inl e ↦ let same : j ≡ i = ground arith in rw same here
  | inr n ↦ h j (ground arith) (omega arith)
]
step_free i left table (some fd) here h = (
  omega (arith, h.0),
  omega (arith, h.1),
  h.2,
  λ j p q. elim (Bool-cases (j == i)) [
    | inl e ↦ let same : j ≡ i = ground arith in rw same here
    | inr n ↦ h.3 j (ground arith) q
  ],
)

find_free_lem :
    (left i : ℕ) (table : ℕ → GuestFd) → IsLeastFree i left table (find_free left i table)
unfolding find_free
find_free_lem zero i table = λ j p q. absurd (omega arith)
find_free_lem (suc left) i table = elim (Bool-cases (table i).used) [
  | inl taken ↦ rw taken (step_free i left table _ taken (find_free_lem left (i + 1) table))
  | inr free ↦ rw free (omega arith, omega arith, free, λ j p q. absurd (omega arith))
]

-- `alloc_fd` finds the least free descriptor from 3 up, and fails only when every one of 3 to 255
-- is in use.
pub alloc_fd_lem : (table : ℕ → GuestFd) → IsLeastFree 3 253 table (alloc_fd table)
unfolding alloc_fd
alloc_fd_lem table = find_free_lem 253 3 table

-- A descriptor above 2 that is open is closed by `sys_close`: the call returns 0, makes one call
-- to the host, and every later call on the descriptor returns `-EBADF` without a call to the host.
pub sys_close_lem :
    (bk : Backend) (host : Host) (fd : ℕ) (s : Machine)
    → 2 < fd
    → valid_fd fd s.fd_table ≡ true
    → Returns
        (λ r t.
          (r ≡ 0)
          × (t.trace ≡ bk.release (s.fd_table fd).host_fd ∷ s.trace)
          × ((other : ℕ) → other ≢ fd → t.fd_table other ≡ s.fd_table other)
          × (run host (sys_close bk fd) t ≡ ok (neg ebadf) t)
          × ((a n : ℕ) → run host (sys_read bk fd a (n + 1)) t ≡ ok (neg ebadf) t)
          × ((a n : ℕ) → run host (sys_write bk fd a (n + 1)) t ≡ ok (neg ebadf) t)
          × ((o w : ℕ) → run host (sys_lseek bk fd o w) t ≡ ok (neg ebadf) t)
          × ((a : ℕ) → run host (sys_fstat64 bk fd a) t ≡ ok (neg ebadf) t))
        (run host (sys_close bk fd) s)
unfolding run sys_close sys_read sys_write sys_lseek sys_fstat64 apply valid_fd
sys_close_lem bk host fd s high in_use = ground arith
