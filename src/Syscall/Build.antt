-- ===== src/Syscall/Build.antt =====
-- The two builds of the file system calls, `#ifdef _WIN32` or not (src/syscall/backend_win32.c).
use fake_kernel.Prelude.{ℕ}
use fake_kernel.Syscall.Interface.{Backend, IsBackend}
use fake_kernel.Syscall.Posix.{posix, posix-IsBackend}
use fake_kernel.Syscall.Win32.{win32, win32-IsBackend}

-- For Windows with the handles that `GetStdHandle` gives for the standard streams.
pub data Build : Type 0 where
  for_posix : Build
  for_windows : (ℕ → ℕ) → Build

unfoldable pub backend : Build → Backend
backend for_posix = posix
backend (for_windows std) = win32 std

pub backend-IsBackend : (build : Build) → IsBackend (backend build)
unfolding backend
backend-IsBackend for_posix = posix-IsBackend
backend-IsBackend (for_windows std) = win32-IsBackend std
