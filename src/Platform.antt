-- ===== src/Platform.antt =====
-- What the emulator is built for and on: the host's floating point, and the build of its system
-- calls (src/syscall/backend_win32.c).
use fake_kernel.Cpu.X87.{FloatOps}
use fake_kernel.Syscall.Interface.{Backend}
use fake_kernel.Syscall.Build.{Build, backend}

pub record Platform : Type 0 where
  pub floats : FloatOps
  pub build : Build

abbrev pub calls_of : Platform → Backend
calls_of plat = backend plat.build
