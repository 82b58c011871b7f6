-- ===== src/Tests.antt =====
-- A small machine and a host for runs at concrete inputs. The tests are in the children.
pub mod Cpu
pub mod Loader
pub mod System
pub mod Total
pub mod Words
use fake_kernel.Prelude.{
  ℕ, ◌+◌, ◌<◌, ◌^◌, ◌≡◌, refl, arith, Bool, true, false, if◌then◌else◌, ◌==◌, [],
}
use fake_kernel.Mem.{Memory}
use fake_kernel.Machine.{Machine, I386, XmmReg, GuestFd}
use fake_kernel.Machine.Valid.{IsMachine, IsCpu}
use fake_kernel.Prog.{Host, HostReply, HostStat, other}
use fake_kernel.Cpu.X87.{FloatOps}
use fake_kernel.Platform.{Platform}
use fake_kernel.Syscall.Build.{for_posix}

-- 4 MB of zeros, but for an immediate at 0x100, a HLT at 0x200 and a ModR/M byte with a SIB byte
-- and a displacement at 0x300.
abbrev pub demo_memory : Memory
demo_memory = record {
  size = 0x40_0000;
  byte = λ a.
      if a == 0x100
      then 5
      else if a == 0x200
      then 0xf4
      else if a == 0x300
      then 0x54
      else if a == 0x301
      then 0x88
      else if a == 0x302
      then 0x10
      else 0;
}

abbrev pub demo_cpu : ℕ → I386
demo_cpu start = record {
  regs = λ i.
      if i == 4
      then 0x1000
      else if i == 7
      then 0x2000
      else if i == 1
      then 3
      else if i == 2
      then 1
      else 10;
  eip = start;
  eflags = 2;
  halted = false;
  cycles = 0;
}

-- The machine at an address.
abbrev pub demo_at : ℕ → Machine
demo_at start = record {
  cpu = demo_cpu start;
  mem = demo_memory;
  operand_size_16 = false;
  gs_base = 0;
  seg_override = 0;
  last_eip = 0;
  mmx_regs = λ _. 0;
  xmm_regs = λ _. record { lo = 0; hi = 0 };
  fpu_stack = λ _. 0;
  fpu_top = 0;
  brk = 0x8000;
  mmap_base = 0x10_0000;
  mmap_ptr = 0x10_0000;
  fd_table = λ i. record { used = if i == 3 then true else false; host_fd = i + 40 };
  sigactions = λ _. [];
  trace = [];
}

abbrev pub demo : Machine
demo = demo_at 0x100

pub demo_at-IsMachine : (start : ℕ) → start < 2 ^ 32 → IsMachine 0x40_0000 (demo_at start)
demo_at-IsMachine start small = record {
  cpu = record {
    regs_fit = λ i. ground arith;
    eip_fits = small;
    reserved = refl;
    cycles_fit = omega arith;
  };
  bytes = λ a. ground arith;
  same_size = refl;
  top = omega arith;
}

abbrev pub demo_reply : HostReply
demo_reply = record {
  failed = false;
  value = 0;
  errno = 0;
  bytes = [];
  stat = record {
    dev = 0;
    ino = 0;
    st_mode = 0;
    nlink = 0;
    uid = 0;
    gid = 0;
    rdev = 0;
    size = 0;
    blksize = 0;
    blocks = 0;
    atime = 0;
    mtime = 0;
    ctime = 0;
  };
  last_error = other;
  size_high = 0;
  size_low = 0;
  is_char = false;
}

-- A host that grants everything.
abbrev pub demo_host : Host
demo_host trace call = demo_reply

abbrev pub demo_floats : FloatOps
demo_floats = record {
  neg = λ a. a;
  is_negative = λ _. false;
  mul = λ a b. a;
  sub = λ a b. a;
  pow = λ a b. a;
  log2 = λ a. a;
  fmod = λ a b. a;
  sqrt = λ a. a;
  round = λ a. a;
  of_float = λ a. a;
  to_float = λ a. a;
  of_int16 = λ a. a;
  of_int32 = λ a. a;
  of_int64 = λ a. a;
  to_int16 = λ a. a;
  to_int32 = λ a. a;
  to_int64 = λ a. a;
}

abbrev pub demo_platform : Platform
demo_platform = record { floats = demo_floats; build = for_posix }
