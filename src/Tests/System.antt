-- ===== src/Tests/System.antt =====
-- System calls at concrete inputs.
use fake_kernel.Prelude.{
  ℕ, ◌+◌, ◌<◌, ◌≤◌, ◌≡◌, ◌⊎◌, refl, arith, true, if◌then◌else◌, ◌==◌, leb, ltb, ◌&&◌, not,
}
use fake_kernel.Machine.{Machine, update, reg_eax, set_reg, apply}
use fake_kernel.Prog.{ok, undefined, run, ◌>>=◌}
use fake_kernel.Prog.Valid.{Returns, Ends}
use fake_kernel.Syscall.{dispatch_syscall}
use fake_kernel.Syscall.Abi.{SameUser, dispatch_syscall-SameUser}
use fake_kernel.Syscall.Laws.{dispatch_syscall-unknown}
use fake_kernel.Syscall.Build.{Build, for_posix, for_windows, backend}
use fake_kernel.Syscall.Host.{neg, enosys}
use fake_kernel.Syscall.Files.{valid_fd}
use fake_kernel.Syscall.Space.{page_align, sys_brk, sys_mmap2}
use fake_kernel.Syscall.Space.Laws.{
  HasArena, page_align_lem, sys_brk_lem, sys_mmap2-arena, sys_mmap2-undefined,
}
use fake_kernel.Syscall.Space.Overlap.{sys_brk-sys_mmap2}
use fake_kernel.Prog.Answers.{Performs}
use fake_kernel.Syscall.Interface.{SetsErrno}
use fake_kernel.Syscall.Posix.{remap_flags}
use fake_kernel.Syscall.Win32.{access_of, creation_of}
use fake_kernel.Syscall.Files.Builds.{posix_intent, win32_intent, access_of-remap_flags}
use fake_kernel.Mem.{mem_read32}
use fake_kernel.Syscall.Files.{sys_writev}
use fake_kernel.Syscall.Files.Writev.{AreReadable, buffers, send, sent}
use fake_kernel.Syscall.Files.Writev.Sends.{sys_writev-send}
use fake_kernel.Syscall.Files.Contract.{opens}
use fake_kernel.Syscall.Requests.{Answered, to_open, dispatch_syscall-FdStep}
use fake_kernel.Tests.{demo, demo_host}

-- A build for Windows, with handles that differ from the descriptors.
abbrev demo_windows : Build
demo_windows = for_windows (λ i. i + 40)

demo-HasArena : HasArena demo
demo-HasArena = record {
  addressable = omega arith;
  reserve = omega arith;
  started = omega arith;
  below = omega arith;
}

-- The lengths below, rounded.
length_two : page_align 0x1001 ≡ 0x2000
length_two = page_align_lem 0x1001 (omega arith)

length_large : page_align 0x30_0000 ≡ 0x30_0000
length_large = page_align_lem 0x30_0000 (omega arith)

length_huge : page_align 0xfff0_0000 ≡ 0xfff0_0000
length_huge = page_align_lem 0xfff0_0000 (omega arith)

sys_mmap2-arena_example :
    Returns
      (λ r t.
        (r ≡ demo.mmap_ptr)
        × (t.mmap_ptr ≡ demo.mmap_ptr + page_align 0x1001)
        × ((a : ℕ) → demo.mmap_ptr ≤ a → a < t.mmap_ptr → t.mem.byte a ≡ 0)
        × ((a : ℕ) → (a < demo.mmap_ptr) ⊎ (t.mmap_ptr ≤ a) → t.mem.byte a ≡ demo.mem.byte a))
      (run demo_host (sys_mmap2 0 0x1001 3 0x22 (neg 1) 0) demo)
sys_mmap2-arena_example =
    sys_mmap2-arena demo_host 0 0x1001 3 0x22 0 demo demo-HasArena (omega arith) refl
      (omega (arith, length_two))

sys_mmap2-undefined_example :
    run demo_host (sys_mmap2 0 0xfff0_0000 3 0x22 (neg 1) 0) demo ≡ undefined
sys_mmap2-undefined_example =
    sys_mmap2-undefined demo_host 0 0xfff0_0000 3 0x22 0 demo demo-HasArena (omega arith) refl
      (omega (arith, length_huge)) (omega (arith, length_huge))

sys_brk_lem_example :
    Returns
      (λ r t.
        (r ≡ t.brk)
        × (t.brk ≡ (
            if leb demo.brk 0x9000 && ltb 0x9000 demo.mem.size && not (0x9000 == 0)
            then 0x9000
            else demo.brk))
        × ((a : ℕ) → (a < demo.brk) ⊎ (demo.brk + 8 ≤ a) → t.mem.byte a ≡ demo.mem.byte a))
      (run demo_host (sys_brk 0x9000) demo)
sys_brk_lem_example = sys_brk_lem demo_host 0x9000 demo (omega arith) (omega arith)

-- Descriptor 3 is open.
open_3 : valid_fd 3 demo.fd_table ≡ true
unfolding valid_fd
open_3 = refl

-- EAX is 10, which is not in the switch.
dispatch_syscall-unknown_example :
    run demo_host (dispatch_syscall (backend for_posix)) demo
    ≡ ok tt (apply (set_reg reg_eax (neg enosys)) demo)
dispatch_syscall-unknown_example = dispatch_syscall-unknown (backend for_posix) demo_host demo refl

dispatch_syscall-SameUser_example :
    Ends (SameUser demo) (run demo_host (dispatch_syscall (backend for_posix)) demo)
dispatch_syscall-SameUser_example = dispatch_syscall-SameUser for_posix demo_host demo

-- The break goes over the arena's pointer, which is 0x10_0000.
sys_brk-sys_mmap2_example :
    Returns
      (λ r t.
        (t.brk ≡ 0x18_0000)
        × (r ≡ demo.mmap_ptr)
        × (r < t.brk)
        × ((a : ℕ) → r ≤ a → a < r + page_align 0x1001 → t.mem.byte a ≡ 0))
      (run demo_host (sys_brk 0x18_0000 >>= λ _. sys_mmap2 0 0x1001 3 0x22 (neg 1) 0) demo)
sys_brk-sys_mmap2_example =
    sys_brk-sys_mmap2 demo_host 0x18_0000 0 0x1001 3 0x22 0 demo demo-HasArena (omega arith)
      (omega arith) (omega arith) (omega arith) refl (omega (arith, length_two))

demo_host-SetsErrno : SetsErrno demo_host
demo_host-SetsErrno trace call failed = absurd (ground arith)

-- EAX asks for `open` on the empty path at 10.
abbrev opening : Machine
opening = record demo { cpu = record demo.cpu { regs = update demo.cpu.regs reg_eax 5 } }

dispatch_syscall-FdStep_example :
    Performs
      (λ _ t. Answered opening (opens 10 3 1) t)
      (run demo_host (dispatch_syscall (backend demo_windows)) opening)
dispatch_syscall-FdStep_example =
    dispatch_syscall-FdStep demo_windows demo_host opening (opens 10 3 1) demo_host-SetsErrno
      (to_open refl)

-- `O_RDWR | O_CREAT | O_TRUNC`.
access_of-remap_flags_example :
    posix_intent (remap_flags 0x242) ≡ win32_intent (access_of 0x242) (creation_of 0x242)
access_of-remap_flags_example = access_of-remap_flags 0x242 (λ e. absurd (ground arith))

-- Two vectors at 0x400: three bytes from 0x100, and none.
abbrev gathering : Machine
gathering = record demo {
  mem = record demo.mem {
    byte = λ a. if a == 0x401 then 1 else if a == 0x404 then 3 else demo.mem.byte a;
  };
}

gathering-AreReadable : AreReadable 2 0x400 gathering.mem
unfolding AreReadable mem_read32
gathering-AreReadable = (omega arith, omega arith, (omega arith, omega arith, tt))

sys_writev-send_example :
    run demo_host (sys_writev (backend demo_windows) 3 0x400 2) gathering
    ≡ sent gathering
        (send demo_windows demo_host 43 (buffers 2 0x400 gathering.mem) 0 gathering.trace)
sys_writev-send_example =
    sys_writev-send demo_windows demo_host 3 0x400 2 gathering open_3 (omega arith) refl
      gathering-AreReadable
