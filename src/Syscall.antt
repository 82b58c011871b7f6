-- ===== src/Syscall.antt =====
-- The INT 0x80 dispatcher (src/syscall/syscall.c). An `int` argument is the pattern of its register.
pub mod Host
pub mod Numbers
pub mod Interface
pub mod Posix
pub mod Win32
pub mod Build
pub mod Files
pub mod Space
pub mod Signals
pub mod Laws
pub mod Total
pub mod Abi
pub mod Requests
pub mod Runs
use fake_kernel.Prelude.{
  ℕ, zero, suc, ◌+◌, ◌-◌, ◌*◌, ◌/◌, ◌%◌, ◌^◌, Bool, true, false, if◌then◌else◌, ltb, leb, ◌==◌, not,
  ◌&&◌, ◌||◌, bit_and, bit_or, ◌<<<◌, ◌>>>◌, u8, u16, u32, u64, add32, sub32, not32, has_bit,
  Option, none, some, List, [], ◌∷◌, ◌++◌,
}
use fake_kernel.Mem.{Memory, length, guest_to_host, mem_read32}
use fake_kernel.Machine.{
  Machine, GuestFd, OpenFlags, HostCall, reg_eax, reg_ecx, reg_edx, reg_ebx, reg_esp, reg_ebp,
  reg_esi, reg_edi, write_host, fill_host, write32, halt, set_reg, set_brk, set_mmap_ptr, set_fd,
  set_sigaction, set_gs_base,
}
use fake_kernel.Prog.{
  Prog, ret, exit, undefined, host_call, HostReply, HostStat, gets, assign, ◌>>=◌, ◌>>◌,
}
use fake_kernel.Syscall.Host.{
  neg, enoent, ebadf, enomem, efault, einval, emfile, enosys, is_negative, with_pointer, need,
  host_fill, host_copy, host_bytes, host_word, little_endian,
}
use fake_kernel.Syscall.Interface.{Backend}
use fake_kernel.Syscall.Numbers.{
  brk_nr, clock_gettime_nr, close_nr, exit_group_nr, exit_nr, fstat64_nr, futex_nr, getpid_nr,
  kill_nr, llseek_nr, lseek_nr, mmap2_nr, mprotect_nr, munmap_nr, open_nr, read_nr, rseq_nr,
  rt_sigaction_nr, rt_sigprocmask_nr, rt_sigreturn_nr, set_thread_area_nr, set_tid_address_nr,
  uname_nr, write_nr,
}
use fake_kernel.Syscall.Files.{
  sys_write, sys_read, sys_open, sys_close, sys_lseek, sys_fstat64, sys_writev,
}
use fake_kernel.Syscall.Space.{sys_munmap, sys_mprotect, sys_mmap2, sys_brk, sys_set_thread_area}
use fake_kernel.Syscall.Signals.{
  sys_exit, sys_rt_sigaction, sys_rt_sigprocmask, sys_set_tid_address,
}

abbrev result : ℕ → Prog (Unit {0})
result v = assign (set_reg reg_eax v)

abbrev returns : Prog ℕ → Prog (Unit {0})
returns call = do v ← call; result v

-- `strncpy(field, text, 64)`: the text and zeros up to 64 bytes. The 65th stays.
abbrev uts_field : ℕ → ℕ → List ℕ → Prog (Unit {0})
uts_field base k text = do let p = base + 65 * k; host_fill p 64 0; assign (write_host p text)

unfoldable pub sys_uname : ℕ → Prog ℕ
sys_uname ebx = with_pointer ebx (neg efault) λ uts. do
  uts_field uts 0 (b'L' ∷ b'i' ∷ b'n' ∷ b'u' ∷ b'x' ∷ [])
  uts_field uts 1 (b'e' ∷ b'm' ∷ b'u' ∷ [])
  uts_field uts 2 (b'3' ∷ b'.' ∷ b'1' ∷ b'9' ∷ b'.' ∷ b'0' ∷ [])
  uts_field uts 3 (b'#' ∷ b'1' ∷ b' ' ∷ b'S' ∷ b'M' ∷ b'P' ∷ [])
  uts_field uts 4 (b'i' ∷ b'6' ∷ b'8' ∷ b'6' ∷ [])
  uts_field uts 5 (b'(' ∷ b'n' ∷ b'o' ∷ b'n' ∷ b'e' ∷ b')' ∷ [])
  ret 0

unfoldable pub sys_llseek : Backend → ℕ → ℕ → ℕ → ℕ → ℕ → Prog ℕ
sys_llseek bk fd offset_high offset_low result_ptr whence =
    if not (offset_high == 0) && not (offset_high == 0xffff_ffff) then ret (neg einval) else do
      value ← sys_lseek bk fd offset_low whence
      if is_negative value then ret value else if result_ptr == 0 then ret 0 else (do
        assign (write32 result_ptr value)
        assign (write32 (add32 result_ptr 4) 0)
        ret 0)

-- The words that several cases write at ECX, unless it is `NULL`.
abbrev write_words : ℕ → List ℕ → Prog (Unit {0})
write_words addr [] = ret tt
write_words addr (v ∷ vs) = do assign (write32 addr v); write_words (add32 addr 4) vs

abbrev fill_words : ℕ → List ℕ → Prog ℕ
fill_words addr vs = if addr == 0 then ret 0 else do write_words addr vs; ret 0

unfoldable pub sys_getrandom : ℕ → ℕ → Prog ℕ
sys_getrandom ebx ecx =
    if ebx == 0 then ret ecx else with_pointer ebx ecx λ buf. do host_fill buf ecx 0xab; ret ecx

-- 270: SIGABRT ends the process.
unfoldable pub sys_tgkill : ℕ → Prog (Unit {0})
sys_tgkill sig = if sig == 6 then sys_exit 1 >> result 0 else result 0

-- The switch on the number of the call, in pieces.
unfoldable pub dispatch_low : Backend → ℕ → ℕ → ℕ → ℕ → ℕ → ℕ → Prog (Unit {0}) → Prog (Unit {0})
dispatch_low bk nr ebx ecx edx esi edi other =
    if nr == exit_nr
    then sys_exit ebx
    else if nr == read_nr
    then returns (sys_read bk ebx ecx edx)
    else if nr == write_nr
    then returns (sys_write bk ebx ecx edx)
    else if nr == open_nr
    then returns (sys_open bk ebx ecx edx)
    else if nr == close_nr
    then returns (sys_close bk ebx)
    else if nr == lseek_nr
    then returns (sys_lseek bk ebx ecx edx)
    else if nr == getpid_nr
    then result 1
    else if nr == kill_nr
    then result 0
    else if nr == brk_nr
    then returns (sys_brk ebx)
    else if nr == munmap_nr
    then returns (sys_munmap ebx ecx)
    else if nr == uname_nr
    then returns (sys_uname ebx)
    else if nr == mprotect_nr
    then returns (sys_mprotect ebx ecx edx)
    else if nr == llseek_nr
    then returns (sys_llseek bk ebx ecx edx esi edi)
    else other

unfoldable pub dispatch_middle :
    Backend → ℕ → ℕ → ℕ → ℕ → ℕ → ℕ → ℕ → Prog (Unit {0}) → Prog (Unit {0})
dispatch_middle bk nr ebx ecx edx esi edi ebp other =
    if nr == 146
    then returns (sys_writev bk ebx ecx edx)
    else if nr == 172 || nr == rt_sigreturn_nr
    then result 0
    else if nr == rt_sigaction_nr
    then returns (sys_rt_sigaction ebx ecx edx)
    else if nr == rt_sigprocmask_nr
    then returns (sys_rt_sigprocmask ebx ecx edx esi)
    else if nr == 180
    then result (neg enosys)
    else if nr == 191
    then returns (fill_words ecx (0xffff_ffff ∷ 0xffff_ffff ∷ []))
    else if nr == mmap2_nr
    then returns (sys_mmap2 ebx ecx edx esi edi ebp)
    else if nr == 195 || nr == 196
    then result (neg enoent)
    else if nr == fstat64_nr
    then returns (sys_fstat64 bk ebx ecx)
    else if leb 199 nr && leb nr 202
    then result 1000
    else if nr == 219
    then result 0
    else if nr == 224
    then result 1
    else other

unfoldable pub dispatch_high : Backend → ℕ → ℕ → ℕ → ℕ → ℕ → Prog (Unit {0})
dispatch_high bk nr ebx ecx edx esi =
    if nr == futex_nr
    then result 0
    else if nr == set_thread_area_nr
    then returns (sys_set_thread_area ebx)
    else if nr == exit_group_nr
    then sys_exit ebx
    else if nr == set_tid_address_nr
    then returns (sys_set_tid_address ebx)
    else if nr == clock_gettime_nr
    then returns (fill_words ecx (0 ∷ 0 ∷ []))
    else if nr == 270
    then sys_tgkill edx
    else if nr == 295
    then returns (sys_open bk ecx edx esi)
    else if nr == 300 || nr == 311 || nr == rseq_nr
    then result 0
    else if nr == 305
    then result (neg enoent)
    else if nr == 355
    then returns (sys_getrandom ebx ecx)
    else if nr == 383
    then result (neg enosys)
    else if nr == 403
    then returns (fill_words ecx (0 ∷ 0 ∷ 0 ∷ 0 ∷ []))
    else result (neg enosys)

unfoldable pub dispatch_syscall : Backend → Prog (Unit {0})
dispatch_syscall bk = do
  nr ← gets (λ s. s.cpu.regs reg_eax)
  ebx ← gets (λ s. s.cpu.regs reg_ebx)
  ecx ← gets (λ s. s.cpu.regs reg_ecx)
  edx ← gets (λ s. s.cpu.regs reg_edx)
  esi ← gets (λ s. s.cpu.regs reg_esi)
  edi ← gets (λ s. s.cpu.regs reg_edi)
  ebp ← gets (λ s. s.cpu.regs reg_ebp)
  dispatch_low bk nr ebx ecx edx esi edi
      (dispatch_middle bk nr ebx ecx edx esi edi ebp (dispatch_high bk nr ebx ecx edx esi))
