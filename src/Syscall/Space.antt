-- ===== src/Syscall/Space.antt =====
-- The calls that manage the address space: brk, mmap2, munmap, mprotect and the TLS segment
-- (src/syscall/backend_win32.c).
pub mod Laws
pub mod Overlap
use fake_kernel.Prelude.{
  ℕ, zero, suc, ◌+◌, ◌-◌, ◌*◌, ◌/◌, ◌%◌, ◌^◌, Bool, true, false, if◌then◌else◌, ltb, leb, ◌==◌, not,
  ◌&&◌, ◌||◌, bit_and, bit_or, ◌<<<◌, ◌>>>◌, u8, u16, u32, u64, add32, sub32, not32, has_bit,
  Option, none, some, List, [], ◌∷◌, ◌++◌,
}
use fake_kernel.Mem.{Memory, length, guest_to_host, mem_read32}
use fake_kernel.Machine.{
  Machine, GuestFd, OpenFlags, HostCall, reg_eax, reg_ecx, reg_edx, reg_ebx, reg_esp, reg_ebp,
  reg_esi, reg_edi, write_host, fill_host, write32, halt, set_reg, set_brk, set_mmap_ptr,
  set_mmap_base, set_fd, set_sigaction, set_gs_base,
}
use fake_kernel.Prog.{
  Prog, ret, exit, undefined, host_call, HostReply, HostStat, gets, assign, ◌>>=◌, ◌>>◌,
}
use fake_kernel.Syscall.Host.{
  neg, enoent, ebadf, enomem, efault, einval, emfile, enosys, is_negative, with_pointer, need,
  host_fill, host_copy, host_bytes, host_word, little_endian,
}

-- `(len + 0xFFF) & ~0xFFF` on `uint32_t`.
unfoldable pub page_align : ℕ → ℕ
page_align len = bit_and (add32 len 0xfff) (not32 0xfff)

-- The heap starts at the end of the program.
unfoldable pub init_brk : ℕ → Prog (Unit {0})
init_brk base = assign (set_brk base)

unfoldable pub init_mmap_arena : ℕ → Prog (Unit {0})
init_mmap_arena base = do assign (set_mmap_base base); assign (set_mmap_ptr base)

unfoldable pub sys_munmap : ℕ → ℕ → Prog ℕ
sys_munmap addr len = ret 0

unfoldable pub sys_mprotect : ℕ → ℕ → ℕ → Prog ℕ
sys_mprotect addr len prot = ret 0

-- The zeroing at the end of `sys_mmap2`.
abbrev zero_region : ℕ → ℕ → Prog ℕ
zero_region addr n = with_pointer addr (neg efault) λ host. do host_fill host n 0; ret addr

-- A `size_t` difference wraps at 64 bits.
abbrev arena_end : ℕ → ℕ
arena_end size = u64 (size + 2 ^ 64 - 0x10_0000)

unfoldable pub sys_mmap2 : ℕ → ℕ → ℕ → ℕ → ℕ → ℕ → Prog ℕ
unfolding page_align
sys_mmap2 addr len prot flags fd pgoffset =
    let aligned_len = page_align len in
    if len == 0
    then ret (neg einval)
    else if not (fd == neg 1) && not (has_bit flags 5)
    then ret (neg enosys)
    else if has_bit flags 4
    then (do
      size ← gets (λ s. s.mem.size)
      if ltb size (addr + aligned_len) then ret (neg enomem) else zero_region addr aligned_len)
    else (do
      size ← gets (λ s. s.mem.size)
      ptr ← gets (λ s. s.mmap_ptr)
      if ptr == 0
          then ret (neg enomem)
          else if ltb (arena_end size) (add32 ptr aligned_len)
          then ret (neg enomem)
          else do assign (set_mmap_ptr (ptr + aligned_len)); zero_region ptr aligned_len)

unfoldable pub sys_brk : ℕ → Prog ℕ
sys_brk new_brk = do
  old_brk ← gets (λ s. s.brk)
  size ← gets (λ s. s.mem.size)
  if new_brk == 0
      then ret old_brk
      else if ltb new_brk old_brk
      then ret old_brk
      else if leb size new_brk
      then ret old_brk
      else (do
        let alloc_size = sub32 new_brk old_brk
        if leb 8 alloc_size
            then (do
              assign (write32 old_brk 0)
              assign (write32 (add32 old_brk 4) (bit_or alloc_size 1)))
            else ret tt
        assign (set_brk new_brk)
        ret new_brk)

-- The descriptor is read anew after each write, since a write may hit it.
unfoldable pub sys_set_thread_area : ℕ → Prog ℕ
sys_set_thread_area u_info_addr = with_pointer u_info_addr (neg efault) λ desc. do
  entry_number ← host_word desc
  if entry_number == neg 1 then host_copy desc (0 ∷ 0 ∷ 0 ∷ 0 ∷ []) else ret tt
  base ← host_word (desc + 4)
  assign (set_gs_base base)
  assign (write32 (add32 base 0x10) 0x1000)
  base ← host_word (desc + 4)
  assign (write32 (sub32 base 8) 0)
  base ← host_word (desc + 4)
  assign (write32 (sub32 base 4) 0x91)
  ret 0
