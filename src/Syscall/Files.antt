-- ===== src/Syscall/Files.antt =====
-- The file system calls over the host's part of them (src/syscall/backend_win32.c).
pub mod Laws
pub mod Contract
pub mod Builds
pub mod Writev
use fake_kernel.Prelude.{
  ℕ, zero, suc, ◌+◌, ◌-◌, ◌*◌, ◌/◌, ◌%◌, ◌^◌, Bool, true, false, if◌then◌else◌, ltb, leb, ◌==◌, not,
  ◌&&◌, ◌||◌, bit_and, bit_or, ◌<<<◌, ◌>>>◌, u8, u16, u32, u64, add32, sub32, not32, has_bit,
  Option, none, some, List, [], ◌∷◌, ◌++◌,
}
use fake_kernel.Mem.{Memory, length, guest_to_host, mem_read32}
use fake_kernel.Machine.{
  update, Machine, GuestFd, OpenFlags, HostCall, reg_eax, reg_ecx, reg_edx, reg_ebx, reg_esp,
  reg_ebp, reg_esi, reg_edi, write_host, fill_host, write32, halt, set_reg, set_brk, set_mmap_ptr,
  set_fd, set_sigaction, set_gs_base,
}
use fake_kernel.Prog.{
  Prog, ret, exit, undefined, host_call, HostReply, HostStat, gets, assign, ◌>>=◌, ◌>>◌,
}
use fake_kernel.Syscall.Interface.{Backend, Opened, opened, refused, ask}
use fake_kernel.Syscall.Host.{
  neg, enoent, ebadf, enomem, efault, einval, emfile, enosys, is_negative, with_pointer, need,
  host_fill, host_copy, host_bytes, host_word, little_endian,
}

abbrev pub max_fds : ℕ
max_fds = 256

-- `fd < 0 || fd >= MAX_FDS || !fd_table[fd].used`, negated. A negative `int` is a large pattern.
unfoldable pub valid_fd : ℕ → (ℕ → GuestFd) → Bool
valid_fd fd table = ltb fd max_fds && (table fd).used

-- The standard streams are open, and nothing else.
unfoldable pub init_fd_table : Backend → ℕ → GuestFd
init_fd_table bk =
    let free : ℕ → GuestFd = λ fd. record { used = false; host_fd = 0 } in
    let zero_open = update free 0 (record { used = true; host_fd = bk.std_handle 0 }) in
    let one_open = update zero_open 1 (record { used = true; host_fd = bk.std_handle 1 }) in
    update one_open 2 (record { used = true; host_fd = bk.std_handle 2 })

-- The loop of `alloc_fd` from `i`, with `left` places to try.
unfoldable pub find_free : ℕ → ℕ → (ℕ → GuestFd) → Option ℕ
find_free zero i table = none
find_free (suc left) i table =
    let rest = find_free left (i + 1) table in if (table i).used then rest else some i

unfoldable pub alloc_fd : (ℕ → GuestFd) → Option ℕ
unfolding find_free
alloc_fd table = find_free (max_fds - 3) 3 table

-- Goes on with the host's descriptor, or returns `-EBADF`.
abbrev pub with_fd : ℕ → (ℕ → Prog ℕ) → Prog ℕ
with_fd fd k = do
  valid ← gets (λ s. valid_fd fd s.fd_table)
  entry ← gets (λ s. s.fd_table fd)
  if valid then k entry.host_fd else ret (neg ebadf)

unfoldable pub sys_write : Backend → ℕ → ℕ → ℕ → Prog ℕ
sys_write bk fd buf_addr count =
    if count == 0
    then ret 0
    else with_fd fd λ host_fd.
      with_pointer buf_addr (neg efault)
        λ p. do bytes ← host_bytes p count; bk.write_to host_fd bytes

unfoldable pub sys_read : Backend → ℕ → ℕ → ℕ → Prog ℕ
sys_read bk fd buf_addr count =
    if count == 0
    then ret 0
    else with_fd fd λ host_fd. with_pointer buf_addr (neg efault) λ p. bk.read_from host_fd p count

-- The C string at an index, by the bytes left to the end; `none` if it does not end in `g_mem`.
unfoldable pub string_at : ℕ → ℕ → Memory → Option (List ℕ)
string_at zero p m = none
string_at (suc left) p m =
    let rest = string_at left (p + 1) m in
    if m.byte p == 0 then some [] else elim rest [ none ↦ none | some bs ↦ some (m.byte p ∷ bs) ]

-- Takes the descriptor for a file that the host has opened.
abbrev pub install : ℕ → Opened → Prog ℕ
install guest_fd (refused e) = ret e
install guest_fd (opened h) = do
  assign (set_fd guest_fd (record { used = true; host_fd = h }))
  ret guest_fd

-- `sys_open` behind the test of the path's pointer.
abbrev pub open_at : Backend → ℕ → ℕ → ℕ → Prog ℕ
open_at bk flags mode p = do
  free ← gets (λ s. alloc_fd s.fd_table)
  path ← gets (λ s. string_at (s.mem.size - p) p s.mem)
  elim free [
    | none ↦ ret (neg emfile)
    | some guest_fd ↦ elim path [
      | none ↦ undefined
      | some name ↦ do file ← bk.open_path name flags mode; install guest_fd file
    ]
  ]

unfoldable pub sys_open : Backend → ℕ → ℕ → ℕ → Prog ℕ
sys_open bk path_addr flags mode = with_pointer path_addr (neg efault) (open_at bk flags mode)

-- `sys_close` on a descriptor above the standard streams.
abbrev pub release_fd : Backend → ℕ → ℕ → Prog ℕ
release_fd bk fd host_fd = do
  _ ← ask (bk.release host_fd)
  assign (set_fd fd (record { used = false; host_fd = host_fd }))
  ret 0

unfoldable pub sys_close : Backend → ℕ → Prog ℕ
sys_close bk fd = with_fd fd λ host_fd. if leb fd 2 then ret 0 else release_fd bk fd host_fd

unfoldable pub sys_lseek : Backend → ℕ → ℕ → ℕ → Prog ℕ
sys_lseek bk fd offset whence = with_fd fd λ host_fd. bk.seek host_fd offset whence

unfoldable pub sys_fstat64 : Backend → ℕ → ℕ → Prog ℕ
sys_fstat64 bk fd buf_addr = with_fd fd λ host_fd.
    with_pointer buf_addr (neg efault) λ p. do host_fill p 104 0; bk.stat_into fd host_fd p

-- The loop of `sys_writev` with `left` vectors to go.
unfoldable pub writev_loop : Backend → ℕ → ℕ → ℕ → ℕ → Prog ℕ
writev_loop bk zero fd iov_addr total = ret total
writev_loop bk (suc left) fd iov_addr total = with_pointer iov_addr (neg efault) λ iov. do
  need iov 8
  iov_len ← host_word (iov + 4)
  iov_base ← host_word iov
  if iov_len == 0 then writev_loop bk left fd (add32 iov_addr 8) total else do
    n ← sys_write bk fd iov_base iov_len
    if is_negative n then ret n else writev_loop bk left fd (add32 iov_addr 8) (add32 total n)

unfoldable pub sys_writev : Backend → ℕ → ℕ → ℕ → Prog ℕ
sys_writev bk fd iov_addr iovcnt =
    if is_negative iovcnt then ret 0 else writev_loop bk iovcnt fd iov_addr 0
