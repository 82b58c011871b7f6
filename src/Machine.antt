-- ===== src/Machine.antt =====
-- The state of the emulator: `i386` (src/cpu/cpu.h) with the file-level variables of mem.c, ops.c
-- and backend_win32.c, in one record, and every assignment to it as a value of `Write`.
pub mod Flags
pub mod Valid
use fake_kernel.Prelude.{
  ℕ, ◌+◌, Bool, true, false, if◌then◌else◌, ◌==◌, u32, u64, not32, bit_or, bit_and, List, ◌%◌, ◌^◌,
}
use fake_kernel.Mem.{Memory, mem_write8, mem_write16, mem_write32, copy_bytes, fill_bytes}

-- `regs[8]` is a function of the index. `cycles` is the 32-bit pattern of an `int`.
pub record I386 : Type 0 where
  pub regs : ℕ → ℕ
  pub eip : ℕ
  pub eflags : ℕ
  pub halted : Bool
  pub cycles : ℕ

pub record XmmReg : Type 0 where
  pub lo : ℕ
  pub hi : ℕ

-- `host_fd` is what the host's `open` returned; built for Windows it is the `HANDLE`.
pub record GuestFd : Type 0 where
  pub used : Bool
  pub host_fd : ℕ

-- What `sys_open` asks of the host's `open`: the access mode (0 read, 1 write, 2 both) and
-- whether `O_CREAT`, `O_TRUNC` and `O_APPEND` are given.
pub record OpenFlags : Type 0 where
  pub access : ℕ
  pub creat : Bool
  pub trunc : Bool
  pub append : Bool

-- What `sys_open` asks of `CreateFileA`: `GENERIC_READ`, `GENERIC_WRITE`, and the disposition.
pub record Access : Type 0 where
  pub generic_read : Bool
  pub generic_write : Bool

pub data Creation : Type 0 where
  open_existing create_always open_always truncate_existing : Creation

-- Where `SetFilePointer` counts from.
pub data Method : Type 0 where
  file_begin file_current file_end : Method

-- The calls that the backend makes to the host, with what they are given: those of POSIX, then
-- those of Windows.
pub data HostCall : Type 0 where
  write : ℕ → List ℕ → HostCall
  read : ℕ → ℕ → HostCall
  open_file : List ℕ → OpenFlags → ℕ → HostCall
  close : ℕ → HostCall
  lseek : ℕ → ℕ → ℕ → HostCall
  fstat : ℕ → HostCall
  write_file : ℕ → List ℕ → HostCall
  read_file : ℕ → ℕ → HostCall
  create_file : List ℕ → Access → Creation → HostCall
  close_handle : ℕ → HostCall
  set_file_pointer : ℕ → ℕ → Method → HostCall
  file_information : ℕ → HostCall
  file_type : ℕ → HostCall

-- `fpu_stack` holds the bit patterns of `double`s; `trace` is every host call made, latest first.
pub record Machine : Type 0 where
  pub cpu : I386
  pub mem : Memory
  pub operand_size_16 : Bool
  pub gs_base : ℕ
  pub seg_override : ℕ
  pub last_eip : ℕ
  pub mmx_regs : ℕ → ℕ
  pub xmm_regs : ℕ → XmmReg
  pub fpu_stack : ℕ → ℕ
  pub fpu_top : ℕ
  pub brk : ℕ
  pub mmap_base : ℕ
  pub mmap_ptr : ℕ
  pub fd_table : ℕ → GuestFd
  pub sigactions : ℕ → List ℕ
  pub trace : List HostCall

-- The flags that the emulator keeps, and the masks `FLAG_CF` to `FLAG_OF`.
pub data Flag : Type 0 where
  cf pf zf sf of : Flag

unfoldable pub flag_shift : Flag → ℕ
flag_shift cf = 0
flag_shift pf = 2
flag_shift zf = 6
flag_shift sf = 7
flag_shift of = 11

unfoldable pub flag_mask : Flag → ℕ
unfolding flag_shift
flag_mask f = 2 ^ flag_shift f

-- One assignment. Values are cut to the width of what they are stored in, as by C's conversion.
pub data Write : Type 0 where
  set_reg : ℕ → ℕ → Write
  set_eip : ℕ → Write
  set_flag : Flag → Bool → Write
  halt : Write
  add_cycles : ℕ → Write
  write8 write16 write32 : ℕ → ℕ → Write
  write_host : ℕ → List ℕ → Write
  fill_host : ℕ → ℕ → ℕ → Write
  set_operand_size_16 : Bool → Write
  set_gs_base set_seg_override set_last_eip : ℕ → Write
  set_mmx : ℕ → ℕ → Write
  set_xmm : ℕ → XmmReg → Write
  set_fpu : ℕ → ℕ → Write
  set_fpu_top : ℕ → Write
  set_brk set_mmap_base set_mmap_ptr : ℕ → Write
  set_fd : ℕ → GuestFd → Write
  set_sigaction : ℕ → List ℕ → Write

-- An array as a function, with one place set.
abbrev pub update {ℓ} : {A : Type ℓ} → (ℕ → A) → ℕ → A → ℕ → A
update f i v j = if j == i then v else f j

-- `eflags |= mask` or `eflags &= ~mask`.
unfoldable pub change_flag : Flag → Bool → ℕ → ℕ
unfolding flag_mask
change_flag f true e = bit_or e (flag_mask f)
change_flag f false e = bit_and e (not32 (flag_mask f))

abbrev pub xmm_cut : XmmReg → XmmReg
xmm_cut x = record { lo = u64 x.lo; hi = u64 x.hi }

unfoldable pub apply_cpu : Write → I386 → I386
apply_cpu (set_reg i v) c = record c { regs = update c.regs i (u32 v) }
apply_cpu (set_eip v) c = record c { eip = u32 v }
apply_cpu (set_flag f b) c = record c { eflags = change_flag f b c.eflags }
apply_cpu halt c = record c { halted = true }
apply_cpu (add_cycles n) c = record c { cycles = u32 (c.cycles + n) }
apply_cpu _ c = c

unfoldable pub apply : Write → Machine → Machine
unfolding apply_cpu
apply (write8 a v) s = record s { mem = mem_write8 a v s.mem }
apply (write16 a v) s = record s { mem = mem_write16 a v s.mem }
apply (write32 a v) s = record s { mem = mem_write32 a v s.mem }
apply (write_host a bs) s = record s { mem = copy_bytes a bs s.mem }
apply (fill_host a n v) s = record s { mem = fill_bytes a n v s.mem }
apply (set_operand_size_16 b) s = record s { operand_size_16 = b }
apply (set_gs_base v) s = record s { gs_base = u32 v }
apply (set_seg_override v) s = record s { seg_override = u32 v }
apply (set_last_eip v) s = record s { last_eip = u32 v }
apply (set_mmx i v) s = record s { mmx_regs = update s.mmx_regs i (u64 v) }
apply (set_xmm i x) s = record s { xmm_regs = update s.xmm_regs i (xmm_cut x) }
apply (set_fpu i v) s = record s { fpu_stack = update s.fpu_stack i (u64 v) }
apply (set_fpu_top v) s = record s { fpu_top = v % 8 }
apply (set_brk v) s = record s { brk = u32 v }
apply (set_mmap_base v) s = record s { mmap_base = u32 v }
apply (set_mmap_ptr v) s = record s { mmap_ptr = u32 v }
apply (set_fd i d) s = record s { fd_table = update s.fd_table i d }
apply (set_sigaction i bs) s = record s { sigactions = update s.sigactions i bs }
apply w s = record s { cpu = apply_cpu w s.cpu }

abbrev pub reg_eax : ℕ
reg_eax = 0

abbrev pub reg_ecx : ℕ
reg_ecx = 1

abbrev pub reg_edx : ℕ
reg_edx = 2

abbrev pub reg_ebx : ℕ
reg_ebx = 3

abbrev pub reg_esp : ℕ
reg_esp = 4

abbrev pub reg_ebp : ℕ
reg_ebp = 5

abbrev pub reg_esi : ℕ
reg_esi = 6

abbrev pub reg_edi : ℕ
reg_edi = 7
