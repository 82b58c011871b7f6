-- ===== src/Syscall/Interface.antt =====
-- What the file system calls ask of the host (src/syscall/backend_win32.c): the pieces of the calls
-- that the source builds for POSIX or for Windows, as one interface with its laws.
use fake_kernel.Prelude.{ℕ, ◌^◌, ◌<◌, ◌≡◌, true, List, ◌++◌, u32}
use fake_kernel.Machine.{Write, Machine, HostCall, write_host, fill_host}
use fake_kernel.Prog.{Prog, ret, host_call, HostReply, HostStat, Host, run}
use fake_kernel.Prog.Answers.{Answers, Performs}
use fake_kernel.Syscall.Host.{is_negative, little_endian}

-- What opening a file came to: the host's descriptor or handle, or what the call returns.
pub data Opened : Type 0 where
  opened refused : ℕ → Opened

-- `write_to` gets the bytes of the buffer, `read_from` and `stat_into` a host pointer, and
-- `stat_into` the guest's descriptor first. `std_handle` is for the three standard streams.
pub record Backend : Type 0 where
  pub std_handle : ℕ → ℕ
  pub write_to : ℕ → List ℕ → Prog ℕ
  pub read_from : ℕ → ℕ → ℕ → Prog ℕ
  pub open_path : List ℕ → ℕ → ℕ → Prog Opened
  pub release : ℕ → HostCall
  pub seek : ℕ → ℕ → ℕ → Prog ℕ
  pub stat_into : ℕ → ℕ → ℕ → Prog ℕ

-- The assignments to a buffer of the guest.
pub data IsBufferWrite : Write → Type 0 where
  into_bytes : (a : ℕ) (bs : List ℕ) → IsBufferWrite (write_host a bs)
  into_region : (a n v : ℕ) → IsBufferWrite (fill_host a n v)

-- `errno` is positive when a call of the host has failed, as POSIX has it.
abbrev pub SetsErrno : Host → Type 0
SetsErrno host =
    (trace : List HostCall) (call : HostCall)
    → (host trace call).failed ≡ true
    → (0 < (host trace call).errno) × ((host trace call).errno < 2 ^ 31)

abbrev pub IsRefusal : Opened → Type 0
IsRefusal (opened h) = Unit
IsRefusal (refused e) = is_negative e ≡ true

-- The calls come to an end in which nothing but buffers has changed.
pub record IsBackend (bk : Backend) : Type 0 where
  pub write_to_answers : (h : ℕ) (bs : List ℕ) → Answers IsBufferWrite (bk.write_to h bs)
  pub read_from_answers : (h p count : ℕ) → Answers IsBufferWrite (bk.read_from h p count)
  pub open_path_answers :
      (path : List ℕ) (flags mode : ℕ) → Answers IsBufferWrite (bk.open_path path flags mode)
  pub open_path_refuses :
      (path : List ℕ) (flags mode : ℕ) (host : Host) (s : Machine)
      → SetsErrno host
      → Performs (λ o _. IsRefusal o) (run host (bk.open_path path flags mode) s)
  pub seek_answers : (h o w : ℕ) → Answers IsBufferWrite (bk.seek h o w)
  pub stat_into_answers : (fd h p : ℕ) → Answers IsBufferWrite (bk.stat_into fd h p)

abbrev pub ask : HostCall → Prog HostReply
ask c = host_call c ret

-- `LinuxStat64` as a 64-bit host lays it out, 104 bytes, the padding zero.
unfoldable pub stat64_bytes : HostStat → List ℕ
unfolding little_endian
stat64_bytes st =
    little_endian 8 st.dev
    ++ little_endian 8 0
    ++ little_endian 4 st.st_mode
    ++ little_endian 4 st.nlink
    ++ little_endian 4 st.uid
    ++ little_endian 4 st.gid
    ++ little_endian 8 st.rdev
    ++ little_endian 8 0
    ++ little_endian 8 st.size
    ++ little_endian 8 (u32 st.blksize)
    ++ little_endian 8 st.blocks
    ++ little_endian 8 (u32 st.atime)
    ++ little_endian 8 (u32 st.mtime)
    ++ little_endian 8 (u32 st.ctime)
    ++ little_endian 8 st.ino
