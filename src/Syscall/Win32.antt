-- ===== src/Syscall/Win32.antt =====
-- The file system calls as built for Windows (src/syscall/backend_win32.c, under `_WIN32`).
use fake_kernel.Prelude.{
  ℕ, ◌+◌, ◌*◌, ◌/◌, ◌^◌, ◌≡◌, refl, true, false, if◌then◌else◌, leb, ◌==◌, u32, u64, has_bit, List,
}
use fake_kernel.Machine.{
  Machine, HostCall, Access, Creation, open_existing, create_always, open_always, truncate_existing,
  Method, file_begin, file_current, file_end,
}
use fake_kernel.Prog.{
  Prog, ret, undefined, HostStat, LastError, file_not_found, path_not_found, access_denied,
  broken_pipe, handle_eof, other, Host, run, ◌>>=◌, ◌>>◌,
}
use fake_kernel.Prog.Answers.{Performs, Performs-if, answers}
use fake_kernel.Syscall.Host.{neg, enoent, eacces, einval, is_negative, host_copy, little_endian}
use fake_kernel.Syscall.Interface.{
  Backend, IsBackend, Opened, opened, refused, IsRefusal, SetsErrno, into_bytes, into_region, ask,
  stat64_bytes,
}

-- The source writes 5 for `EIO`.
abbrev pub eio : ℕ
eio = 5

unfoldable pub write_handle : ℕ → List ℕ → Prog ℕ
write_handle h bytes = do
  r ← ask (HostCall.write_file h bytes)
  if r.failed then ret (neg eio) else ret (u32 r.value)

-- The errors of `ReadFile` that stand for the end of the stream.
unfoldable pub read_failure : LastError → ℕ
read_failure broken_pipe = 0
read_failure handle_eof = 0
read_failure _ = neg eio

unfoldable pub read_handle : ℕ → ℕ → ℕ → Prog ℕ
read_handle h p count = do
  r ← ask (HostCall.read_file h count)
  if r.failed then ret (read_failure r.last_error) else do host_copy p r.bytes; ret (u32 r.value)

abbrev pub access_of : ℕ → Access
access_of flags = record {
  generic_read = if has_bit flags 1 then true else if has_bit flags 0 then false else true;
  generic_write = if has_bit flags 1 then true else if has_bit flags 0 then true else false;
}

abbrev pub creation_of : ℕ → Creation
creation_of flags =
    if has_bit flags 6
    then if has_bit flags 9 then create_always else open_always
    else if has_bit flags 9
    then truncate_existing
    else open_existing

unfoldable pub open_failure : LastError → ℕ
open_failure file_not_found = neg enoent
open_failure path_not_found = neg enoent
open_failure access_denied = neg eacces
open_failure _ = neg eio

-- `mode` is not used.
unfoldable pub open_handle : List ℕ → ℕ → ℕ → Prog Opened
open_handle path flags mode = do
  r ← ask (HostCall.create_file path (access_of flags) (creation_of flags))
  if r.failed then ret (refused (open_failure r.last_error)) else ret (opened (u64 r.value))

-- `INVALID_SET_FILE_POINTER` is 0xFFFFFFFF.
abbrev move_pointer : ℕ → ℕ → Method → Prog ℕ
move_pointer h offset method = do
  r ← ask (HostCall.set_file_pointer h offset method)
  if u32 r.value == 0xffff_ffff then ret (neg eio) else ret (u32 r.value)

unfoldable pub seek_handle : ℕ → ℕ → ℕ → Prog ℕ
seek_handle h offset whence =
    if whence == 0
    then move_pointer h offset file_begin
    else if whence == 1
    then move_pointer h offset file_current
    else if whence == 2
    then move_pointer h offset file_end
    else ret (neg einval)

-- The made-up regular file of a size: `S_IFREG | 0644`, one link, blocks of 512 bytes.
abbrev regular_file : ℕ → HostStat
regular_file bytes = record {
  dev = 0;
  ino = 0;
  st_mode = 0x81a4;
  nlink = 1;
  uid = 0;
  gid = 0;
  rdev = 0;
  size = bytes;
  blksize = 4096;
  blocks = (bytes + 511) / 512;
  atime = 0;
  mtime = 0;
  ctime = 0;
}

-- The regular file, unless the host says that the handle is a character device; `st_mode`, at offset
-- 16, is then `S_IFCHR | 0620`. The signed shift of the high half and the sum with 511 have no
-- meaning in C where they leave 64 bits.
unfoldable pub describe : ℕ → ℕ → ℕ → Prog ℕ
describe h p bytes = if leb (2 ^ 63) (bytes + 511) then undefined else do
  host_copy p (stat64_bytes (regular_file bytes))
  kind ← ask (HostCall.file_type h)
  if kind.is_char then (do host_copy (p + 16) (little_endian 4 0x2190); ret 0) else ret 0

unfoldable pub stat_handle : ℕ → ℕ → ℕ → Prog ℕ
stat_handle fd h p = do
  r ← ask (HostCall.file_information h)
  if r.failed
      then if leb fd 2 then ret 0 else ret (neg eio)
      else describe h p (u32 r.size_high * 2 ^ 32 + u32 r.size_low)

-- The argument is what `GetStdHandle` gives for the three streams.
unfoldable pub win32 : (ℕ → ℕ) → Backend
win32 std = record {
  std_handle = std;
  write_to = write_handle;
  read_from = read_handle;
  open_path = open_handle;
  release = HostCall.close_handle;
  seek = seek_handle;
  stat_into = stat_handle;
}

open_failure_negative : (e : LastError) → is_negative (open_failure e) ≡ true
unfolding open_failure
open_failure_negative file_not_found = refl
open_failure_negative path_not_found = refl
open_failure_negative access_denied = refl
open_failure_negative broken_pipe = refl
open_failure_negative handle_eof = refl
open_failure_negative other = refl

open_handle_refuses :
    (path : List ℕ) (flags mode : ℕ) (host : Host) (s : Machine)
    → SetsErrno host
    → Performs (λ o _. IsRefusal o) (run host (open_handle path flags mode) s)
unfolding open_handle run
open_handle_refuses path flags mode host s sets =
    let call = HostCall.create_file path (access_of flags) (creation_of flags) in
    Performs-if (λ o _. IsRefusal o) host (host s.trace call).failed _ _ _
      (λ _. open_failure_negative (host s.trace call).last_error) (λ _. tt)

ruleset buffer_rules = (answers, into_bytes, into_region)

pub win32-IsBackend : (std : ℕ → ℕ) → IsBackend (win32 std)
unfolding win32 write_handle read_handle open_handle seek_handle stat_handle describe
win32-IsBackend std = record {
  write_to_answers = λ h bs. search buffer_rules depth 60;
  read_from_answers = λ h p count. search buffer_rules depth 60;
  open_path_answers = λ path flags mode. search buffer_rules depth 60;
  open_path_refuses = open_handle_refuses;
  seek_answers = λ h o w. search buffer_rules depth 60;
  stat_into_answers = λ fd h p. search buffer_rules depth 60 fits 20000;
}
