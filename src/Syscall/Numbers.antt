-- ===== src/Syscall/Numbers.antt =====
-- The numbers of the calls that the source names (src/syscall/syscall.c).
use fake_kernel.Prelude.{ℕ}

abbrev pub exit_nr : ℕ
exit_nr = 1

abbrev pub read_nr : ℕ
read_nr = 3

abbrev pub write_nr : ℕ
write_nr = 4

abbrev pub open_nr : ℕ
open_nr = 5

abbrev pub close_nr : ℕ
close_nr = 6

abbrev pub lseek_nr : ℕ
lseek_nr = 19

abbrev pub getpid_nr : ℕ
getpid_nr = 20

abbrev pub kill_nr : ℕ
kill_nr = 37

abbrev pub brk_nr : ℕ
brk_nr = 45

abbrev pub munmap_nr : ℕ
munmap_nr = 91

abbrev pub uname_nr : ℕ
uname_nr = 122

abbrev pub mprotect_nr : ℕ
mprotect_nr = 125

abbrev pub llseek_nr : ℕ
llseek_nr = 140

abbrev pub rt_sigreturn_nr : ℕ
rt_sigreturn_nr = 173

abbrev pub rt_sigaction_nr : ℕ
rt_sigaction_nr = 174

abbrev pub rt_sigprocmask_nr : ℕ
rt_sigprocmask_nr = 175

abbrev pub mmap2_nr : ℕ
mmap2_nr = 192

abbrev pub fstat64_nr : ℕ
fstat64_nr = 197

abbrev pub futex_nr : ℕ
futex_nr = 240

abbrev pub set_thread_area_nr : ℕ
set_thread_area_nr = 243

abbrev pub exit_group_nr : ℕ
exit_group_nr = 252

abbrev pub set_tid_address_nr : ℕ
set_tid_address_nr = 258

abbrev pub clock_gettime_nr : ℕ
clock_gettime_nr = 265

abbrev pub rseq_nr : ℕ
rseq_nr = 386
