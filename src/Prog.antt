-- ===== src/Prog.antt =====
-- Handlers as programs: a small monad whose steps read the state, make one assignment, call the
-- host, or end the run. `run` gives a program its meaning as a function on the state.
pub mod Valid
pub mod Memory
pub mod Total
pub mod Only
pub mod Answers
pub mod Finishes
use fake_kernel.Prelude.{
  ℕ, zero, suc, ◌+◌, Bool, true, false, if◌then◌else◌, ◌==◌, not, bit_and, bit_or, bit_xor, ◌<<<◌,
  ◌>>>◌, u8, not32, has_bit, List, ◌∷◌, ◌≡◌, refl, bit, add32,
}
use fake_kernel.Mem.{mem_read8, mem_read16, mem_read32}
use fake_kernel.Machine.{
  Machine, I386, XmmReg, HostCall, Flag, cf, pf, zf, sf, of, flag_shift, Write, set_reg, set_eip,
  set_flag, halt, add_cycles, write8, write16, write32, set_mmx, set_xmm, apply, reg_esp,
}

-- The fields of `struct stat` that `sys_fstat64` copies, in the order of its assignments.
pub record HostStat : Type 0 where
  pub dev : ℕ
  pub ino : ℕ
  pub st_mode : ℕ
  pub nlink : ℕ
  pub uid : ℕ
  pub gid : ℕ
  pub rdev : ℕ
  pub size : ℕ
  pub blksize : ℕ
  pub blocks : ℕ
  pub atime : ℕ
  pub mtime : ℕ
  pub ctime : ℕ

-- The values of `GetLastError` that the backend tells apart.
pub data LastError : Type 0 where
  file_not_found path_not_found access_denied broken_pipe handle_eof other : LastError

-- What the host answers: whether it failed, a value, `errno`, and what it hands over. The last four
-- are for Windows: the error, the halves of the file's size, and whether it is a character device.
pub record HostReply : Type 0 where
  pub failed : Bool
  pub value : ℕ
  pub errno : ℕ
  pub bytes : List ℕ
  pub stat : HostStat
  pub last_error : LastError
  pub size_high : ℕ
  pub size_low : ℕ
  pub is_char : Bool

-- The host is any function of the calls made so far and the present one.
abbrev pub Host : Type 0
Host = List HostCall → HostCall → HostReply

-- `exit` is C's `exit(status)`. `undefined` stands where C gives the code no meaning, such as a
-- shift by the width or more. `out_of_fuel` is the model's own.
pub data Prog (A : Type 0) : Type 0 where
  ret : A → Prog A
  get : (Machine → Prog A) → Prog A
  put : Write → Prog A → Prog A
  host_call : HostCall → (HostReply → Prog A) → Prog A
  exit : ℕ → Prog A
  undefined : Prog A
  out_of_fuel : Prog A

pub data Run (A : Type 0) : Type 0 where
  ok : A → Machine → Run A
  exited : ℕ → Machine → Run A
  undefined : Run A
  out_of_fuel : Run A

unfoldable pub run : {A : Type 0} → Host → Prog A → Machine → Run A
run host (ret a) s = ok a s
run host (get k) s = run host (k s) s
run host (put w p) s = run host p (apply w s)
run host (host_call c k) s = run host (k (host s.trace c)) (record s { trace = c ∷ s.trace })
run host (exit n) s = exited n s
run host undefined s = undefined
run host out_of_fuel s = out_of_fuel

infixl 5 ◌>>=◌ ◌>>◌
abbrev pub ◌>>=◌ : {A B : Type 0} → Prog A → (A → Prog B) → Prog B
ret a >>= f = f a
get k >>= f = get (λ s. k s >>= f)
put w p >>= f = put w (p >>= f)
host_call c k >>= f = host_call c (λ r. k r >>= f)
exit n >>= f = exit n
undefined >>= f = undefined
out_of_fuel >>= f = out_of_fuel

abbrev pub ◌>>◌ : {B : Type 0} → Prog (Unit {0}) → Prog B → Prog B
p >> q = p >>= λ _. q

-- The meaning of a sequence, by the meaning of its parts.
abbrev pub and_then : {A B : Type 0} → Run A → (A → Machine → Run B) → Run B
and_then (ok a s) k = k a s
and_then (exited n s) k = exited n s
and_then undefined k = undefined
and_then out_of_fuel k = out_of_fuel

pub run->>= :
    {A B : Type 0} (host : Host) (p : Prog A) (f : A → Prog B) (s : Machine)
    → run host (p >>= f) s ≡ and_then (run host p s) (λ a. run host (f a))
unfolding run
run->>= host (ret a) f s = refl
run->>= host (get k) f s = run->>= host (k s) f s
run->>= host (put w p) f s = run->>= host p f (apply w s)
run->>= host (host_call c k) f s =
    run->>= host (k (host s.trace c)) f (record s { trace = c ∷ s.trace })
run->>= host (exit n) f s = refl
run->>= host undefined f s = refl
run->>= host out_of_fuel f s = refl

-- A sequence that returns went through a state between its parts.
pub and_then-eq-ok :
    {A B : Type 0} (r : Run A) (k : A → Machine → Run B) {b : B} {t : Machine}
    → and_then r k ≡ ok b t
    → (a : A) × (m : Machine) × (r ≡ ok a m) × (k a m ≡ ok b t)
and_then-eq-ok (ok a m) k h = (a, m, refl, h)
and_then-eq-ok (exited n m) k h = cc
and_then-eq-ok Run.undefined k h = cc
and_then-eq-ok Run.out_of_fuel k h = cc

-- A branch whose test is known.
module _ {A : Type 0} (host : Host) (p q : Prog A) (s : Machine) where
  pub run-if_true : (b : Bool) → b ≡ true → run host (if b then p else q) s ≡ run host p s
  run-if_true b e = rw e

  pub run-if_false : (b : Bool) → b ≡ false → run host (if b then p else q) s ≡ run host q s
  run-if_false b e = rw e

-- One read and one assignment as programs.
abbrev pub gets : {A : Type 0} → (Machine → A) → Prog A
gets f = get (λ s. ret (f s))

abbrev pub assign : Write → Prog (Unit {0})
assign w = put w (ret tt)
