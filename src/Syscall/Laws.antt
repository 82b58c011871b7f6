-- ===== src/Syscall/Laws.antt =====
-- What the dispatcher answers.
use fake_kernel.Prelude.{ℕ, ◌≡◌, arith, Bool, false, ◌==◌, ◌||◌, List, [], ◌∷◌}
use fake_kernel.Machine.{Machine, reg_eax, set_reg, apply}
use fake_kernel.Prog.{Host, ok, run}
use fake_kernel.Syscall.Host.{neg, enosys}
use fake_kernel.Syscall.Interface.{Backend}
use fake_kernel.Syscall.{dispatch_syscall, dispatch_low, dispatch_middle, dispatch_high}

-- The numbers of the calls in the switch.
abbrev pub known : List ℕ
known =
    1 ∷ 3 ∷ 4 ∷ 5 ∷ 6 ∷ 19 ∷ 20 ∷ 37 ∷ 45 ∷ 91 ∷ 122 ∷ 125 ∷ 140 ∷ 146 ∷ 172 ∷ 173 ∷ 174 ∷ 175 ∷ 180
    ∷ 191 ∷ 192 ∷ 195 ∷ 196 ∷ 197 ∷ 199 ∷ 200 ∷ 201 ∷ 202 ∷ 219 ∷ 224 ∷ 240 ∷ 243 ∷ 252 ∷ 258 ∷ 265
    ∷ 270 ∷ 295 ∷ 300 ∷ 305 ∷ 311 ∷ 355 ∷ 383 ∷ 386 ∷ 403 ∷ []

abbrev pub is_in : ℕ → List ℕ → Bool
is_in n [] = false
is_in n (m ∷ ms) = n == m || is_in n ms

-- A number that is none of the calls of the switch is answered with `-ENOSYS` in EAX, and nothing
-- else changes.
pub dispatch_syscall-unknown :
    (bk : Backend) (host : Host) (s : Machine)
    → is_in (s.cpu.regs reg_eax) known ≡ false
    → run host (dispatch_syscall bk) s ≡ ok tt (apply (set_reg reg_eax (neg enosys)) s)
unfolding run dispatch_syscall dispatch_low dispatch_middle dispatch_high
dispatch_syscall-unknown bk host s unknown = ground arith

-- The numbers of the calls that ask the host.
abbrev pub asking : List ℕ
asking = 3 ∷ 4 ∷ 5 ∷ 6 ∷ 19 ∷ 140 ∷ 146 ∷ 197 ∷ 295 ∷ []

-- A call whose number is not one of `read`, `write`, `open`, `close`, `lseek`, `_llseek`, `writev`,
-- `fstat64` and `openat` does the same in every build, whatever the state.
pub dispatch_syscall-builds :
    (one two : Backend) (host : Host) (s : Machine)
    → is_in (s.cpu.regs reg_eax) asking ≡ false
    → run host (dispatch_syscall one) s ≡ run host (dispatch_syscall two) s
unfolding run dispatch_syscall dispatch_low dispatch_middle dispatch_high
dispatch_syscall-builds one two host s others = ground arith
