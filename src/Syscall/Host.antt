-- ===== src/Syscall/Host.antt =====
-- Host pointers into guest memory, and the error values (src/syscall/backend_win32.c).
-- `guest_to_host` checks the first byte only; what goes past the end of `g_mem` has no meaning in C.
use fake_kernel.Prelude.{
  ℕ, zero, suc, ◌+◌, ◌-◌, ◌^◌, Bool, if◌then◌else◌, leb, ◌>>>◌, u8, has_bit, none, some, List, [],
  ◌∷◌,
}
use fake_kernel.Mem.{Memory, length, guest_to_host, mem_read32}
use fake_kernel.Machine.{write_host, fill_host}
use fake_kernel.Prog.{Prog, ret, undefined, gets, assign, ◌>>=◌, ◌>>◌}

-- A negated error number, or any negative `int32_t`, is its 32-bit pattern.
abbrev pub neg : ℕ → ℕ
neg n = 2 ^ 32 - n

abbrev pub enoent : ℕ
enoent = 2

abbrev pub ebadf : ℕ
ebadf = 9

abbrev pub eacces : ℕ
eacces = 13

abbrev pub enomem : ℕ
enomem = 12

abbrev pub efault : ℕ
efault = 14

abbrev pub einval : ℕ
einval = 22

abbrev pub emfile : ℕ
emfile = 24

abbrev pub enosys : ℕ
enosys = 38

abbrev pub is_negative : ℕ → Bool
is_negative x = has_bit x 31

-- Goes on with the host pointer, or returns what the source returns for `NULL`.
abbrev pub with_pointer : {A : Type 0} → ℕ → A → (ℕ → Prog A) → Prog A
with_pointer addr failure k = do
  host ← gets (λ s. guest_to_host addr s.mem)
  elim host [ none ↦ ret failure | some p ↦ k p ]

-- Whether `n` bytes from a host pointer lie in `g_mem`.
unfoldable pub in_object : ℕ → ℕ → Memory → Bool
in_object p n m = leb (p + n) m.size

-- An access of `n` bytes at a host pointer: `undefined` when it leaves the array.
abbrev pub need : ℕ → ℕ → Prog (Unit {0})
need p n = do inside ← gets (λ s. in_object p n s.mem); if inside then ret tt else undefined

-- `memset` and `memcpy` to a host pointer.
abbrev pub host_fill : ℕ → ℕ → ℕ → Prog (Unit {0})
host_fill p n val = do need p n; assign (fill_host p n val)

abbrev pub host_copy : ℕ → List ℕ → Prog (Unit {0})
host_copy p bs = do need p (length bs); assign (write_host p bs)

-- The `n` bytes from an index of `g_mem`.
unfoldable pub bytes_at : ℕ → ℕ → Memory → List ℕ
bytes_at zero p m = []
bytes_at (suc n) p m = m.byte p ∷ bytes_at n (p + 1) m

abbrev pub host_bytes : ℕ → ℕ → Prog (List ℕ)
host_bytes p n = do need p n; gets (λ s. bytes_at n p s.mem)

-- A `uint32_t` at a host pointer, little-endian.
abbrev pub host_word : ℕ → Prog ℕ
host_word p = do need p 4; gets (λ s. mem_read32 p s.mem)

-- The `n` bytes of a number, lowest first.
unfoldable pub little_endian : ℕ → ℕ → List ℕ
little_endian zero v = []
little_endian (suc n) v = u8 v ∷ little_endian n (v >>> 8)
