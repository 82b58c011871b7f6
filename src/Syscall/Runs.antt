-- ===== src/Syscall/Runs.antt =====
-- Runs of the steps by which the calls reach guest memory and descriptors
-- (src/syscall/backend_win32.c), where these are in order.
use fake_kernel.Prelude.{
  ℕ, ◌+◌, ◌^◌, ◌<◌, ◌≤◌, ◌≡◌, refl, arith, Bool, true, false, if◌then◌else◌, none, some, List,
  Option,
}
use mathlib.Core.Path.{ap}
use fake_kernel.Mem.{Memory, guest_to_host, check_bounds, mem_read32}
use fake_kernel.Machine.{Machine}
use fake_kernel.Prog.{Prog, ret, Host, ok, run, gets, run-if_true, ◌>>=◌, ◌>>◌}
use fake_kernel.Syscall.Host.{
  neg, ebadf, with_pointer, need, in_object, bytes_at, host_bytes, host_word,
}
use fake_kernel.Syscall.Files.{valid_fd, with_fd}

pointed :
    (addr : ℕ) (m : Memory) → addr < m.size → m.size < 2 ^ 32 → guest_to_host addr m ≡ some addr
unfolding guest_to_host check_bounds
pointed addr m inside small = ground arith

inside_object : (p n : ℕ) (m : Memory) → p + n ≤ m.size → in_object p n m ≡ true
unfolding in_object
inside_object p n m inside = ground arith

module _ (host : Host) (s : Machine) where
  pub run-with_pointer :
      (addr failure : ℕ) (k : ℕ → Prog ℕ)
      → addr < s.mem.size
      → s.mem.size < 2 ^ 32
      → run host (with_pointer addr failure k) s ≡ run host (k addr) s
  unfolding run
  run-with_pointer addr failure k inside small =
      ap
        (λ (o : Option ℕ).
          run host (elim o as (λ _. Prog ℕ) [ none ↦ ret failure | some p ↦ k p ]) s)
        (pointed addr s.mem inside small)

  pub run-need :
      {A : Type 0} (p n : ℕ) (k : Prog A)
      → p + n ≤ s.mem.size
      → run host (need p n >> k) s ≡ run host k s
  unfolding run
  run-need p n k inside =
      ap (λ (b : Bool). run host ((if b then ret tt else Prog.undefined) >> k) s)
        (inside_object p n s.mem inside)

  -- The bytes and the words at a pointer.
  pub run-host_bytes :
      (p n : ℕ) (f : List ℕ → Prog ℕ)
      → p + n ≤ s.mem.size
      → run host (host_bytes p n >>= f) s ≡ run host (f (bytes_at n p s.mem)) s
  unfolding run
  run-host_bytes p n f inside =
      ap
        (λ (b : Bool).
          run host
            (((if b then ret tt else Prog.undefined) >> gets (λ t. bytes_at n p t.mem)) >>= f) s)
        (inside_object p n s.mem inside)

  pub run-host_word :
      (p : ℕ) (f : ℕ → Prog ℕ)
      → p + 4 ≤ s.mem.size
      → run host (host_word p >>= f) s ≡ run host (f (mem_read32 p s.mem)) s
  unfolding run
  run-host_word p f inside =
      ap
        (λ (b : Bool).
          run host
            (((if b then ret tt else Prog.undefined) >> gets (λ t. mem_read32 p t.mem)) >>= f) s)
        (inside_object p 4 s.mem inside)

  pub run-with_fd :
      (fd : ℕ) (k : ℕ → Prog ℕ)
      → valid_fd fd s.fd_table ≡ true
      → run host (with_fd fd k) s ≡ run host (k (s.fd_table fd).host_fd) s
  unfolding run
  run-with_fd fd k usable =
      run-if_true host (k (s.fd_table fd).host_fd) (ret (neg ebadf)) s (valid_fd fd s.fd_table)
        usable

  pub run-either :
      (b : Bool) (x y : ℕ) → run host (if b then ret x else ret y) s ≡ ok (if b then x else y) s
  unfolding run
  run-either true x y = refl
  run-either false x y = refl
