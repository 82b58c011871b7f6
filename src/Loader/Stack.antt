-- ===== src/Loader/Stack.antt =====
-- The initial stack of the guest (src/loader/loader.c): strings at the top of memory, and below them
-- the block of argc, argv, envp and the auxiliary vector.
pub mod Laws
pub mod Places
use fake_kernel.Prelude.{
  ℕ, zero, suc, ◌+◌, ◌*◌, if◌then◌else◌, u32, add32, sub32, not32, bit_and, List, [], ◌∷◌, ◌++◌,
}
use fake_kernel.Mem.{length, check_bounds}
use fake_kernel.Machine.{reg_esp, write32, write_host}
use fake_kernel.Prog.{Prog, ret, gets, assign, ◌>>=◌, ◌>>◌}
use fake_kernel.Cpu.{put_reg}

-- `mem_copy_in(guest_dst, src, len)`, where the list is the `len` bytes.
unfoldable pub copy_in : ℕ → List ℕ → Prog (Unit {0})
copy_in dst bytes = do
  inside ← gets (λ s. check_bounds dst (length bytes) s.mem)
  if inside then assign (write_host dst bytes) else ret tt

-- At most 63 arguments.
abbrev pub take : ℕ → List (List ℕ) → List (List ℕ)
take zero xs = []
take (suc n) [] = []
take (suc n) (x ∷ xs) = x ∷ take n xs

abbrev pub count : List (List ℕ) → ℕ
count [] = 0
count (x ∷ xs) = suc (count xs)

-- `strlen(argv[i]) + 1` over the arguments, in `uint32_t`.
unfoldable pub string_bytes : List (List ℕ) → ℕ → ℕ
string_bytes [] n = n
string_bytes (a ∷ args) n = string_bytes args (add32 n (length a + 1))

-- The strings with their terminators from `sptr` on. The result is where they start, and where they
-- end.
pub record Strings : Type 0 where
  pub addrs : List ℕ
  pub next : ℕ

unfoldable pub write_strings : List (List ℕ) → ℕ → Prog Strings
write_strings [] sptr = ret (record { addrs = []; next = sptr })
write_strings (a ∷ args) sptr = do
  copy_in sptr (a ++ 0 ∷ [])
  rest ← write_strings args (add32 sptr (length a + 1))
  ret (record { addrs = sptr ∷ rest.addrs; next = rest.next })

-- `put32` for each word in turn.
unfoldable pub put32 : ℕ → List ℕ → Prog (Unit {0})
put32 w [] = ret tt
put32 w (v ∷ vs) = do assign (write32 w v); put32 (add32 w 4) vs

-- The auxiliary vector as pairs of a type and a value.
unfoldable pub auxv : ℕ → ℕ → ℕ → ℕ → ℕ → List ℕ
auxv at_phdr phentsize phnum entry random_addr =
    (3 ∷ at_phdr ∷ [])
    ++ (4 ∷ phentsize ∷ [])
    ++ (5 ∷ phnum ∷ [])
    ++ (6 ∷ 0x1000 ∷ [])
    ++ (7 ∷ 0 ∷ [])
    ++ (8 ∷ 0 ∷ [])
    ++ (9 ∷ entry ∷ [])
    ++ (11 ∷ 1000 ∷ [])
    ++ (12 ∷ 1000 ∷ [])
    ++ (13 ∷ 1000 ∷ [])
    ++ (14 ∷ 1000 ∷ [])
    ++ (16 ∷ 0x0000_8910 ∷ [])
    ++ (17 ∷ 100 ∷ [])
    ++ (23 ∷ 0 ∷ [])
    ++ (25 ∷ random_addr ∷ [])
    ++ (0 ∷ 0 ∷ [])

-- The words from ESP on: argc, the pointers of argv and their NULL, the NULL of envp, and auxv.
abbrev pub header_block : List ℕ → ℕ → List ℕ → List ℕ
header_block addrs argc vector = argc ∷ addrs ++ 0 ∷ 0 ∷ vector

-- `1 + (guest_argc + 1) + 1 + 2 * N_AUXV_ENTRIES` words.
abbrev pub header_bytes : ℕ → ℕ
header_bytes argc = (1 + (argc + 1) + 1 + 16 * 2) * 4

-- Where the strings go, and where the block goes: each below the last and aligned to 16.
unfoldable pub string_base : ℕ → List (List ℕ) → ℕ
string_base size args = bit_and (sub32 (sub32 (u32 size) 4) (string_bytes args 16)) (not32 0xf)

unfoldable pub stack_base : ℕ → ℕ → ℕ
stack_base str_area_base argc = bit_and (sub32 str_area_base (header_bytes argc)) (not32 0xf)

unfoldable pub build_stack : ℕ → ℕ → ℕ → ℕ → List (List ℕ) → Prog (Unit {0})
build_stack at_phdr phentsize phnum entry argv = do
  size ← gets (λ s. s.mem.size)
  let args = take 63 argv
  let argc = count args
  let str_area_base = string_base size args
  let esp_base = stack_base str_area_base argc
  strings ← write_strings args str_area_base
  assign (write32 strings.next 0xdead_beef)
  assign (write32 (add32 strings.next 4) 0xcafe_babe)
  assign (write32 (add32 strings.next 8) 0x1337_1337)
  assign (write32 (add32 strings.next 12) 0xabcd_ef01)
  put32 esp_base (header_block strings.addrs argc (auxv at_phdr phentsize phnum entry strings.next))
  put_reg reg_esp esp_base
