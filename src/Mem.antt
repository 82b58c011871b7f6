-- ===== src/Mem.antt =====
-- Guest memory (src/mem/mem.c): a flat array of bytes with a bounds check before every access.
-- `g_mem` and `g_size` are one record; an address is the `uint32_t` that the source passes.
pub mod Blocks
pub mod Laws
use fake_kernel.Prelude.{
  ℕ, ◌+◌, Bool, true, if◌then◌else◌, leb, ltb, ◌&&◌, ◌==◌, u8, u32, ◌<<<◌, ◌>>>◌, bit_or, List, [],
  ◌∷◌, suc, Option, none, some,
}

-- `byte` gives the contents of `g_mem`; only the places below `size` exist.
pub record Memory : Type 0 where
  pub size : ℕ
  pub byte : ℕ → ℕ

-- `calloc`: the array starts as zeros.
unfoldable pub init_mem : ℕ → Memory
init_mem size = record { size = size; byte = λ _. 0 }

unfoldable pub free_mem : Memory → Memory
free_mem m = record { size = 0; byte = λ _. 0 }

unfoldable pub mem_size : Memory → ℕ
mem_size m = m.size

-- The sum is a `size_t` of 64 bits, so it does not wrap.
unfoldable pub check_bounds : ℕ → ℕ → Memory → Bool
check_bounds addr width m = leb (addr + width) m.size

-- The host pointer is the index into `g_mem` that it stands for.
unfoldable pub guest_to_host : ℕ → Memory → Option ℕ
unfolding check_bounds
guest_to_host addr m = if check_bounds addr 1 m then some addr else none

-- `g_mem[addr] = val`, with no check.
abbrev pub poke : ℕ → ℕ → Memory → Memory
poke addr val m = record m { byte = λ a. if a == addr then u8 val else m.byte a }

unfoldable pub mem_read8 : ℕ → Memory → ℕ
unfolding check_bounds
mem_read8 addr m = if check_bounds addr 1 m then m.byte addr else 0

unfoldable pub mem_read16 : ℕ → Memory → ℕ
unfolding check_bounds
mem_read16 addr m =
    if check_bounds addr 2 m then bit_or (m.byte addr) (m.byte (u32 (addr + 1)) <<< 8) else 0

unfoldable pub mem_read32 : ℕ → Memory → ℕ
unfolding check_bounds
mem_read32 addr m =
    if check_bounds addr 4 m
    then bit_or
        (bit_or (bit_or (m.byte addr) (m.byte (u32 (addr + 1)) <<< 8))
          (m.byte (u32 (addr + 2)) <<< 16))
        (m.byte (u32 (addr + 3)) <<< 24)
    else 0

unfoldable pub mem_write8 : ℕ → ℕ → Memory → Memory
unfolding check_bounds
mem_write8 addr val m = if check_bounds addr 1 m then poke addr val m else m

unfoldable pub mem_write16 : ℕ → ℕ → Memory → Memory
unfolding check_bounds
mem_write16 addr val m =
    if check_bounds addr 2 m then poke (u32 (addr + 1)) (val >>> 8) (poke addr val m) else m

unfoldable pub mem_write32 : ℕ → ℕ → Memory → Memory
unfolding check_bounds
mem_write32 addr val m =
    if check_bounds addr 4 m
    then poke (u32 (addr + 3)) (val >>> 24)
        (poke (u32 (addr + 2)) (val >>> 16) (poke (u32 (addr + 1)) (val >>> 8) (poke addr val m)))
    else m

-- `memcpy(g_mem + dst, src, len)`, byte by byte.
unfoldable pub copy_bytes : ℕ → List ℕ → Memory → Memory
copy_bytes dst [] m = m
copy_bytes dst (b ∷ bs) m = copy_bytes (dst + 1) bs (poke dst b m)

-- `memset(g_mem + dst, val, len)`.
unfoldable pub fill_bytes : ℕ → ℕ → ℕ → Memory → Memory
fill_bytes dst len val m = record m {
  byte = λ a. if leb dst a && ltb a (dst + len) then u8 val else m.byte a;
}

abbrev pub length : List ℕ → ℕ
length [] = 0
length (x ∷ xs) = suc (length xs)

-- The `len` bytes at `host_src` are the list.
unfoldable pub mem_copy_in : ℕ → List ℕ → Memory → Memory
unfolding check_bounds copy_bytes
mem_copy_in guest_dst host_src m =
    if check_bounds guest_dst (length host_src) m then copy_bytes guest_dst host_src m else m
