-- ===== src/Mem/Laws.antt =====
-- What the accessors of mem.c promise: round trips, frames and bounds.
use fake_kernel.Prelude.{
  ℕ, ◌+◌, ◌*◌, ◌^◌, ◌≤◌, ◌<◌, ◌≡◌, refl, ◌⊎◌, arith, u8, u32, true, false, leb, bit_or, ◌<<<◌,
  ◌>>>◌,
}
use fake_kernel.Prelude.Bits.{bit_or_fields'}
use fake_kernel.Mem.{
  Memory, mem_read8, mem_read16, mem_read32, mem_write8, mem_write16, mem_write32, check_bounds,
}

-- Four bytes joined by `|` and `<<`, lowest first, are a sum.
pub join_bytes :
    (a b c d : ℕ)
    → a < 2 ^ 8
    → b < 2 ^ 8
    → c < 2 ^ 8
    → bit_or (bit_or (bit_or a (b <<< 8)) (c <<< 16)) (d <<< 24)
      ≡ a + b * 2 ^ 8 + c * 2 ^ 16 + d * 2 ^ 24
join_bytes a b c d ha hb hc =
    rw
      (
        bit_or_fields' 8 b a ha,
        bit_or_fields' 16 c (b * 2 ^ 8 + a) (omega arith),
        bit_or_fields' 24 d (c * 2 ^ 16 + (b * 2 ^ 8 + a)) (omega arith),
      )
      (omega arith)

-- The value of a dword that lies in bounds, as a sum.
pub read32-sum :
    (m : Memory) (addr : ℕ)
    → m.size ≤ 2 ^ 32
    → addr + 4 ≤ m.size
    → m.byte addr < 2 ^ 8
    → m.byte (addr + 1) < 2 ^ 8
    → m.byte (addr + 2) < 2 ^ 8
    → mem_read32 addr m
      ≡ m.byte addr
        + m.byte (addr + 1) * 2 ^ 8
        + m.byte (addr + 2) * 2 ^ 16
        + m.byte (addr + 3) * 2 ^ 24
unfolding mem_read32
read32-sum m addr fits inside h0 h1 h2 =
    let ok : leb (addr + 4) m.size ≡ true = ground arith in
    let one : u32 (addr + 1) ≡ addr + 1 = omega arith in
    let two : u32 (addr + 2) ≡ addr + 2 = omega arith in
    let three : u32 (addr + 3) ≡ addr + 3 = omega arith in
    rw (ok, one, two, three)
      (join_bytes (m.byte addr) (m.byte (addr + 1)) (m.byte (addr + 2)) (m.byte (addr + 3)) h0 h1
        h2)

-- The bytes after a write of a dword in bounds, and the bounds themselves.
module _ (m : Memory) (addr val : ℕ) (fits : m.size ≤ 2 ^ 32) (inside : addr + 4 ≤ m.size) where
  pub write32-size : (mem_write32 addr val m).size ≡ m.size
  unfolding mem_write32
  write32-size = ground arith

  pub write32-bytes :
      ((mem_write32 addr val m).byte addr ≡ u8 val)
      × ((mem_write32 addr val m).byte (addr + 1) ≡ u8 (val >>> 8))
      × ((mem_write32 addr val m).byte (addr + 2) ≡ u8 (val >>> 16))
      × ((mem_write32 addr val m).byte (addr + 3) ≡ u8 (val >>> 24))
  unfolding mem_write32
  write32-bytes = ground arith

-- A dword that was written in bounds is read back.
pub read32-write32 :
    (m : Memory) (addr val : ℕ)
    → m.size ≤ 2 ^ 32
    → addr + 4 ≤ m.size
    → val < 2 ^ 32
    → mem_read32 addr (mem_write32 addr val m) ≡ val
read32-write32 m addr val fits inside small =
    let w = mem_write32 addr val m in
    let same = write32-size m addr val fits inside in
    let bytes = write32-bytes m addr val fits inside in
    omega (
      arith,
      read32-sum w addr (omega arith) (omega arith) (omega arith) (omega arith) (omega arith),
      bytes,
    )

-- A write of any width changes no byte outside the cells that it names, and never the size.
pub write32-outside :
    (m : Memory) (addr val a : ℕ)
    → (a < addr) ⊎ (addr + 4 ≤ a)
    → m.size ≤ 2 ^ 32
    → (mem_write32 addr val m).byte a ≡ m.byte a
unfolding mem_write32
write32-outside m addr val a apart fits = ground arith

pub mem_read8-lt : (addr : ℕ) (m : Memory) → ((a : ℕ) → m.byte a < 2 ^ 8) → mem_read8 addr m < 2 ^ 8
unfolding mem_read8
mem_read8-lt addr m small = ground (arith, small addr)

-- A dword is a 32-bit word.
pub mem_read32-lt :
    (addr : ℕ) (m : Memory) → ((a : ℕ) → m.byte a < 2 ^ 8) → mem_read32 addr m < 2 ^ 32
unfolding mem_read32
mem_read32-lt addr m small =
    let one = u32 (addr + 1) in
    let two = u32 (addr + 2) in
    let three = u32 (addr + 3) in
    let sum =
      join_bytes (m.byte addr) (m.byte one) (m.byte two) (m.byte three) (small addr) (small one)
        (small two) in
    rw sum (ground (arith, small addr, small one, small two, small three))

-- Out of bounds, an access of any width reads 0 and writes nothing.
pub out_of_bounds :
    (m : Memory) (addr val : ℕ)
    → m.size ≤ addr
    → (mem_read8 addr m ≡ 0)
      × (mem_read16 addr m ≡ 0)
      × (mem_read32 addr m ≡ 0)
      × (mem_write8 addr val m ≡ m)
      × (mem_write16 addr val m ≡ m)
      × (mem_write32 addr val m ≡ m)
unfolding mem_read8 mem_read16 mem_read32 mem_write8 mem_write16 mem_write32 check_bounds
out_of_bounds m addr val h =
    let one : leb (addr + 1) m.size ≡ false = ground arith in
    let two : leb (addr + 2) m.size ≡ false = ground arith in
    let four : leb (addr + 4) m.size ≡ false = ground arith in
    rw (one, two, four) (refl, refl, refl, refl, refl, refl)
