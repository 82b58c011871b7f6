-- ===== src/Mem/Blocks.antt =====
-- Bytes and dwords that stand one after the other in guest memory.
use fake_kernel.Prelude.{
  ℕ, suc, ◌+◌, ◌*◌, ◌^◌, ◌≤◌, ◌<◌, ◌≡◌, refl, sym, ap, ◌∙◌, ◌⊎◌, inl, arith, u8, u32, add32, List,
  [], ◌∷◌, ◌++◌,
}
use mathlib.Core.Path.{subst}
use fake_kernel.Mem.{Memory, length, poke, copy_bytes, mem_read32, mem_write32}
use fake_kernel.Mem.Laws.{read32-write32, write32-outside}

abbrev pub HoldsBytes : ℕ → List ℕ → Memory → Type 0
HoldsBytes a [] m = Unit
HoldsBytes a (b ∷ bs) m = (m.byte a ≡ u8 b) × HoldsBytes (a + 1) bs m

abbrev pub HoldsWords : ℕ → List ℕ → Memory → Type 0
HoldsWords a [] m = Unit
HoldsWords a (w ∷ ws) m = (mem_read32 a m ≡ w) × HoldsWords (a + 4) ws m

abbrev pub AreWords : List ℕ → Type 0
AreWords [] = Unit
AreWords (w ∷ ws) = (w < 2 ^ 32) × AreWords ws

-- Two memories agree from an address on, for a number of bytes.
abbrev pub Agree : ℕ → ℕ → Memory → Memory → Type 0
Agree a n m k = (x : ℕ) → a ≤ x → x < a + n → k.byte x ≡ m.byte x

pub Agree-HoldsBytes :
    (a : ℕ) (bs : List ℕ) (m k : Memory)
    → Agree a (length bs) m k
    → HoldsBytes a bs m
    → HoldsBytes a bs k
Agree-HoldsBytes a [] m k same h = tt
Agree-HoldsBytes a (b ∷ bs) m k same h = (
  same a (omega arith) (omega arith) ∙ h.0,
  Agree-HoldsBytes (a + 1) bs m k (λ x p q. same x (omega arith) (omega arith)) h.1,
)

-- A dword is the same in memories that agree on its bytes.
pub Agree-mem_read32 :
    (a : ℕ) (m k : Memory)
    → k.size ≡ m.size
    → a + 4 ≤ 2 ^ 32
    → Agree a 4 m k
    → mem_read32 a k ≡ mem_read32 a m
unfolding mem_read32
Agree-mem_read32 a m k size fits same =
    rw
      (
        size,
        same a (omega arith) (omega arith),
        same (u32 (a + 1)) (omega arith) (omega arith),
        same (u32 (a + 2)) (omega arith) (omega arith),
        same (u32 (a + 3)) (omega arith) (omega arith),
      )
      refl

pub Agree-HoldsWords :
    (a : ℕ) (ws : List ℕ) (m k : Memory)
    → k.size ≡ m.size
    → a + 4 * length ws ≤ 2 ^ 32
    → Agree a (4 * length ws) m k
    → HoldsWords a ws m
    → HoldsWords a ws k
Agree-HoldsWords a [] m k size fits same h = tt
Agree-HoldsWords a (w ∷ ws) m k size fits same h = (
  Agree-mem_read32 a m k size (omega arith) (λ x p q. same x p (omega arith)) ∙ h.0,
  Agree-HoldsWords (a + 4) ws m k size (omega arith) (λ x p q. same x (omega arith) (omega arith))
      h.1,
)

-- Copied bytes.
pub copy_bytes-outside :
    (d a : ℕ) (bs : List ℕ) (m : Memory)
    → (a < d) ⊎ (d + length bs ≤ a)
    → (copy_bytes d bs m).byte a ≡ m.byte a
unfolding copy_bytes
copy_bytes-outside d a [] m apart = refl
copy_bytes-outside d a (b ∷ bs) m apart =
    copy_bytes-outside (d + 1) a bs (poke d b m) (ground arith) ∙ ground arith

pub copy_bytes-size : (d : ℕ) (bs : List ℕ) (m : Memory) → (copy_bytes d bs m).size ≡ m.size
unfolding copy_bytes
copy_bytes-size d [] m = refl
copy_bytes-size d (b ∷ bs) m = copy_bytes-size (d + 1) bs (poke d b m)

pub copy_bytes-HoldsBytes : (d : ℕ) (bs : List ℕ) (m : Memory) → HoldsBytes d bs (copy_bytes d bs m)
unfolding copy_bytes
copy_bytes-HoldsBytes d [] m = tt
copy_bytes-HoldsBytes d (b ∷ bs) m = (
  copy_bytes-outside (d + 1) d bs (poke d b m) (inl (omega arith)) ∙ ground arith,
  copy_bytes-HoldsBytes (d + 1) bs (poke d b m),
)

pub HoldsBytes-append :
    (a : ℕ) (xs ys : List ℕ) (m : Memory)
    → HoldsBytes a (xs ++ ys) m
    → HoldsBytes a xs m × HoldsBytes (a + length xs) ys m
HoldsBytes-append a [] ys m h =
    let same : a ≡ a + 0 = omega arith in (tt, subst (λ e. HoldsBytes e ys m) same h)
HoldsBytes-append a (x ∷ xs) ys m h =
    let rest = HoldsBytes-append (a + 1) xs ys m h.1 in
    let same : a + 1 + length xs ≡ a + suc (length xs) = omega arith in
    ((h.0, rest.0), subst (λ e. HoldsBytes e ys m) same rest.1)

pub length-append : (xs ys : List ℕ) → length (xs ++ ys) ≡ length xs + length ys
length-append [] ys = omega arith
length-append (x ∷ xs) ys = omega (arith, length-append xs ys)

pub copy_bytes-append :
    (d : ℕ) (xs ys : List ℕ) (m : Memory)
    → copy_bytes d (xs ++ ys) m ≡ copy_bytes (d + length xs) ys (copy_bytes d xs m)
unfolding copy_bytes
copy_bytes-append d [] ys m =
    let same : d ≡ d + 0 = omega arith in ap (λ (e : ℕ). copy_bytes e ys m) same
copy_bytes-append d (x ∷ xs) ys m =
    let k = copy_bytes (d + 1) xs (poke d x m) in
    let same : d + 1 + length xs ≡ d + suc (length xs) = omega arith in
    copy_bytes-append (d + 1) xs ys (poke d x m) ∙ ap (λ (e : ℕ). copy_bytes e ys k) same

-- Dwords written one after the other.
abbrev pub write_words : ℕ → List ℕ → Memory → Memory
write_words a [] m = m
write_words a (w ∷ ws) m = write_words (add32 a 4) ws (mem_write32 a w m)

pub mem_write32-size : (a w : ℕ) (m : Memory) → (mem_write32 a w m).size ≡ m.size
unfolding mem_write32
mem_write32-size a w m = ground arith

pub write_words-size : (a : ℕ) (ws : List ℕ) (m : Memory) → (write_words a ws m).size ≡ m.size
write_words-size a [] m = refl
write_words-size a (w ∷ ws) m =
    write_words-size (add32 a 4) ws (mem_write32 a w m) ∙ mem_write32-size a w m

pub write_words-outside :
    (a x : ℕ) (ws : List ℕ) (m : Memory)
    → m.size ≤ 2 ^ 32
    → a + 4 * length ws < 2 ^ 32
    → (x < a) ⊎ (a + 4 * length ws ≤ x)
    → (write_words a ws m).byte x ≡ m.byte x
write_words-outside a x [] m small fits apart = refl
write_words-outside a x (w ∷ ws) m small fits apart =
    let next : add32 a 4 ≡ a + 4 = omega arith in
    let n = mem_write32 a w m in
    let size = mem_write32-size a w m in
    let rest : (write_words (add32 a 4) ws n).byte x ≡ n.byte x =
      rw next
        (write_words-outside (a + 4) x ws n (omega (arith, size)) (omega arith) (ground arith)) in
    rest ∙ write32-outside m a w x (ground arith) small

pub write_words-HoldsWords :
    (a : ℕ) (ws : List ℕ) (m : Memory)
    → m.size ≤ 2 ^ 32
    → a + 4 * length ws < 2 ^ 32
    → a + 4 * length ws ≤ m.size
    → AreWords ws
    → HoldsWords a ws (write_words a ws m)
write_words-HoldsWords a [] m small fits inside words = tt
write_words-HoldsWords a (w ∷ ws) m small fits inside words =
    let next : add32 a 4 ≡ a + 4 = omega arith in
    let n = mem_write32 a w m in
    let size = mem_write32-size a w m in
    let rest = write_words (a + 4) ws n in
    let unchanged : Agree a 4 n rest = λ x p q.
      write_words-outside (a + 4) x ws n (omega (arith, size)) (omega arith) (inl (omega arith)) in
    let stays : (mem_read32 a rest ≡ w) × HoldsWords (a + 4) ws rest = (
      Agree-mem_read32 a n rest (write_words-size (a + 4) ws n) (omega arith) unchanged
          ∙ read32-write32 m a w small (omega arith) words.0,
      write_words-HoldsWords (a + 4) ws n (omega (arith, size)) (omega arith) (omega (arith, size))
          words.1,
    ) in
    let same : write_words (add32 a 4) ws n ≡ rest = rw next refl in
    subst (λ k. (mem_read32 a k ≡ w) × HoldsWords (a + 4) ws k) (sym same) stays

-- A dword is not changed by a write beside it.
pub read32-write32_apart :
    (m : Memory) (a b v : ℕ)
    → (a + 4 ≤ b) ⊎ (b + 4 ≤ a)
    → m.size ≤ 2 ^ 32
    → a + 4 ≤ 2 ^ 32
    → mem_read32 a (mem_write32 b v m) ≡ mem_read32 a m
read32-write32_apart m a b v apart small fits =
    Agree-mem_read32 a m (mem_write32 b v m) (mem_write32-size b v m) fits
      (λ x p q. write32-outside m b v x (ground arith) small)
