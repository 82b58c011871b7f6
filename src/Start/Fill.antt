-- ===== src/Start/Fill.antt =====
-- The two loops of `main` over the block of thread-local storage (src/main.c): dwords filled
-- upwards, and dwords cleared downwards.
use fake_kernel.Prelude.{
  ℕ, zero, suc, ◌+◌, ◌*◌, ◌^◌, ◌≤◌, ◌<◌, ◌≡◌, ◌≢◌, refl, ap, ◌∙◌, ◌⊎◌, inl, inr, arith, add32,
  sub32, List, [], ◌∷◌, Bool-cases, ltb,
}
use fake_kernel.Mem.{Memory, length, mem_read32, mem_write32}
use fake_kernel.Mem.Laws.{write32-outside}
use fake_kernel.Mem.Blocks.{HoldsWords, AreWords, write_words, mem_write32-size}
use fake_kernel.Machine.{Machine, apply, write32}
use fake_kernel.Prog.{Host, ok, run}
use fake_kernel.Start.{stub_addr, fill_up, clear_down}

abbrev pub repeat : ℕ → ℕ → List ℕ
repeat zero v = []
repeat (suc n) v = v ∷ repeat n v

pub length-repeat : (n v : ℕ) → length (repeat n v) ≡ n
length-repeat zero v = refl
length-repeat (suc n) v = ap suc (length-repeat n v)

pub repeat-AreWords : (n v : ℕ) → v < 2 ^ 32 → AreWords (repeat n v)
repeat-AreWords zero v h = tt
repeat-AreWords (suc n) v h = (h, repeat-AreWords n v h)

pub repeat-HoldsWords :
    (n v a i : ℕ) (m : Memory) → HoldsWords a (repeat n v) m → i < n → mem_read32 (a + 4 * i) m ≡ v
repeat-HoldsWords zero v a i m h below = absurd (omega arith)
repeat-HoldsWords (suc n) v a zero m h below =
    let here : a + 4 * 0 ≡ a = omega arith in ap (λ (b : ℕ). mem_read32 b m) here ∙ h.0
repeat-HoldsWords (suc n) v a (suc i) m h below =
    let there : a + 4 * suc i ≡ a + 4 + 4 * i = omega arith in
    ap (λ (b : ℕ). mem_read32 b m) there ∙ repeat-HoldsWords n v (a + 4) i m h.1 (omega arith)

pub fill_up-run :
    (host : Host) (n base i : ℕ) (s : Machine)
    → base + i + 4 * n < 2 ^ 32
    → run host (fill_up n base i) s
      ≡ ok tt (record s { mem = write_words (base + i) (repeat n stub_addr) s.mem })
unfolding run fill_up apply
fill_up-run host zero base i s fits = refl
fill_up-run host (suc n) base i s fits =
    let here : add32 base i ≡ base + i = omega arith in
    let next : base + (i + 4) ≡ add32 (base + i) 4 = omega arith in
    let m = mem_write32 (base + i) stub_addr s.mem in
    ap (λ (a : ℕ). run host (fill_up n base (i + 4)) (apply (write32 a stub_addr) s)) here
    ∙ fill_up-run host n base (i + 4) (record s { mem = m }) (omega arith)
    ∙ ap (λ (a : ℕ). ok tt (record s { mem = write_words a (repeat n stub_addr) m })) next

-- The dwords below an address, cleared downwards.
abbrev pub clear_words : ℕ → ℕ → ℕ → Memory → Memory
clear_words zero base i m = m
clear_words (suc n) base i m = clear_words n base (i + 4) (mem_write32 (sub32 base i) 0 m)

pub clear_down-run :
    (host : Host) (n base i : ℕ) (s : Machine)
    → run host (clear_down n base i) s ≡ ok tt (record s { mem = clear_words n base i s.mem })
unfolding run clear_down apply
clear_down-run host zero base i s = refl
clear_down-run host (suc n) base i s =
    clear_down-run host n base (i + 4) (apply (write32 (sub32 base i) 0) s)

pub clear_words-size : (n base i : ℕ) (m : Memory) → (clear_words n base i m).size ≡ m.size
clear_words-size zero base i m = refl
clear_words-size (suc n) base i m =
    clear_words-size n base (i + 4) (mem_write32 (sub32 base i) 0 m)
    ∙ mem_write32-size (sub32 base i) 0 m

pub clear_words-outside :
    (n base i x : ℕ) (m : Memory)
    → m.size ≤ 2 ^ 32
    → base < 2 ^ 32
    → i + 4 * n ≤ base + 4
    → (x + i + 4 * n < base + 4) ⊎ (base + 4 ≤ x + i)
    → (clear_words n base i m).byte x ≡ m.byte x
clear_words-outside zero base i x m small low fits apart = refl
clear_words-outside (suc n) base i x m small low fits apart =
    let k = mem_write32 (sub32 base i) 0 m in
    let size = mem_write32-size (sub32 base i) 0 m in
    let there : sub32 base i + i ≡ base = omega arith in
    clear_words-outside n base (i + 4) x k (omega (arith, size)) low (omega arith) (ground arith)
    ∙ write32-outside m (sub32 base i) 0 x (ground (arith, there)) small

pub write32-zero :
    (m : Memory) (a x : ℕ)
    → m.size ≤ 2 ^ 32
    → a + 4 ≤ m.size
    → a ≤ x
    → x < a + 4
    → (mem_write32 a 0 m).byte x ≡ 0
unfolding mem_write32
write32-zero m a x small inside above below = ground arith

pub clear_words-zero :
    (n base i x : ℕ) (m : Memory)
    → m.size ≤ 2 ^ 32
    → base < 2 ^ 32
    → base + 4 ≤ m.size + i
    → i + 4 * n ≤ base + 4
    → base + 4 ≤ x + i + 4 * n
    → x + i < base + 4
    → (clear_words n base i m).byte x ≡ 0
clear_words-zero zero base i x m small low inside fits above below = absurd (omega arith)
clear_words-zero (suc n) base i x m small low inside fits above below =
    let a = sub32 base i in
    let k = mem_write32 a 0 m in
    let size = mem_write32-size a 0 m in
    let there : a + i ≡ base = omega arith in
    elim (Bool-cases (ltb (x + i) base)) [
      | inl e ↦
          clear_words-zero n base (i + 4) x k (omega (arith, size)) low (omega (arith, size))
            (omega arith) (omega arith) (ground arith)
      | inr e ↦
          let last : base ≤ x + i = ground arith in
          clear_words-outside n base (i + 4) x k (omega (arith, size)) low (omega arith)
            (inr (omega arith))
          ∙ write32-zero m a x small (omega arith) (omega arith) (omega arith)
    ]

pub header_outside :
    (m : Memory) (chunk x v : ℕ)
    → m.size ≤ 2 ^ 32
    → chunk + 8 < 2 ^ 32
    → (x < chunk) ⊎ (chunk + 8 ≤ x)
    → (mem_write32 (add32 chunk 4) v (mem_write32 chunk 0 m)).byte x ≡ m.byte x
header_outside m chunk x v small low apart =
    let k = mem_write32 chunk 0 m in
    write32-outside k (add32 chunk 4) v x (ground arith) (omega (arith, mem_write32-size chunk 0 m))
    ∙ write32-outside m chunk 0 x (ground arith) small

pub dword_place :
    (tls i x : ℕ)
    → 3 ≤ i
    → i ≢ 5
    → tls + 4 * i ≤ x
    → x < tls + 4 * i + 4
    → ((tls + 12 ≤ x) × (x < tls + 20)) ⊎ (tls + 24 ≤ x)
dword_place tls i x third not_fifth p q = elim (Bool-cases (ltb i 5)) [
  | inl e ↦ let low : i < 5 = ground arith in inl (omega arith, omega arith)
  | inr e ↦
      let at_least : 5 ≤ i = ground arith in
      let high : 5 < i = omega (arith, not_fifth) in inr (omega arith)
]
