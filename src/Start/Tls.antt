-- ===== src/Start/Tls.antt =====
-- The block of thread-local storage that `main` sets up, and the memory around it (src/main.c).
use fake_kernel.Prelude.{
  ℕ, ◌+◌, ◌*◌, ◌^◌, ◌≤◌, ◌<◌, ◌≡◌, ◌≢◌, refl, ap, ◌∙◌, ◌⊎◌, inl, inr, arith, add32, bit_or, u32,
}
use fake_kernel.Mem.{Memory, mem_read32, mem_write32}
use fake_kernel.Mem.Laws.{read32-write32, write32-outside}
use fake_kernel.Mem.Blocks.{
  read32-write32_apart, Agree-mem_read32, write_words, write_words-size, write_words-outside,
  write_words-HoldsWords, mem_write32-size,
}
use fake_kernel.Machine.{Machine, apply, write32, set_brk, set_gs_base}
use fake_kernel.Prog.{Host, Prog, Run, assign, ok, run, run->>=, and_then, ◌>>◌}
use fake_kernel.Prog.Valid.{Returns}
use fake_kernel.Start.{stub_addr, fill_up, clear_down, chunk_size, set_up_tls}
use fake_kernel.Start.Fill.{
  repeat, repeat-AreWords, repeat-HoldsWords, fill_up-run, clear_words, clear_down-run,
  clear_words-size, clear_words-outside, clear_words-zero, header_outside, dword_place,
}

-- Memory after `set_up_tls`, in the order of the writes.
module _ (chunk : ℕ) (s : Machine) (small : s.mem.size < 2 ^ 32) (low : 0x400 ≤ chunk)
    (inside : chunk + 0x408 ≤ s.mem.size) where
  abbrev tls : ℕ
  tls = chunk + 8

  abbrev header_memory : Memory
  header_memory = mem_write32 (add32 chunk 4) (bit_or chunk_size 1) (mem_write32 chunk 0 s.mem)

  abbrev cleared_memory : Memory
  cleared_memory = clear_words 256 tls 4 (write_words tls (repeat 256 stub_addr) header_memory)

  abbrev tls_memory : Memory
  tls_memory = mem_write32 (tls + 0x14) 0xdead_beef (
      mem_write32 (tls + 8) tls
        (mem_write32 (tls + 4) tls (mem_write32 tls stub_addr cleared_memory)))

  set_up_tls-run :
      (host : Host)
      → run host (set_up_tls chunk) s
        ≡ ok tt (
            apply
              (set_gs_base tls)
              (apply (set_brk (chunk + chunk_size)) (record s { mem = tls_memory })))
  unfolding run set_up_tls apply
  set_up_tls-run host =
      let block : ℕ → ℕ → ℕ → ℕ → Prog (Unit {0}) = λ b x y z. (do
        assign (write32 b stub_addr)
        assign (write32 x b)
        assign (write32 y b)
        assign (write32 z 0xdead_beef)
        assign (set_gs_base b)) in
      let last : ℕ → Prog (Unit {0}) = λ b. block b (add32 b 0x04) (add32 b 0x08) (add32 b 0x14) in
      let clear : ℕ → Prog (Unit {0}) = λ b. clear_down 256 b 4 >> last b in
      let with_mem : Memory → Machine =
        λ m. apply (set_brk (chunk + chunk_size)) (record s { mem = m }) in
      let filled = write_words tls (repeat 256 stub_addr) header_memory in
      let base : add32 chunk 8 ≡ tls = omega arith in
      let start : tls + 0 ≡ tls = omega arith in
      let four : add32 tls 0x04 ≡ tls + 4 = omega arith in
      let eight : add32 tls 0x08 ≡ tls + 8 = omega arith in
      let twenty : add32 tls 0x14 ≡ tls + 0x14 = omega arith in
      ap (λ (b : ℕ). run host (fill_up 256 b 0 >> clear b) (with_mem header_memory)) base
      ∙ run->>= host (fill_up 256 tls 0) (λ _. clear tls) (with_mem header_memory)
      ∙ ap (λ (r : Run (Unit {0})). and_then r (λ _. run host (clear tls)))
          (fill_up-run host 256 tls 0 (with_mem header_memory) (omega arith))
      ∙ ap
          (λ (a : ℕ).
            run host (clear tls) (with_mem (write_words a (repeat 256 stub_addr) header_memory)))
          start
      ∙ run->>= host (clear_down 256 tls 4) (λ _. last tls) (with_mem filled)
      ∙ ap (λ (r : Run (Unit {0})). and_then r (λ _. run host (last tls)))
          (clear_down-run host 256 tls 4 (with_mem filled))
      ∙ ap
          (λ (x : ℕ).
            run host (block tls x (add32 tls 0x08) (add32 tls 0x14)) (with_mem cleared_memory))
          four
      ∙ ap (λ (y : ℕ). run host (block tls (tls + 4) y (add32 tls 0x14)) (with_mem cleared_memory))
          eight
      ∙ ap (λ (z : ℕ). run host (block tls (tls + 4) (tls + 8) z) (with_mem cleared_memory)) twenty

  abbrev filled_memory : Memory
  filled_memory = write_words tls (repeat 256 stub_addr) header_memory

  tls-sizes :
      (header_memory.size ≡ s.mem.size)
      × (filled_memory.size ≡ s.mem.size)
      × (cleared_memory.size ≡ s.mem.size)
      × (tls_memory.size ≡ s.mem.size)
  tls-sizes =
      let header = mem_write32-size chunk 0 s.mem in
      let header' =
        mem_write32-size (add32 chunk 4) (bit_or chunk_size 1) (mem_write32 chunk 0 s.mem) in
      let filled = write_words-size tls (repeat 256 stub_addr) header_memory in
      let cleared = clear_words-size 256 tls 4 filled_memory in
      let m3 = mem_write32 tls stub_addr cleared_memory in
      let m4 = mem_write32 (tls + 4) tls m3 in
      let m5 = mem_write32 (tls + 8) tls m4 in
      let one = mem_write32-size tls stub_addr cleared_memory in
      let two = mem_write32-size (tls + 4) tls m3 in
      let three = mem_write32-size (tls + 8) tls m4 in
      let four = mem_write32-size (tls + 0x14) 0xdead_beef m5 in
      let a = header' ∙ header in
      let b = filled ∙ a in let c = cleared ∙ b in (a, b, c, four ∙ three ∙ two ∙ one ∙ c)

  last_writes-outside :
      (x : ℕ)
      → (x < tls) ⊎ (tls + 4 ≤ x)
      → (x < tls + 4) ⊎ (tls + 4 + 4 ≤ x)
      → (x < tls + 8) ⊎ (tls + 8 + 4 ≤ x)
      → (x < tls + 0x14) ⊎ (tls + 0x14 + 4 ≤ x)
      → tls_memory.byte x ≡ cleared_memory.byte x
  last_writes-outside x first second third fourth =
      let m3 = mem_write32 tls stub_addr cleared_memory in
      let m4 = mem_write32 (tls + 4) tls m3 in
      let m5 = mem_write32 (tls + 8) tls m4 in
      let sizes = tls-sizes in
      let one = mem_write32-size tls stub_addr cleared_memory in
      let two = mem_write32-size (tls + 4) tls m3 in
      let three = mem_write32-size (tls + 8) tls m4 in
      write32-outside m5 (tls + 0x14) 0xdead_beef x fourth (omega (arith, sizes, one, two, three))
      ∙ write32-outside m4 (tls + 8) tls x third (omega (arith, sizes, one, two))
      ∙ write32-outside m3 (tls + 4) tls x second (omega (arith, sizes, one))
      ∙ write32-outside cleared_memory tls stub_addr x first (omega (arith, sizes))

  -- The last four writes change nothing outside the first 24 bytes, nor the fourth and fifth dword.
  tls_memory-apart :
      (x : ℕ)
      → (x < tls) ⊎ (((tls + 12 ≤ x) × (x < tls + 20)) ⊎ (tls + 24 ≤ x))
      → tls_memory.byte x ≡ cleared_memory.byte x
  tls_memory-apart x (inl p) =
      last_writes-outside x (inl p) (inl (omega arith)) (inl (omega arith)) (inl (omega arith))
  tls_memory-apart x (inr (inl p)) =
      last_writes-outside x (inr (omega arith)) (inr (omega arith)) (inr (omega arith))
        (inl (omega arith))
  tls_memory-apart x (inr (inr p)) =
      last_writes-outside x (inr (omega arith)) (inr (omega arith)) (inr (omega arith))
        (inr (omega arith))

  tls_memory-outside :
      (x : ℕ) → (x + 0x400 < tls) ⊎ (tls + 0x400 ≤ x) → tls_memory.byte x ≡ s.mem.byte x
  tls_memory-outside x apart =
      let sizes = tls-sizes in
      let k = mem_write32 chunk 0 s.mem in
      let size = mem_write32-size chunk 0 s.mem in
      let header : (x < chunk) ⊎ (chunk + 8 ≤ x) → header_memory.byte x ≡ s.mem.byte x =
        header_outside s.mem chunk x (bit_or chunk_size 1) (omega arith) (omega arith) in
      let filled =
        write_words-outside tls x (repeat 256 stub_addr) header_memory (omega (arith, sizes))
          (omega arith) in
      let cleared =
        clear_words-outside 256 tls 4 x filled_memory (omega (arith, sizes)) (omega arith)
          (omega arith) in
      elim apart [
        | inl p ↦
            tls_memory-apart x (inl (omega arith))
            ∙ cleared (inl (omega arith))
            ∙ filled (inl (omega arith))
            ∙ header (inl (omega arith))
        | inr p ↦
            tls_memory-apart x (inr (inr (omega arith)))
            ∙ cleared (inr (omega arith))
            ∙ filled (inr (omega arith))
            ∙ header (inr (omega arith))
      ]

  -- A dword that the last four writes leave is the stub's address.
  rest_of_block :
      (i : ℕ) → 3 ≤ i → i < 256 → i ≢ 5 → mem_read32 (tls + 4 * i) tls_memory ≡ stub_addr
  rest_of_block i third last not_fifth =
      let sizes = tls-sizes in
      let holds =
        write_words-HoldsWords tls (repeat 256 stub_addr) header_memory (omega (arith, sizes))
          (omega arith) (omega (arith, sizes)) (repeat-AreWords 256 stub_addr (omega arith)) in
      Agree-mem_read32 (tls + 4 * i) filled_memory tls_memory (omega (arith, sizes)) (omega arith)
        (λ x p q.
          tls_memory-apart x (inr (dword_place tls i x third not_fifth p q))
          ∙ clear_words-outside 256 tls 4 x filled_memory (omega (arith, sizes)) (omega arith)
              (omega arith) (inr (omega arith)))
      ∙ repeat-HoldsWords 256 stub_addr tls i filled_memory holds last

  -- The dwords that the last four writes set.
  start_of_block :
      (mem_read32 tls tls_memory ≡ stub_addr)
      × (mem_read32 (tls + 4) tls_memory ≡ tls)
      × (mem_read32 (tls + 8) tls_memory ≡ tls)
      × (mem_read32 (tls + 0x14) tls_memory ≡ 0xdead_beef)
  start_of_block =
      let m3 = mem_write32 tls stub_addr cleared_memory in
      let m4 = mem_write32 (tls + 4) tls m3 in
      let m5 = mem_write32 (tls + 8) tls m4 in
      let sizes = tls-sizes in
      let one = mem_write32-size tls stub_addr cleared_memory in
      let two = mem_write32-size (tls + 4) tls m3 in
      let three = mem_write32-size (tls + 8) tls m4 in
      let by_fourth = λ (a : ℕ) (below : a + 4 ≤ tls + 0x14).
        read32-write32_apart m5 a (tls + 0x14) 0xdead_beef (inl below)
          (omega (arith, sizes, one, two, three)) (omega arith) in
      let by_third = λ (a : ℕ) (below : a + 4 ≤ tls + 8).
        read32-write32_apart m4 a (tls + 8) tls (inl below) (omega (arith, sizes, one, two))
          (omega arith) in
      (
        by_fourth tls (omega arith)
            ∙ by_third tls (omega arith)
            ∙ read32-write32_apart m3 tls (tls + 4) tls (inl (omega arith))
                (omega (arith, sizes, one)) (omega arith)
            ∙ read32-write32 cleared_memory tls stub_addr (omega (arith, sizes))
                (omega (arith, sizes)) (omega arith),
        by_fourth (tls + 4) (omega arith)
            ∙ by_third (tls + 4) (omega arith)
            ∙ read32-write32 m3 (tls + 4) tls (omega (arith, sizes, one))
                (omega (arith, sizes, one)) (omega arith),
        by_fourth (tls + 8) (omega arith)
            ∙ read32-write32 m4 (tls + 8) tls (omega (arith, sizes, one, two))
                (omega (arith, sizes, one, two)) (omega arith),
        read32-write32 m5 (tls + 0x14) 0xdead_beef (omega (arith, sizes, one, two, three))
            (omega (arith, sizes, one, two, three)) (omega arith),
      )

  -- `set_up_tls`, when the 1032 bytes from the chunk on are in memory and the chunk is at 1024 or
  -- above: GS points 8 bytes behind the chunk's start and the break 1032 bytes behind it. The
  -- block's dwords 0, 1, 2 and 5 are the stub's address, the block's own address twice and
  -- 0xDEADBEEF, all others are the stub's address, also that at 0x10, where GS:0x10 leads. The 1024
  -- bytes below the block are zeros afterwards: the chunk's header and the last 1016 bytes below
  -- the chunk. All other bytes are as before, and so is all state but GS, the break and memory.
  pub set_up_tls_lem :
      (host : Host)
      → Returns
          (λ _ t.
            (t.gs_base ≡ tls)
            × (t.brk ≡ chunk + 0x408)
            × (mem_read32 tls t.mem ≡ stub_addr)
            × (mem_read32 (tls + 4) t.mem ≡ tls)
            × (mem_read32 (tls + 8) t.mem ≡ tls)
            × (mem_read32 (tls + 0x14) t.mem ≡ 0xdead_beef)
            × ((i : ℕ) → 3 ≤ i → i < 256 → i ≢ 5 → mem_read32 (tls + 4 * i) t.mem ≡ stub_addr)
            × ((x : ℕ) → tls ≤ x + 0x400 → x < tls → t.mem.byte x ≡ 0)
            × ((x : ℕ) → (x + 0x400 < tls) ⊎ (tls + 0x400 ≤ x) → t.mem.byte x ≡ s.mem.byte x)
            × (t.cpu ≡ s.cpu)
            × (t ≡ record s {
              gs_base = t.gs_base;
              brk = t.brk;
              mem = record s.mem { byte = t.mem.byte };
            }))
          (run host (set_up_tls chunk) s)
  unfolding apply chunk_size
  set_up_tls_lem host =
      let sizes = tls-sizes in
      let start = start_of_block in
      rw (set_up_tls-run host) (
        omega arith,
        omega arith,
        start.0,
        start.1,
        start.2,
        start.3,
        rest_of_block,
        λ x above below.
            tls_memory-apart x (inl below)
            ∙ clear_words-zero 256 tls 4 x filled_memory (omega (arith, sizes)) (omega arith)
                (omega (arith, sizes)) (omega arith) (omega arith) (omega arith),
        tls_memory-outside,
        refl,
        ap
            (λ (n : ℕ). record s {
              gs_base = u32 tls;
              brk = u32 (chunk + chunk_size);
              mem = record tls_memory { size = n };
            })
            sizes.3,
      )
