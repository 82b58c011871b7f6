-- ===== src/Loader/Stack/Laws.antt =====
-- The initial stack that `load_elf` builds: where its parts stand and what they hold
-- (src/loader/loader.c).
use fake_kernel.Prelude.{
  ℕ, ◌+◌, ◌*◌, ◌%◌, ◌^◌, ◌≤◌, ◌<◌, ◌≡◌, ap, ◌∙◌, inl, inr, arith, add32, List, [], ◌∷◌,
}
use fake_kernel.Mem.{Memory, length, copy_bytes, mem_write32}
use fake_kernel.Mem.Blocks.{
  HoldsWords, AreWords, copy_bytes-outside, copy_bytes-size, copy_bytes-HoldsBytes, write_words,
  write_words-size, write_words-outside, write_words-HoldsWords, Agree-HoldsBytes, Agree-HoldsWords,
  length-append,
}
use fake_kernel.Machine.{Machine, apply, apply_cpu, reg_esp, set_reg, write32}
use fake_kernel.Prog.{Host, Prog, Run, ok, run, run->>=, and_then, assign, ◌>>◌}
use fake_kernel.Prog.Valid.{Returns}
use fake_kernel.Cpu.{put_reg}
use fake_kernel.Loader.Stack.Places.{
  terminated, starts, PointTo, FitsStack, string_base_lem, stack_base_lem, starts-AreWords,
  starts-PointTo, length-starts, put32-run, write_strings-run,
}
use fake_kernel.Loader.Stack.{
  Strings, write_strings, put32, take, count, string_base, stack_base, header_block, header_bytes,
  auxv, build_stack,
}

-- The 16 bytes behind the strings, as dwords.
abbrev pub random_words : List ℕ
random_words = 0xdead_beef ∷ 0xcafe_babe ∷ 0x1337_1337 ∷ 0xabcd_ef01 ∷ []

-- The parts of the stack: the arguments, where the strings and the random bytes are, and the block.
module _ (argv : List (List ℕ)) (s : Machine) where
  abbrev arguments : List (List ℕ)
  arguments = take 63 argv

  abbrev pub strings_at : ℕ
  strings_at = string_base s.mem.size arguments

  abbrev pub random_at : ℕ
  random_at = strings_at + length (terminated arguments)

  abbrev pub block_at : ℕ
  block_at = stack_base strings_at (count arguments)

-- Memory after `build_stack`, by its three parts.
module _ (at_phdr phentsize phnum entry : ℕ) (argv : List (List ℕ)) (s : Machine) where
  abbrev pub block : List ℕ
  block =
      header_block (starts (take 63 argv) (strings_at argv s)) (count (take 63 argv))
        (auxv at_phdr phentsize phnum entry (random_at argv s))

  abbrev pub stack_memory : Memory
  stack_memory = write_words (block_at argv s) block (
      write_words (random_at argv s) random_words
        (copy_bytes (strings_at argv s) (terminated (take 63 argv)) s.mem))

  build_stack-run :
      (host : Host)
      → FitsStack (take 63 argv) s.mem.size
      → run host (build_stack at_phdr phentsize phnum entry argv) s
        ≡ ok tt (apply (set_reg reg_esp (block_at argv s)) (record s { mem = stack_memory }))
  unfolding build_stack run apply apply_cpu
  build_stack-run host fits =
      let strings = string_base_lem s.mem.size (take 63 argv) fits in
      let write_block : Strings → Prog (Unit {0}) = λ r.
        put32 (block_at argv s)
          (header_block r.addrs (count (take 63 argv)) (auxv at_phdr phentsize phnum entry r.next))
        >> put_reg reg_esp (block_at argv s) in
      let after : Strings → Prog (Unit {0}) = λ r. (do
        assign (write32 r.next 0xdead_beef)
        assign (write32 (add32 r.next 4) 0xcafe_babe)
        assign (write32 (add32 r.next 8) 0x1337_1337)
        assign (write32 (add32 r.next 12) 0xabcd_ef01)
        write_block r) in
      let r : Strings = record {
        addrs = starts (take 63 argv) (strings_at argv s);
        next = (random_at argv s);
      } in
      let copied = copy_bytes (strings_at argv s) (terminated (take 63 argv)) s.mem in
      let eight : add32 (random_at argv s) 8 ≡ add32 (add32 (random_at argv s) 4) 4 =
        omega (arith, fits, strings) in
      let twelve : add32 (random_at argv s) 12 ≡ add32 (add32 (add32 (random_at argv s) 4) 4) 4 =
        omega (arith, fits, strings) in
      let tail : ℕ → ℕ → Memory = λ a b. mem_write32 b 0xabcd_ef01 (
        mem_write32 a 0x1337_1337 (
          mem_write32 (add32 (random_at argv s) 4) 0xcafe_babe
            (mem_write32 (random_at argv s) 0xdead_beef copied))) in
      let s2 = record s { mem = write_words (random_at argv s) random_words copied } in
      run->>= host (write_strings (take 63 argv) (strings_at argv s)) after s
      ∙ ap (λ (x : Run Strings). and_then x (λ u. run host (after u)))
          (write_strings-run host (take 63 argv) (strings_at argv s) s
            (omega (arith, fits, strings)) (omega (arith, fits, strings)))
      ∙ ap
          (λ (a : ℕ).
            run host (write_block r) (record s { mem = tail a (add32 (random_at argv s) 12) }))
          eight
      ∙ ap
          (λ (b : ℕ).
            run host (write_block r)
              (record s { mem = tail (add32 (add32 (random_at argv s) 4) 4) b }))
          twelve
      ∙ run->>= host (put32 (block_at argv s) block) (λ _. put_reg reg_esp (block_at argv s)) s2
      ∙ ap (λ (x : Run (Unit {0})). and_then x (λ _. run host (put_reg reg_esp (block_at argv s))))
          (put32-run host block (block_at argv s) s2)

  length-block : 4 * length block ≡ header_bytes (count (take 63 argv))
  unfolding auxv
  length-block = omega (
    arith,
    length-append (starts (take 63 argv) (strings_at argv s))
        (0 ∷ 0 ∷ auxv at_phdr phentsize phnum entry (random_at argv s)),
    length-starts (take 63 argv) (strings_at argv s),
  )

  module _ (fits : FitsStack (take 63 argv) s.mem.size) (phdr_fits : at_phdr < 2 ^ 32)
      (phent_fits : phentsize < 2 ^ 32) (phnum_fits : phnum < 2 ^ 32)
      (entry_fits : entry < 2 ^ 32) where
    auxv-AreWords : AreWords (0 ∷ 0 ∷ auxv at_phdr phentsize phnum entry (random_at argv s))
    unfolding auxv
    auxv-AreWords = ground (arith, fits, string_base_lem s.mem.size (take 63 argv) fits)

    block-AreWords : AreWords block
    block-AreWords =
        let strings = string_base_lem s.mem.size (take 63 argv) fits in
        (
          omega (arith, fits, strings),
          starts-AreWords (take 63 argv) (strings_at argv s) _ (omega (arith, fits, strings))
              auxv-AreWords,
        )

    -- The stack that the guest starts with, when the (take 63 argv) fit: ESP is a multiple of 16 and
    -- points to argc, the pointers of argv and their NULL, the NULL of envp and the auxiliary
    -- vector; the pointers lead to the strings, AT_RANDOM to 16 bytes behind them; the block lies
    -- below the strings, and memory below ESP is as before.
    pub build_stack_lem :
        (host : Host)
        → Returns
            (λ _ t.
              (t.cpu.regs reg_esp ≡ (block_at argv s))
              × ((block_at argv s) % 16 ≡ 0)
              × HoldsWords (block_at argv s) block t.mem
              × PointTo (starts (take 63 argv) (strings_at argv s)) (take 63 argv) t.mem
              × HoldsWords (random_at argv s) random_words t.mem
              × ((block_at argv s) + header_bytes (count (take 63 argv)) ≤ (strings_at argv s))
              × ((x : ℕ) → x < (block_at argv s) → t.mem.byte x ≡ s.mem.byte x))
            (run host (build_stack at_phdr phentsize phnum entry argv) s)
    unfolding apply apply_cpu
    build_stack_lem host =
        let strings = string_base_lem s.mem.size (take 63 argv) fits in
        let places = stack_base_lem s.mem.size (take 63 argv) fits in
        let size1 = copy_bytes-size (strings_at argv s) (terminated (take 63 argv)) s.mem in
        let m1 = copy_bytes (strings_at argv s) (terminated (take 63 argv)) s.mem in
        let m2 = write_words (random_at argv s) random_words m1 in
        let size2 = write_words-size (random_at argv s) random_words m1 in
        let outside1 =
          λ (x : ℕ). copy_bytes-outside (strings_at argv s) x (terminated (take 63 argv)) s.mem in
        let outside2 = λ (x : ℕ).
          write_words-outside (random_at argv s) x random_words m1 (omega (arith, fits, size1))
            (omega (arith, fits, strings)) in
        let outside3 = λ (x : ℕ).
          write_words-outside (block_at argv s) x block m2 (omega (arith, fits, size1, size2))
            (omega (arith, fits, strings, places, length-block)) in
        rw (build_stack-run host fits) (
          omega (arith, fits, strings, places),
          places.0,
          write_words-HoldsWords (block_at argv s) block m2 (omega (arith, fits, size1, size2))
              (omega (arith, fits, strings, places, length-block))
              (omega (arith, fits, strings, places, length-block, size1, size2)) block-AreWords,
          starts-PointTo (take 63 argv) (strings_at argv s) stack_memory (
              Agree-HoldsBytes (strings_at argv s) (terminated (take 63 argv)) m1 stack_memory
                (λ x p q.
                  outside3 x (inr (omega (arith, places, length-block))) ∙ outside2 x (inl q))
                (copy_bytes-HoldsBytes (strings_at argv s) (terminated (take 63 argv)) s.mem)),
          Agree-HoldsWords (random_at argv s) random_words m2 stack_memory
              (write_words-size (block_at argv s) block m2) (omega (arith, fits, strings))
              (λ x p q. outside3 x (inr (omega (arith, places, length-block))))
              (write_words-HoldsWords (random_at argv s) random_words m1
                (omega (arith, fits, size1)) (omega (arith, fits, strings))
                (omega (arith, fits, strings, size1)) (ground arith)),
          places.1,
          λ x below.
              outside3 x (inl below)
              ∙ outside2 x (inl (omega (arith, strings, places)))
              ∙ outside1 x (inl (omega (arith, strings, places))),
        )
