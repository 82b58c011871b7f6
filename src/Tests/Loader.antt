-- ===== src/Tests/Loader.antt =====
-- The loader and the start of the program at concrete inputs.
use fake_kernel.Prelude.{
  ℕ, ◌+◌, ◌*◌, ◌%◌, ◌≤◌, ◌<◌, ◌≡◌, ◌≢◌, ◌⊎◌, refl, arith, true, u8, some, if◌then◌else◌, ◌==◌, ◌||◌,
  sym, List, [], ◌∷◌,
}
use mathlib.Core.Path.{subst}
use fake_kernel.Mem.{mem_read32, mem_write8, mem_write32, copy_bytes, check_bounds, init_mem}
use fake_kernel.Mem.Blocks.{HoldsWords}
use fake_kernel.Machine.{reg_esp, apply, apply_cpu}
use fake_kernel.Cpu.Emulate.{init_cpu}
use fake_kernel.Syscall.Space.{page_align}
use fake_kernel.Prog.{run}
use fake_kernel.Prog.Valid.{Returns, Returns-map}
use fake_kernel.Loader.{
  File, Elf32Phdr, map_segment, load_elf, read_ehdr, valid_header, has_magic, load_segments,
  read_phdr, zero_segment, copy_segment, note_segment,
}
use fake_kernel.Loader.Laws.{LoadOutcome, load_elf-Returns}
use fake_kernel.Loader.Segments.{slice, HasContents, IsSegment, map_segment_lem}
use fake_kernel.Loader.Stack.{
  header_bytes, build_stack, copy_in, write_strings, string_base, string_bytes, stack_base, auxv,
  put32,
}
use fake_kernel.Loader.Stack.Places.{PointTo, starts}
use fake_kernel.Loader.Stack.Laws.{
  strings_at, random_at, block_at, block, random_words, build_stack_lem,
}
use fake_kernel.Start.{stub_addr, set_up_tls, main, power_on}
use fake_kernel.Start.Laws.{with_stub, FitsBlock, MainOutcome, main-MainOutcome}
use fake_kernel.Start.Tls.{set_up_tls_lem}
use fake_kernel.Tests.{demo, demo_host, demo_platform}

-- A file without end that holds its own offsets.
abbrev demo_file : File
demo_file = record { opens = true; seek = λ _. true; read = λ pos n. slice (λ i. i) pos n }

demo_file-HasContents : HasContents (λ i. i) 10000 demo_file
demo_file-HasContents pos n h = refl

abbrev demo_phdr : Elf32Phdr
demo_phdr = record {
  p_type = 1;
  p_offset = 100;
  p_vaddr = 0x1_0000;
  p_paddr = 0;
  p_filesz = 5000;
  p_memsz = 6000;
  p_flags = 5;
  p_align = 4096;
}

demo_phdr-IsSegment : IsSegment 10000 0x40_0000 demo_file demo_phdr
demo_phdr-IsSegment = record {
  addressable = omega arith;
  inside = omega arith;
  ordered = omega arith;
  stored = omega arith;
  seeks = refl;
}

map_segment_lem_example :
    Returns
      (λ done t.
        (done ≡ true)
        × (t ≡ record demo { mem = t.mem })
        × ((i : ℕ) → i < 5000 → t.mem.byte (0x1_0000 + i) ≡ u8 (100 + i))
        × ((i : ℕ) → 5000 ≤ i → i < 6000 → t.mem.byte (0x1_0000 + i) ≡ 0)
        × ((a : ℕ) → (a < 0x1_0000) ⊎ (0x1_0000 + 6000 ≤ a) → t.mem.byte a ≡ demo.mem.byte a))
      (run demo_host (map_segment demo_file demo_phdr) demo)
map_segment_lem_example =
    map_segment_lem demo_host demo_file (λ i. i) 10000 demo_file-HasContents demo_phdr demo
      demo_phdr-IsSegment

-- `ls -l`.
abbrev demo_argv : List (List ℕ)
demo_argv = (b'l' ∷ b's' ∷ []) ∷ (b'-' ∷ b'l' ∷ []) ∷ []

load_elf-Returns_example :
    Returns
      (LoadOutcome (read_ehdr (demo_file.read 0 52)).e_entry demo)
      (run demo_host (load_elf demo_file demo_argv) demo)
load_elf-Returns_example = load_elf-Returns demo_host demo_file demo_argv demo

build_stack_lem_example :
    Returns
      (λ _ t.
        (t.cpu.regs reg_esp ≡ block_at demo_argv demo)
        × (block_at demo_argv demo % 16 ≡ 0)
        × HoldsWords (block_at demo_argv demo) (block 0x1034 32 3 0x2000 demo_argv demo) t.mem
        × PointTo (starts demo_argv (strings_at demo_argv demo)) demo_argv t.mem
        × HoldsWords (random_at demo_argv demo) random_words t.mem
        × (block_at demo_argv demo + header_bytes 2 ≤ strings_at demo_argv demo)
        × ((x : ℕ) → x < block_at demo_argv demo → t.mem.byte x ≡ demo.mem.byte x))
      (run demo_host (build_stack 0x1034 32 3 0x2000 demo_argv) demo)
build_stack_lem_example =
    build_stack_lem 0x1034 32 3 0x2000 demo_argv demo (omega arith, omega arith) (omega arith)
      (omega arith) (omega arith) (omega arith) demo_host

set_up_tls_lem_example :
    Returns
      (λ _ t.
        (t.gs_base ≡ 0x2_0000 + 8)
        × (t.brk ≡ 0x2_0000 + 0x408)
        × (mem_read32 (0x2_0000 + 8) t.mem ≡ stub_addr)
        × (mem_read32 (0x2_0000 + 8 + 4) t.mem ≡ 0x2_0000 + 8)
        × (mem_read32 (0x2_0000 + 8 + 8) t.mem ≡ 0x2_0000 + 8)
        × (mem_read32 (0x2_0000 + 8 + 0x14) t.mem ≡ 0xdead_beef)
        × ((i : ℕ) → 3 ≤ i → i < 256 → i ≢ 5 → mem_read32 (0x2_0000 + 8 + 4 * i) t.mem ≡ stub_addr)
        × ((x : ℕ) → 0x2_0000 + 8 ≤ x + 0x400 → x < 0x2_0000 + 8 → t.mem.byte x ≡ 0)
        × ((x : ℕ)
            → (x + 0x400 < 0x2_0000 + 8) ⊎ (0x2_0000 + 8 + 0x400 ≤ x)
            → t.mem.byte x ≡ demo.mem.byte x)
        × (t.cpu ≡ demo.cpu)
        × (t ≡ record demo {
          gs_base = t.gs_base;
          brk = t.brk;
          mem = record demo.mem { byte = t.mem.byte };
        }))
      (run demo_host (set_up_tls 0x2_0000) demo)
set_up_tls_lem_example =
    set_up_tls_lem 0x2_0000 demo (omega arith) (omega arith) (omega arith) demo_host

-- An ELF file with one segment: 4 bytes of the file at 0x8000, and 12 zeros behind them.
abbrev elf_byte : ℕ → ℕ
elf_byte i =
    if i == 0
    then 0x7f
    else if i == 1
    then b'E'
    else if i == 2
    then b'L'
    else if i == 3
    then b'F'
    else if i == 4 || i == 5 || i == 6 || i == 20 || i == 44 || i == 52
    then 1
    else if i == 16
    then 2
    else if i == 18
    then 3
    else if i == 25 || i == 61
    then 0x80
    else if i == 28
    then 52
    else if i == 42
    then 32
    else if i == 68
    then 4
    else if i == 72
    then 16
    else 0

abbrev elf_file : File
elf_file = record { opens = true; seek = λ _. true; read = λ pos n. slice elf_byte pos n }

-- The loader answers the end of the segment's page.
elf_file-loads :
    Returns
      (λ loaded _. loaded ≡ some 0x9000)
      (run demo_host (load_elf elf_file demo_argv) (with_stub demo_platform))
unfolding run load_elf valid_header has_magic read_ehdr load_segments read_phdr map_segment
    zero_segment copy_segment note_segment copy_in build_stack write_strings string_base
    string_bytes stack_base auxv put32 apply apply_cpu mem_write8 mem_write32 copy_bytes
    check_bounds init_mem power_on init_cpu page_align
elf_file-loads = refl

elf_file-FitsBlock :
    Returns
      (λ loaded _. FitsBlock loaded)
      (run demo_host (load_elf elf_file demo_argv) (with_stub demo_platform))
elf_file-FitsBlock =
    Returns-map (λ loaded _. loaded ≡ some 0x9000) (λ loaded _. FitsBlock loaded)
      (run demo_host (load_elf elf_file demo_argv) (with_stub demo_platform))
      (λ loaded _ e. subst FitsBlock (sym e) (omega arith, omega arith)) elf_file-loads

main-MainOutcome_example :
    Returns
      (λ loaded t.
        MainOutcome demo_platform demo_host 5 0x8000 loaded t
          (run demo_host (main demo_platform 5 elf_file demo_argv) (power_on demo_platform)))
      (run demo_host (load_elf elf_file demo_argv) (with_stub demo_platform))
unfolding read_ehdr
main-MainOutcome_example =
    main-MainOutcome demo_platform demo_host 5 elf_file (b'l' ∷ b's' ∷ []) ((b'-' ∷ b'l' ∷ []) ∷ [])
      elf_file-FitsBlock
