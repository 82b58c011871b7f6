-- ===== src/Loader/Laws.antt =====
-- `load_elf` as a whole (src/loader/loader.c): how it can end.
use fake_kernel.Prelude.{
  ℕ, zero, suc, ◌+◌, ◌-◌, ◌^◌, ◌≤◌, ◌≡◌, refl, ap, ◌∙◌, ◌%◌, true, not, ◌==◌, arith, if◌then◌else◌,
  ltb, u32, add32, List, [], ◌∷◌, Option, none, some,
}
use fake_kernel.Prelude.Widths.{bit_and-split}
use fake_kernel.Prelude.Bits.{bit_and_low}
use fake_kernel.Mem.{length}
use fake_kernel.Machine.{Machine, update, apply, apply_cpu, reg_esp, set_reg, set_eip, write32}
use fake_kernel.Prog.{Host, Prog, run, ret, assign, ◌>>=◌, ◌>>◌}
use fake_kernel.Prog.Memory.{MemoryOnly, memory_only, OnlyMemory, MemoryOnly-run}
use fake_kernel.Prog.Valid.{Returns, Returns->>=, Returns-if}
use fake_kernel.Cpu.{put_reg, put_eip}
use fake_kernel.Syscall.Space.{page_align}
use fake_kernel.Loader.Stack.{
  copy_in, write_strings, put32, Strings, take, count, string_base, stack_base, header_block, auxv,
  build_stack,
}
use fake_kernel.Loader.{
  File, Elf32Ehdr, Elf32Phdr, Loaded, zero_segment, copy_segment, map_segment, load_segments,
  load_elf, read_ehdr, valid_header,
}

copy_in-MemoryOnly : (d : ℕ) (bs : List ℕ) → MemoryOnly (copy_in d bs)
unfolding copy_in
copy_in-MemoryOnly d bs = search memory_only depth 20

write_strings-MemoryOnly : (args : List (List ℕ)) (p : ℕ) → MemoryOnly (write_strings args p)
unfolding write_strings
write_strings-MemoryOnly [] p = search memory_only
write_strings-MemoryOnly (a ∷ args) p =
    search (memory_only, copy_in-MemoryOnly, write_strings-MemoryOnly args) depth 20

put32-MemoryOnly : (w : ℕ) (ws : List ℕ) → MemoryOnly (put32 w ws)
unfolding put32
put32-MemoryOnly w [] = search memory_only
put32-MemoryOnly w (v ∷ vs) = search (memory_only, put32-MemoryOnly (add32 w 4) vs) depth 20

zero_segment-MemoryOnly : (n vaddr b : ℕ) → MemoryOnly (zero_segment n vaddr b)
unfolding zero_segment
zero_segment-MemoryOnly zero vaddr b = search memory_only
zero_segment-MemoryOnly (suc n) vaddr b =
    search (memory_only, zero_segment-MemoryOnly n vaddr (b + 1)) depth 20

copy_segment-MemoryOnly :
    (fuel : ℕ) (f : File) (pos dst n : ℕ) → n ≤ fuel → MemoryOnly (copy_segment fuel f pos dst n)
unfolding copy_segment
copy_segment-MemoryOnly zero f pos dst n h =
    let nothing : n ≡ 0 = omega arith in rw nothing (search memory_only)
copy_segment-MemoryOnly (suc fuel) f pos dst n h =
    let k = if ltb n 4096 then n else 4096 in
    let rest : MemoryOnly (copy_segment fuel f (pos + k) (add32 dst k) (n - k)) =
      copy_segment-MemoryOnly fuel f (pos + k) (add32 dst k) (n - k) (ground arith) in
    search (memory_only, copy_in-MemoryOnly, rest) depth 20

map_segment-MemoryOnly : (f : File) (p : Elf32Phdr) → MemoryOnly (map_segment f p)
unfolding map_segment
map_segment-MemoryOnly f p =
    let copied =
      copy_segment-MemoryOnly p.p_filesz f p.p_offset p.p_vaddr p.p_filesz (omega arith) in
    search (memory_only, zero_segment-MemoryOnly, copied) depth 20

load_segments-MemoryOnly :
    (n i : ℕ) (f : File) (h : Elf32Ehdr) (l : Loaded) → MemoryOnly (load_segments n i f h l)
unfolding load_segments
load_segments-MemoryOnly zero i f h l = search memory_only
load_segments-MemoryOnly (suc n) i f h l =
    search (memory_only, map_segment-MemoryOnly, load_segments-MemoryOnly n (i + 1) f h) depth 30

build_stack-Returns :
    (host : Host) (at_phdr phentsize phnum entry : ℕ) (argv : List (List ℕ)) (s : Machine)
    → Returns
        (λ _ t. t ≡ record s {
          cpu = record s.cpu { regs = update s.cpu.regs reg_esp (t.cpu.regs reg_esp) };
          mem = t.mem;
        })
        (run host (build_stack at_phdr phentsize phnum entry argv) s)
unfolding run build_stack apply apply_cpu
build_stack-Returns host at_phdr phentsize phnum entry argv s =
    let args = take 63 argv in
    let base = string_base s.mem.size args in
    let esp = stack_base base (count args) in
    let before : Strings → Prog (Unit {0}) = λ r. (do
      assign (write32 r.next 0xdead_beef)
      assign (write32 (add32 r.next 4) 0xcafe_babe)
      assign (write32 (add32 r.next 8) 0x1337_1337)
      assign (write32 (add32 r.next 12) 0xabcd_ef01)
      put32 esp (header_block r.addrs (count args) (auxv at_phdr phentsize phnum entry r.next))) in
    let stays : (r : Strings) → MemoryOnly (before r) =
      λ r. search (memory_only, put32-MemoryOnly) depth 20 in
    Returns->>= (λ _ t. OnlyMemory s t) _ host (write_strings args base)
      (λ r. before r >> put_reg reg_esp esp) s
      (MemoryOnly-run host (write_strings args base) s (write_strings-MemoryOnly args base))
      λ r t first.
        Returns->>= (λ _ u. OnlyMemory t u) _ host (before r) (λ _. put_reg reg_esp esp) t
          (MemoryOnly-run host (before r) t (stays r))
          λ _ u second.
            let both : OnlyMemory s u =
              second ∙ ap (λ (x : Machine). record x { mem = u.mem }) first in
            ap (apply (set_reg reg_esp esp)) both

page_align-mod : (n : ℕ) → page_align n % 2 ^ 12 ≡ 0
unfolding page_align
page_align-mod n =
    let x = add32 n 0xfff in
    omega (arith, bit_and-split 32 x 0xfff (omega arith) (omega arith), bit_and_low 12 x)

-- What `load_elf` leaves: on failure nothing but guest memory has changed; on success EIP is the
-- entry point, of the registers only ESP has changed, and the end of the program is a page's.
abbrev pub LoadOutcome : ℕ → Machine → Option ℕ → Machine → Type 0
LoadOutcome entry s none t = OnlyMemory s t
LoadOutcome entry s (some load_end) t =
    (load_end % 2 ^ 12 ≡ 0)
    × (t ≡ record s {
      cpu = record s.cpu { eip = u32 entry; regs = update s.cpu.regs reg_esp (t.cpu.regs reg_esp) };
      mem = t.mem;
    })

-- `load_elf` returns on every file, whatever it holds, and on every machine. When it fails nothing
-- but guest memory has changed; when it succeeds EIP is the entry point of the header, no register
-- but ESP has changed, and the end of the program is a multiple of 4096.
pub load_elf-Returns :
    (host : Host) (f : File) (argv : List (List ℕ)) (s : Machine)
    → Returns (LoadOutcome (read_ehdr (f.read 0 52)).e_entry s) (run host (load_elf f argv) s)
unfolding run load_elf apply apply_cpu
load_elf-Returns host f argv s =
    let h = read_ehdr (f.read 0 52) in
    let start : Loaded = record { load_end = 0; load_addr = 0; first_load = true } in
    let finish : Option Loaded → Prog (Option ℕ) = λ loaded. elim loaded [
      | none ↦ ret none
      | some l ↦ (do
        put_eip h.e_entry
        build_stack (add32 l.load_addr h.e_phoff) h.e_phentsize h.e_phnum h.e_entry argv
        ret (some (page_align l.load_end)))
    ] in
    let ends : (loaded : Option Loaded) (t : Machine)
        → OnlyMemory s t
        → Returns (LoadOutcome h.e_entry s) (run host (finish loaded) t) =
      λ loaded t same.
        elim loaded as (λ x. Returns (LoadOutcome h.e_entry s) (run host (finish x) t)) [
          | none ↦ same
          | some l ↦
              let table = add32 l.load_addr h.e_phoff in
              let t1 = apply (set_eip h.e_entry) t in
              Returns->>= _ (LoadOutcome h.e_entry s) host
                (build_stack table h.e_phentsize h.e_phnum h.e_entry argv)
                (λ _. ret (some (page_align l.load_end))) t1
                (build_stack-Returns host table h.e_phentsize h.e_phnum h.e_entry argv t1)
                λ _ u built. (
                  page_align-mod l.load_end,
                  built
                      ∙ ap
                          (λ (x : Machine). record x {
                            cpu = record x.cpu {
                              eip = u32 h.e_entry;
                              regs = update x.cpu.regs reg_esp (u.cpu.regs reg_esp);
                            };
                            mem = u.mem;
                          })
                          same,
                )
        ] in
    let segments = load_segments h.e_phnum 0 f h start in
    let body = segments >>= finish in
    let checked : Prog (Option ℕ) = if not (valid_header h) then ret none else body in
    let long : Prog (Option ℕ) = if not (length (f.read 0 52) == 52) then ret none else checked in
    let P = LoadOutcome h.e_entry s in
    Returns-if P host (not f.opens) (ret none) long s refl (
      Returns-if P host (not (length (f.read 0 52) == 52)) (ret none) checked s refl (
        Returns-if P host (not (valid_header h)) (ret none) body s refl (
          Returns->>= (λ _ t. OnlyMemory s t) P host segments finish s
            (MemoryOnly-run host segments s (load_segments-MemoryOnly h.e_phnum 0 f h start))
            ends)))
