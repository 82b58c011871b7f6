-- ===== src/Loader.antt =====
-- The ELF loader (src/loader/loader.c): header checks, segments, and the initial stack in the child.
pub mod Laws
pub mod Segments
pub mod Stack
use fake_kernel.Prelude.{
  ℕ, zero, suc, ◌+◌, ◌-◌, ◌*◌, ◌^◌, Bool, true, false, if◌then◌else◌, ltb, leb, ◌==◌, not, ◌||◌,
  ◌&&◌, u8, u32, add32, ◌<<<◌, List, [], ◌∷◌, Option, none, some, min,
}
use fake_kernel.Mem.{length, check_bounds}
use fake_kernel.Machine.{write8, write_host}
use fake_kernel.Prog.{Prog, ret, out_of_fuel, gets, assign, ◌>>=◌, ◌>>◌}
use fake_kernel.Cpu.{put_eip}
use fake_kernel.Syscall.Space.{page_align}
use fake_kernel.Loader.Stack.{copy_in, build_stack}

-- A file of the host: whether `fopen` opens it, whether `fseek` goes to an offset, and the bytes
-- that `fread` gives for a count at a position, fewer than the count at the end of the file.
pub record File : Type 0 where
  pub opens : Bool
  pub seek : ℕ → Bool
  pub read : ℕ → ℕ → List ℕ

-- The byte at an index of a buffer, and the little-endian fields of 2 and 4 bytes.
abbrev pub byte_at : List ℕ → ℕ → ℕ
byte_at [] i = 0
byte_at (b ∷ bs) zero = u8 b
byte_at (b ∷ bs) (suc i) = byte_at bs i

abbrev pub half_at : List ℕ → ℕ → ℕ
half_at bs i = byte_at bs i + byte_at bs (i + 1) * 2 ^ 8

abbrev pub word_at : List ℕ → ℕ → ℕ
word_at bs i = half_at bs i + half_at bs (i + 2) * 2 ^ 16

-- `e_ident` is its bytes.
pub record Elf32Ehdr : Type 0 where
  pub e_ident : ℕ → ℕ
  pub e_type : ℕ
  pub e_machine : ℕ
  pub e_version : ℕ
  pub e_entry : ℕ
  pub e_phoff : ℕ
  pub e_shoff : ℕ
  pub e_flags : ℕ
  pub e_ehsize : ℕ
  pub e_phentsize : ℕ
  pub e_phnum : ℕ
  pub e_shentsize : ℕ
  pub e_shnum : ℕ
  pub e_shstrndx : ℕ

pub record Elf32Phdr : Type 0 where
  pub p_type : ℕ
  pub p_offset : ℕ
  pub p_vaddr : ℕ
  pub p_paddr : ℕ
  pub p_filesz : ℕ
  pub p_memsz : ℕ
  pub p_flags : ℕ
  pub p_align : ℕ

-- `fread` into the structs, on a little-endian host.
unfoldable pub read_ehdr : List ℕ → Elf32Ehdr
read_ehdr bs = record {
  e_ident = λ i. byte_at bs i;
  e_type = half_at bs 16;
  e_machine = half_at bs 18;
  e_version = word_at bs 20;
  e_entry = word_at bs 24;
  e_phoff = word_at bs 28;
  e_shoff = word_at bs 32;
  e_flags = word_at bs 36;
  e_ehsize = half_at bs 40;
  e_phentsize = half_at bs 42;
  e_phnum = half_at bs 44;
  e_shentsize = half_at bs 46;
  e_shnum = half_at bs 48;
  e_shstrndx = half_at bs 50;
}

unfoldable pub read_phdr : List ℕ → Elf32Phdr
read_phdr bs = record {
  p_type = word_at bs 0;
  p_offset = word_at bs 4;
  p_vaddr = word_at bs 8;
  p_paddr = word_at bs 12;
  p_filesz = word_at bs 16;
  p_memsz = word_at bs 20;
  p_flags = word_at bs 24;
  p_align = word_at bs 28;
}

-- The `memcmp` with `ELF_MAGIC`.
unfoldable pub has_magic : Elf32Ehdr → Bool
has_magic h =
    h.e_ident 0 == 0x7f && h.e_ident 1 == b'E' && h.e_ident 2 == b'L' && h.e_ident 3 == b'F'

-- Every check of the header, in its order.
unfoldable pub valid_header : Elf32Ehdr → Bool
unfolding has_magic
valid_header h =
    if not (has_magic h)
    then false
    else if not (h.e_ident 4 == 1)
    then false
    else if not (h.e_ident 5 == 1)
    then false
    else if not (h.e_type == 2)
    then false
    else if not (h.e_machine == 3)
    then false
    else if ltb h.e_phentsize 32
    then false
    else true

-- `load_end`, `load_addr` and `first_load`.
pub record Loaded : Type 0 where
  pub load_end : ℕ
  pub load_addr : ℕ
  pub first_load : Bool

-- `mem_write8(vaddr + b, 0)` for the `n` values of `b` from its argument on.
unfoldable pub zero_segment : ℕ → ℕ → ℕ → Prog (Unit {0})
zero_segment zero vaddr b = ret tt
zero_segment (suc n) vaddr b = do assign (write8 (add32 vaddr b) 0); zero_segment n vaddr (b + 1)

-- `while (remaining > 0)`, with the position in the file; fuel for the chunks. The result is whether
-- every read was long enough.
unfoldable pub copy_segment : ℕ → File → ℕ → ℕ → ℕ → Prog Bool
copy_segment zero f pos dst remaining = if remaining == 0 then ret true else out_of_fuel
copy_segment (suc fuel) f pos dst remaining =
    let to_read = if ltb remaining 4096 then remaining else 4096 in
    let chunk = f.read pos to_read in
    if remaining == 0 then ret true else if not (length chunk == to_read) then ret false else do
      copy_in dst chunk
      copy_segment fuel f (pos + to_read) (add32 dst to_read) (remaining - to_read)

-- The segment's memory: zeros, then the bytes of the file.
unfoldable pub map_segment : File → Elf32Phdr → Prog Bool
map_segment f p = do
  zero_segment p.p_memsz p.p_vaddr 0
  if p.p_filesz == 0
      then ret true
      else if not (f.seek p.p_offset)
      then ret false
      else copy_segment p.p_filesz f p.p_offset p.p_vaddr p.p_filesz

unfoldable pub note_segment : Elf32Phdr → Loaded → Loaded
note_segment p l =
    let seg_end = add32 p.p_vaddr p.p_memsz in
    record {
      load_end = if ltb l.load_end seg_end then seg_end else l.load_end;
      load_addr = if l.first_load then p.p_vaddr else l.load_addr;
      first_load = false;
    }

-- The loop over the program headers from `i`, with `n` to go; `none` is a failure.
unfoldable pub load_segments : ℕ → ℕ → File → Elf32Ehdr → Loaded → Prog (Option Loaded)
load_segments zero i f h l = ret (some l)
load_segments (suc n) i f h l =
    let at = u32 (h.e_phoff + i * h.e_phentsize) in
    let bytes = f.read at 32 in
    let p = read_phdr bytes in
    let next = λ (m : Loaded). load_segments n (i + 1) f h m in
    if not (f.seek at)
    then ret none
    else if not (length bytes == 32)
    then ret none
    else if not (p.p_type == 1) || p.p_memsz == 0
    then next l
    else do
      size ← gets (λ s. s.mem.size)
      if ltb size (p.p_vaddr + p.p_memsz)
          then ret none
          else do done ← map_segment f p; if done then next (note_segment p l) else ret none

-- What `load_elf` returns: `info->load_end`, or `none` for 0. `argv` is the guest's, without the
-- emulator's own name.
unfoldable pub load_elf : File → List (List ℕ) → Prog (Option ℕ)
load_elf f argv =
    let bytes = f.read 0 52 in
    let h = read_ehdr bytes in
    let start : Loaded = record { load_end = 0; load_addr = 0; first_load = true } in
    if not f.opens
    then ret none
    else if not (length bytes == 52)
    then ret none
    else if not (valid_header h)
    then ret none
    else do
      loaded ← load_segments h.e_phnum 0 f h start
      elim loaded [
        | none ↦ ret none
        | some l ↦ do
          put_eip h.e_entry
          build_stack (add32 l.load_addr h.e_phoff) h.e_phentsize h.e_phnum h.e_entry argv
          ret (some (page_align l.load_end))
      ]
