-- ===== src/Loader/Segments.antt =====
-- The segments of the executable in guest memory (src/loader/loader.c).
use fake_kernel.Prelude.{
  ℕ, zero, suc, ◌+◌, ◌-◌, ◌^◌, ◌≤◌, ◌<◌, ◌≡◌, refl, sym, ap, ◌∙◌, ◌⊎◌, inl, inr, arith, Bool, true,
  false, Bool-cases, if◌then◌else◌, not, leb, ltb, ◌==◌, u8, add32, List, [], ◌∷◌, ◌++◌,
}
use fake_kernel.Mem.{Memory, length, poke, copy_bytes, mem_write8}
use fake_kernel.Mem.Blocks.{copy_bytes-outside, copy_bytes-size, copy_bytes-append}
use fake_kernel.Machine.{Machine, apply}
use fake_kernel.Prog.{Host, Prog, Run, ret, ok, run, run->>=, run-if_false, and_then, ◌>>◌}
use fake_kernel.Prog.Valid.{Returns}
use fake_kernel.Loader.Stack.{copy_in}
use fake_kernel.Loader.Stack.Places.{copy_in-run}
use fake_kernel.Loader.{File, Elf32Phdr, zero_segment, copy_segment, map_segment}

-- `n` bytes of a sequence from a position on.
abbrev pub slice : (ℕ → ℕ) → ℕ → ℕ → List ℕ
slice c pos zero = []
slice c pos (suc n) = c pos ∷ slice c (pos + 1) n

-- The file gives its first `total` bytes, which are those of `c`.
abbrev pub HasContents : (ℕ → ℕ) → ℕ → File → Type 0
HasContents c total f = (pos n : ℕ) → pos + n ≤ total → f.read pos n ≡ slice c pos n

length-slice : (c : ℕ → ℕ) (pos n : ℕ) → length (slice c pos n) ≡ n
length-slice c pos zero = refl
length-slice c pos (suc n) = ap suc (length-slice c (pos + 1) n)

slice-append :
    (c : ℕ → ℕ) (k pos n : ℕ) → slice c pos k ++ slice c (pos + k) n ≡ slice c pos (k + n)
slice-append c zero pos n =
    let same : pos + 0 ≡ pos = omega arith in
    let none_left : n ≡ 0 + n = omega arith in
    ap (λ (p : ℕ). slice c p n) same ∙ ap (slice c pos) none_left
slice-append c (suc k) pos n =
    let same : pos + suc k ≡ pos + 1 + k = omega arith in
    let more : suc (k + n) ≡ suc k + n = omega arith in
    ap (λ (p : ℕ). c pos ∷ (slice c (pos + 1) k ++ slice c p n)) same
    ∙ ap (λ bs. c pos ∷ bs) (slice-append c k (pos + 1) n)
    ∙ ap (slice c pos) more

-- A copied slice, byte by byte.
copy_bytes-slice :
    (c : ℕ → ℕ) (d pos n i : ℕ) (m : Memory)
    → i < n
    → (copy_bytes d (slice c pos n) m).byte (d + i) ≡ u8 (c (pos + i))
unfolding copy_bytes
copy_bytes-slice c d pos zero i m h = absurd (omega arith)
copy_bytes-slice c d pos (suc n) zero m h =
    let here : d + 0 ≡ d = omega arith in
    let same : pos ≡ pos + 0 = omega arith in
    let k = poke d (c pos) m in
    let rest = slice c (pos + 1) n in
    ap (λ (a : ℕ). (copy_bytes (d + 1) rest k).byte a) here
    ∙ copy_bytes-outside (d + 1) d rest k (inl (omega arith))
    ∙ ground arith
    ∙ ap (λ (p : ℕ). u8 (c p)) same
copy_bytes-slice c d pos (suc n) (suc i) m h =
    let here : d + suc i ≡ d + 1 + i = omega arith in
    let there : pos + 1 + i ≡ pos + suc i = omega arith in
    let k = poke d (c pos) m in
    ap (λ (a : ℕ). (copy_bytes (d + 1) (slice c (pos + 1) n) k).byte a) here
    ∙ copy_bytes-slice c (d + 1) (pos + 1) n i k (omega arith)
    ∙ ap (λ (p : ℕ). u8 (c p)) there

mem_write8-poke : (a v : ℕ) (m : Memory) → a + 1 ≤ m.size → mem_write8 a v m ≡ poke a v m
unfolding mem_write8
mem_write8-poke a v m inside = let ok : leb (a + 1) m.size ≡ true = ground arith in rw ok refl

zero_segment-run :
    (host : Host) (n vaddr b : ℕ) (s : Machine)
    → vaddr + b + n ≤ s.mem.size
    → s.mem.size < 2 ^ 32
    → run host (zero_segment n vaddr b) s
      ≡ ok tt (record s { mem = copy_bytes (vaddr + b) (slice (λ _. 0) b n) s.mem })
unfolding run zero_segment apply copy_bytes
zero_segment-run host zero vaddr b s inside small = refl
zero_segment-run host (suc n) vaddr b s inside small =
    let m = poke (vaddr + b) 0 s.mem in
    let here : mem_write8 (add32 vaddr b) 0 s.mem ≡ m =
      ap (λ (a : ℕ). mem_write8 a 0 s.mem) (omega arith)
      ∙ mem_write8-poke (vaddr + b) 0 s.mem (omega arith) in
    let next : vaddr + (b + 1) ≡ vaddr + b + 1 = omega arith in
    ap (λ (k : Memory). run host (zero_segment n vaddr (b + 1)) (record s { mem = k })) here
    ∙ zero_segment-run host n vaddr (b + 1) (record s { mem = m }) (omega arith) small
    ∙ ap (λ (a : ℕ). ok tt (record s { mem = copy_bytes a (slice (λ _. 0) (b + 1) n) m })) next

-- One chunk.
abbrev chunk_length : ℕ → ℕ
chunk_length n = if ltb n 4096 then n else 4096

chunk_length_lem : (n : ℕ) → (chunk_length n ≤ n) × (0 < chunk_length n + (1 - n))
chunk_length_lem n = ground arith

copy_chunk :
    (host : Host) (f : File) (c : ℕ → ℕ) (total : ℕ)
    → HasContents c total f
    → (fuel pos dst n : ℕ) (s : Machine) → 0 < n
    → pos + n ≤ total
    → dst + n ≤ s.mem.size
    → s.mem.size < 2 ^ 32
    → run host (copy_segment (suc fuel) f pos dst n) s
      ≡ run host
          (copy_segment fuel f (pos + chunk_length n) (dst + chunk_length n) (n - chunk_length n))
          (record s { mem = copy_bytes dst (slice c pos (chunk_length n)) s.mem })
unfolding run copy_segment
copy_chunk host f c total has fuel pos dst n s positive stored inside small =
    let k = chunk_length n in
    let bound = chunk_length_lem n in
    let bytes = f.read pos k in
    let same : bytes ≡ slice c pos k = has pos k (omega (arith, bound)) in
    let long : length bytes ≡ k = ap length same ∙ length-slice c pos k in
    let going : (n == 0) ≡ false = ground arith in
    let whole : not (length bytes == k) ≡ false = ground (arith, long) in
    let next : add32 dst k ≡ dst + k = omega (arith, bound) in
    let rest : ℕ → Prog Bool = λ d. copy_segment fuel f (pos + k) d (n - k) in
    let copy : Prog Bool = (do copy_in dst bytes; rest (add32 dst k)) in
    let body : Prog Bool = if not (length bytes == k) then ret false else copy in
    run-if_false host (ret true) body s (n == 0) going
    ∙ run-if_false host (ret false) copy s (not (length bytes == k)) whole
    ∙ run->>= host (copy_in dst bytes) (λ _. rest (add32 dst k)) s
    ∙ ap (λ (r : Run (Unit {0})). and_then r (λ _. run host (rest (add32 dst k))))
        (copy_in-run host dst bytes s (omega (arith, bound, long)))
    ∙ ap (λ (d : ℕ). run host (rest d) (record s { mem = copy_bytes dst bytes s.mem })) next
    ∙ ap (λ (bs : List ℕ). run host (rest (dst + k)) (record s { mem = copy_bytes dst bs s.mem }))
        same

-- The chunks of at most 4096 bytes make up the segment, and fuel for its bytes is enough.
copy_segment-run :
    (host : Host) (f : File) (c : ℕ → ℕ) (total : ℕ)
    → HasContents c total f
    → (fuel pos dst n : ℕ) (s : Machine) → n ≤ fuel
    → pos + n ≤ total
    → dst + n ≤ s.mem.size
    → s.mem.size < 2 ^ 32
    → run host (copy_segment fuel f pos dst n) s
      ≡ ok true (record s { mem = copy_bytes dst (slice c pos n) s.mem })
unfolding run copy_segment copy_bytes
copy_segment-run host f c total has zero pos dst n s enough stored inside small =
    let nothing : n ≡ 0 = omega arith in rw nothing refl
copy_segment-run host f c total has (suc fuel) pos dst n s enough stored inside small =
    let empty : n ≡ 0
        → run host (copy_segment (suc fuel) f pos dst n) s
          ≡ ok true (record s { mem = copy_bytes dst (slice c pos n) s.mem }) =
      λ nothing. rw nothing refl in
    elim (Bool-cases (n == 0)) [
      | inl e ↦ empty (ground arith)
      | inr e ↦
          let k = chunk_length n in
          let positive : 0 < n = ground arith in
          let bound = chunk_length_lem n in
          let first = slice c pos k in
          let rest = slice c (pos + k) (n - k) in
          let s1 = record s { mem = copy_bytes dst first s.mem } in
          let size = copy_bytes-size dst first s.mem in
          let all : k + (n - k) ≡ n = omega (arith, bound) in
          let here : dst + k ≡ dst + length first = omega (arith, length-slice c pos k) in
          copy_chunk host f c total has fuel pos dst n s positive stored inside small
          ∙ copy_segment-run host f c total has fuel (pos + k) (dst + k) (n - k) s1
              (omega (arith, bound)) (omega (arith, bound)) (omega (arith, bound, size))
              (omega (arith, size))
          ∙ ap (λ (m : Memory). ok true (record s { mem = m }))
              (ap (λ (a : ℕ). copy_bytes a rest s1.mem) here
                ∙ sym (copy_bytes-append dst first rest s.mem)
                ∙ ap (λ (bs : List ℕ). copy_bytes dst bs s.mem) (slice-append c k pos (n - k))
                ∙ ap (λ (j : ℕ). copy_bytes dst (slice c pos j) s.mem) all)
    ]

-- Memory with a segment in place: zeros, and over them the bytes of the file.
abbrev segment_memory : (ℕ → ℕ) → Elf32Phdr → Memory → Memory
segment_memory c p m =
    copy_bytes p.p_vaddr (slice c p.p_offset p.p_filesz)
      (copy_bytes p.p_vaddr (slice (λ _. 0) 0 p.p_memsz) m)

-- A segment that the file holds and that fits.
pub record IsSegment (total size : ℕ) (f : File) (p : Elf32Phdr) : Type 0 where
  pub addressable : size < 2 ^ 32
  pub inside : p.p_vaddr + p.p_memsz ≤ size
  pub ordered : p.p_filesz ≤ p.p_memsz
  pub stored : p.p_offset + p.p_filesz ≤ total
  pub seeks : f.seek p.p_offset ≡ true

module _ (host : Host) (f : File) (c : ℕ → ℕ) (total : ℕ) (has : HasContents c total f)
    (p : Elf32Phdr) (s : Machine) (fits : IsSegment total s.mem.size f p) where
  map_segment-run :
      run host (map_segment f p) s ≡ ok true (record s { mem = segment_memory c p s.mem })
  unfolding map_segment run copy_bytes
  map_segment-run =
      let zeros = slice (λ _. 0) 0 p.p_memsz in
      let start : p.p_vaddr + 0 ≡ p.p_vaddr = omega arith in
      let s1 = record s { mem = copy_bytes p.p_vaddr zeros s.mem } in
      let size = copy_bytes-size p.p_vaddr zeros s.mem in
      let copy = copy_segment p.p_filesz f p.p_offset p.p_vaddr p.p_filesz in
      let found : Prog Bool = if not (f.seek p.p_offset) then ret false else copy in
      let body : Prog Bool = if p.p_filesz == 0 then ret true else found in
      let reached : not (f.seek p.p_offset) ≡ false = rw fits.seeks refl in
      let empty : (p.p_filesz ≡ 0)
          → run host body s1 ≡ ok true (record s { mem = segment_memory c p s.mem }) =
        λ nothing. rw nothing refl in
      run->>= host (zero_segment p.p_memsz p.p_vaddr 0) (λ _. body) s
      ∙ ap (λ (r : Run (Unit {0})). and_then r (λ _. run host body))
          (zero_segment-run host p.p_memsz p.p_vaddr 0 s (omega (arith, fits.inside))
            fits.addressable)
      ∙ ap (λ (a : ℕ). run host body (record s { mem = copy_bytes a zeros s.mem })) start
      ∙ elim (Bool-cases (p.p_filesz == 0)) [
        | inl e ↦ empty (ground arith)
        | inr e ↦
            run-if_false host (ret true) found s1 (p.p_filesz == 0) e
            ∙ run-if_false host (ret false) copy s1 (not (f.seek p.p_offset)) reached
            ∙ copy_segment-run host f c total has p.p_filesz p.p_offset p.p_vaddr p.p_filesz s1
                (omega arith) fits.stored (omega (arith, fits.inside, fits.ordered, size))
                (omega (arith, fits.addressable, size))
      ]

  -- A segment that the file holds, that fits guest memory and whose file part is not longer than
  -- its memory is mapped: the file's bytes come first and zeros fill the rest, all other bytes
  -- and the rest of the machine stay.
  pub map_segment_lem :
      Returns
        (λ done t.
          (done ≡ true)
          × (t ≡ record s { mem = t.mem })
          × ((i : ℕ) → i < p.p_filesz → t.mem.byte (p.p_vaddr + i) ≡ u8 (c (p.p_offset + i)))
          × ((i : ℕ) → p.p_filesz ≤ i → i < p.p_memsz → t.mem.byte (p.p_vaddr + i) ≡ 0)
          × ((a : ℕ) → (a < p.p_vaddr) ⊎ (p.p_vaddr + p.p_memsz ≤ a) → t.mem.byte a ≡ s.mem.byte a))
        (run host (map_segment f p) s)
  map_segment_lem =
      let zeros = slice (λ _. 0) 0 p.p_memsz in
      let bytes = slice c p.p_offset p.p_filesz in
      let m1 = copy_bytes p.p_vaddr zeros s.mem in
      let long = length-slice c p.p_offset p.p_filesz in
      let long_zeros = length-slice (λ _. 0) 0 p.p_memsz in
      rw map_segment-run (
        refl,
        refl,
        λ i below. copy_bytes-slice c p.p_vaddr p.p_offset p.p_filesz i m1 below,
        λ i above below.
            copy_bytes-outside p.p_vaddr (p.p_vaddr + i) bytes m1 (inr (omega (arith, long)))
            ∙ copy_bytes-slice (λ _. 0) p.p_vaddr 0 p.p_memsz i s.mem below,
        λ a apart.
            copy_bytes-outside p.p_vaddr a bytes m1 (ground (arith, long, fits.ordered))
            ∙ copy_bytes-outside p.p_vaddr a zeros s.mem (ground (arith, long_zeros)),
      )
