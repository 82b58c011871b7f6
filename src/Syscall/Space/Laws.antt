-- ===== src/Syscall/Space/Laws.antt =====
-- The break and the arena that `mmap` hands out.
use fake_kernel.Prelude.{
  ℕ, ◌+◌, ◌-◌, ◌*◌, ◌/◌, ◌^◌, ◌<◌, ◌≤◌, ◌≡◌, ◌⊎◌, arith, false, if◌then◌else◌, ltb, leb, ◌==◌, not,
  ◌&&◌, u32, add32, has_bit,
}
use fake_kernel.Prelude.Widths.{bit_and-split}
use fake_kernel.Prelude.Bits.{bit_and_low}
use fake_kernel.Mem.{guest_to_host, check_bounds, mem_write32, fill_bytes}
use fake_kernel.Machine.{Machine, apply}
use fake_kernel.Prog.{Host, ok, undefined, run}
use fake_kernel.Prog.Valid.{Returns}
use fake_kernel.Syscall.Host.{neg, enomem, in_object}
use fake_kernel.Syscall.Space.{page_align, sys_brk, sys_mmap2}

-- The length that `sys_mmap2` works with is the least multiple of 4096 that is not below `len`,
-- modulo 2 ^ 32, so that a length in the last page becomes 0.
pub page_align_lem :
    (len : ℕ) → len < 2 ^ 32 → page_align len ≡ u32 ((len + 2 ^ 12 - 1) / 2 ^ 12 * 2 ^ 12)
unfolding page_align
page_align_lem len small =
    let x = add32 len 0xfff in
    omega (arith, bit_and-split 32 x 0xfff (omega arith) (omega arith), bit_and_low 12 x)

pub page_align-lt : (len : ℕ) → page_align len < 2 ^ 32
unfolding page_align
page_align-lt len =
    let x = add32 len 0xfff in omega (arith, bit_and-split 32 x 0xfff (omega arith) (omega arith))

-- `brk` returns the break, which moves to the address that is asked for when that is not below the
-- present break and inside memory, and stays otherwise. Of memory it changes at most the 8 bytes
-- from the old break.
pub sys_brk_lem :
    (host : Host) (new_brk : ℕ) (s : Machine)
    → new_brk < 2 ^ 32
    → s.mem.size ≤ 2 ^ 32
    → Returns
        (λ r t.
          (r ≡ t.brk)
          × (t.brk ≡ (
              if leb s.brk new_brk && ltb new_brk s.mem.size && not (new_brk == 0)
              then new_brk
              else s.brk))
          × ((a : ℕ) → (a < s.brk) ⊎ (s.brk + 8 ≤ a) → t.mem.byte a ≡ s.mem.byte a))
        (run host (sys_brk new_brk) s)
unfolding run sys_brk apply mem_write32 check_bounds
sys_brk_lem host new_brk s small fits = ground arith

-- A machine whose `mmap` arena is in use: the pointer is in memory, and memory is smaller than the
-- address space and holds the 1 MB that the arena leaves free.
pub record HasArena (s : Machine) : Type 0 where
  pub addressable : s.mem.size < 2 ^ 32
  pub reserve : 2 ^ 20 ≤ s.mem.size
  pub started : 0 < s.mmap_ptr
  pub below : s.mmap_ptr < s.mem.size

-- An anonymous `mmap` without MAP_FIXED of a length that, rounded to pages, fits between the
-- arena's pointer and 1 MB below the end of memory: the call returns the pointer, moves it over
-- the region, zeroes the region and changes no other byte.
pub sys_mmap2-arena :
    (host : Host) (addr len prot flags pgoffset : ℕ) (s : Machine)
    → HasArena s
    → 0 < len
    → has_bit flags 4 ≡ false
    → s.mmap_ptr + page_align len ≤ s.mem.size - 2 ^ 20
    → Returns
        (λ r t.
          (r ≡ s.mmap_ptr)
          × (t.mmap_ptr ≡ s.mmap_ptr + page_align len)
          × ((a : ℕ) → s.mmap_ptr ≤ a → a < t.mmap_ptr → t.mem.byte a ≡ 0)
          × ((a : ℕ) → (a < s.mmap_ptr) ⊎ (t.mmap_ptr ≤ a) → t.mem.byte a ≡ s.mem.byte a))
        (run host (sys_mmap2 addr len prot flags (neg 1) pgoffset) s)
unfolding run sys_mmap2 apply guest_to_host check_bounds in_object fill_bytes
sys_mmap2-arena host addr len prot flags pgoffset s arena some_len not_fixed fits =
    ground (arith, page_align-lt len, arena.addressable, arena.reserve, arena.started, arena.below)

-- If the region would end in the last 1 MB or beyond, and below 2 ^ 32, the call fails with ENOMEM
-- and changes nothing.
pub sys_mmap2-enomem :
    (host : Host) (addr len prot flags pgoffset : ℕ) (s : Machine)
    → HasArena s
    → 0 < len
    → has_bit flags 4 ≡ false
    → s.mem.size - 2 ^ 20 < s.mmap_ptr + page_align len
    → s.mmap_ptr + page_align len < 2 ^ 32
    → run host (sys_mmap2 addr len prot flags (neg 1) pgoffset) s ≡ ok (neg enomem) s
unfolding run sys_mmap2 apply guest_to_host check_bounds in_object
sys_mmap2-enomem host addr len prot flags pgoffset s arena some_len not_fixed over under =
    ground (arith, page_align-lt len, arena.addressable, arena.reserve, arena.started, arena.below)

-- If the end of the region wraps at 2 ^ 32 to at most the limit, the check lets it pass and the run
-- is undefined: the region is zeroed past the end of memory.
pub sys_mmap2-undefined :
    (host : Host) (addr len prot flags pgoffset : ℕ) (s : Machine)
    → HasArena s
    → 0 < len
    → has_bit flags 4 ≡ false
    → 2 ^ 32 ≤ s.mmap_ptr + page_align len
    → s.mmap_ptr + page_align len - 2 ^ 32 ≤ s.mem.size - 2 ^ 20
    → run host (sys_mmap2 addr len prot flags (neg 1) pgoffset) s ≡ undefined
unfolding run sys_mmap2 apply guest_to_host check_bounds in_object fill_bytes
sys_mmap2-undefined host addr len prot flags pgoffset s arena some_len not_fixed wraps low =
    ground (arith, page_align-lt len, arena.addressable, arena.reserve, arena.started, arena.below)
