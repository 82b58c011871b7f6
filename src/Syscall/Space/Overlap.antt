-- ===== src/Syscall/Space/Overlap.antt =====
-- The heap of `sys_brk` and the arena of `sys_mmap2` together (src/syscall/backend_win32.c).
use fake_kernel.Prelude.{ℕ, ◌+◌, ◌-◌, ◌^◌, ◌<◌, ◌≤◌, ◌≡◌, arith, false, has_bit}
use fake_kernel.Mem.{guest_to_host, check_bounds, mem_write32, fill_bytes}
use fake_kernel.Machine.{Machine, apply}
use fake_kernel.Prog.{Host, run, ◌>>=◌}
use fake_kernel.Prog.Valid.{Returns, Returns->>=, Returns-map}
use fake_kernel.Syscall.Host.{neg, in_object}
use fake_kernel.Syscall.Space.{page_align, sys_brk, sys_mmap2}
use fake_kernel.Syscall.Space.Laws.{HasArena, page_align-lt}

-- The break moves to an address that is in memory and not below it.
abbrev Moved : ℕ → Machine → Machine → Type 0
Moved new_brk s t = (t.brk ≡ new_brk) × (t.mmap_ptr ≡ s.mmap_ptr) × (t.mem.size ≡ s.mem.size)

sys_brk-Moved :
    (host : Host) (new_brk : ℕ) (s : Machine)
    → s.mem.size < 2 ^ 32
    → 0 < new_brk
    → s.brk ≤ new_brk
    → new_brk < s.mem.size
    → Returns (λ _ t. Moved new_brk s t) (run host (sys_brk new_brk) s)
unfolding run sys_brk apply mem_write32 check_bounds
sys_brk-Moved host new_brk s small positive up inside = ground arith

sys_mmap2-brk :
    (host : Host) (addr len prot flags pgoffset : ℕ) (s : Machine)
    → HasArena s
    → 0 < len
    → has_bit flags 4 ≡ false
    → s.mmap_ptr + page_align len ≤ s.mem.size - 2 ^ 20
    → Returns
        (λ r t.
          (r ≡ s.mmap_ptr)
          × (t.brk ≡ s.brk)
          × ((a : ℕ) → s.mmap_ptr ≤ a → a < s.mmap_ptr + page_align len → t.mem.byte a ≡ 0))
        (run host (sys_mmap2 addr len prot flags (neg 1) pgoffset) s)
unfolding run sys_mmap2 apply guest_to_host check_bounds in_object fill_bytes
sys_mmap2-brk host addr len prot flags pgoffset s arena some_len not_fixed fits =
    ground (arith, page_align-lt len, arena.addressable, arena.reserve, arena.started, arena.below)

-- `brk` grants an address above the arena's pointer, and an anonymous `mmap` that fits the arena
-- then hands out memory from below the break, and zeroes it.
pub sys_brk-sys_mmap2 :
    (host : Host) (new_brk addr len prot flags pgoffset : ℕ) (s : Machine)
    → HasArena s
    → s.brk ≤ new_brk
    → s.mmap_ptr < new_brk
    → new_brk < s.mem.size
    → 0 < len
    → has_bit flags 4 ≡ false
    → s.mmap_ptr + page_align len ≤ s.mem.size - 2 ^ 20
    → Returns
        (λ r t.
          (t.brk ≡ new_brk)
          × (r ≡ s.mmap_ptr)
          × (r < t.brk)
          × ((a : ℕ) → r ≤ a → a < r + page_align len → t.mem.byte a ≡ 0))
        (run host (sys_brk new_brk >>= λ _. sys_mmap2 addr len prot flags (neg 1) pgoffset) s)
sys_brk-sys_mmap2 host new_brk addr len prot flags pgoffset s arena up above inside some_len
      not_fixed fits =
    Returns->>= (λ _ t. Moved new_brk s t) _ host (sys_brk new_brk)
      (λ _. sys_mmap2 addr len prot flags (neg 1) pgoffset) s
      (sys_brk-Moved host new_brk s arena.addressable (omega arith) up inside)
      λ _ t moved.
        let there : HasArena t = record {
          addressable = omega (arith, moved, arena.addressable);
          reserve = omega (arith, moved, arena.reserve);
          started = omega (arith, moved, arena.started);
          below = omega (arith, moved, arena.below);
        } in
        Returns-map _ _ (run host (sys_mmap2 addr len prot flags (neg 1) pgoffset) t)
          (λ r u h. (
            omega (arith, h.1, moved),
            omega (arith, h.0, moved),
            omega (arith, h.0, h.1, moved, above),
            λ a from to. h.2 a (omega (arith, h.0)) (omega (arith, h.0)),
          ))
          (sys_mmap2-brk host addr len prot flags pgoffset t there some_len not_fixed
            (omega (arith, moved, fits)))
