-- ===== src/Start/SetUp.antt =====
-- The state in which `main` enters the loop after a loaded program: break, thread-local storage and
-- `mmap` arena (src/main.c).
use fake_kernel.Prelude.{
  ℕ, ◌+◌, ◌-◌, ◌*◌, ◌/◌, ◌^◌, ◌≤◌, ◌<◌, ◌≡◌, ◌≢◌, ◌⊎◌, ap, ◌∙◌, arith, if◌then◌else◌, ltb, u32,
  add32,
}
use fake_kernel.Prelude.Widths.{bit_and-split}
use fake_kernel.Prelude.Bits.{bit_and_low}
use fake_kernel.Mem.{mem_read32}
use fake_kernel.Machine.{Machine, apply, apply_cpu, set_brk}
use fake_kernel.Prog.{Host, run}
use fake_kernel.Prog.Valid.{Returns, Returns->>=}
use fake_kernel.Syscall.Space.{init_brk, init_mmap_arena}
use fake_kernel.Start.{stub_addr, set_up_tls, set_up, mmap_arena_start}
use fake_kernel.Start.Tls.{set_up_tls_lem}

-- 192 MB, or the first multiple of 16 MB that a longer program leaves free.
abbrev pub arena_of : ℕ → ℕ
arena_of load_end =
    if ltb 0x0c00_0000 load_end then (load_end + 2 ^ 24 - 1) / 2 ^ 24 * 2 ^ 24 else 0x0c00_0000

mmap_arena_start_lem : (n : ℕ) → n ≤ 2 ^ 29 → u32 (mmap_arena_start n) ≡ arena_of n
unfolding mmap_arena_start
mmap_arena_start_lem n small =
    let x = add32 n 0x00ff_ffff in
    let low = bit_and_low 24 x in
    ground (arith, bit_and-split 32 x 0x00ff_ffff (omega arith) (omega arith), low)

-- Machine `m` is machine `t` after the set-up for a program that ends at `load_end`: GS leads to a
-- block 8 bytes behind the program's end, whose dwords are the stub's address but for its own
-- address in dwords 1 and 2 and 0xDEADBEEF in dword 5, the break is behind the block, the 1024 bytes
-- below the block are zeros, the other bytes are as in `t`, and so is all other state.
abbrev pub IsStarted : ℕ → Machine → Machine → Type 0
IsStarted load_end t m =
    let tls = load_end + 8 in
    (m ≡ record t {
      gs_base = tls;
      brk = load_end + 0x408;
      mmap_base = arena_of load_end;
      mmap_ptr = arena_of load_end;
      mem = record t.mem { byte = m.mem.byte };
    })
    × (mem_read32 tls m.mem ≡ stub_addr)
    × (mem_read32 (tls + 4) m.mem ≡ tls)
    × (mem_read32 (tls + 8) m.mem ≡ tls)
    × (mem_read32 (tls + 0x14) m.mem ≡ 0xdead_beef)
    × ((i : ℕ) → 3 ≤ i → i < 256 → i ≢ 5 → mem_read32 (tls + 4 * i) m.mem ≡ stub_addr)
    × ((x : ℕ) → tls ≤ x + 0x400 → x < tls → m.mem.byte x ≡ 0)
    × ((x : ℕ) → (x + 0x400 < tls) ⊎ (tls + 0x400 ≤ x) → m.mem.byte x ≡ t.mem.byte x)

pub set_up-IsStarted :
    (host : Host) (load_end : ℕ) (t : Machine)
    → t.mem.size ≡ 2 ^ 29
    → 0x400 ≤ load_end
    → load_end + 0x408 ≤ 2 ^ 29
    → Returns (λ _ m. IsStarted load_end t m) (run host (set_up load_end) t)
unfolding run set_up apply apply_cpu init_mmap_arena init_brk
set_up-IsStarted host load_end t size low inside =
    let s = apply (set_brk load_end) t in
    let arena = mmap_arena_start_lem load_end (omega arith) in
    let with_arena : Machine → Machine =
      λ x. record x { mmap_base = arena_of load_end; mmap_ptr = arena_of load_end } in
    Returns->>= _ (λ _ m. IsStarted load_end t m) host (set_up_tls load_end)
      (λ _. init_mmap_arena (mmap_arena_start load_end)) s
      (set_up_tls_lem load_end s (omega (arith, size)) low (omega (arith, size)) host)
      λ _ u (gs, brk, stub, own, own', mark, rest, zeros, outside, cpu, same). (
        ap (λ (a : ℕ). record u { mmap_base = a; mmap_ptr = a }) arena
            ∙ ap with_arena same
            ∙ ap
                (λ (g : ℕ).
                  with_arena (record t {
                    gs_base = g;
                    brk = u.brk;
                    mem = record t.mem { byte = u.mem.byte };
                  }))
                gs
            ∙ ap
                (λ (b : ℕ). with_arena (record t {
                  gs_base = load_end + 8;
                  brk = b;
                  mem = record t.mem { byte = u.mem.byte };
                }))
                brk,
        stub,
        own,
        own',
        mark,
        rest,
        zeros,
        outside,
      )
