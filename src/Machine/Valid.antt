-- ===== src/Machine/Valid.antt =====
-- The invariant of the machine.
use fake_kernel.Prelude.{ℕ, ◌+◌, ◌<◌, ◌^◌, ◌≡◌, refl, arith, bit, ◌∷◌, [], List, ◌∙◌}
use fake_kernel.Mem.{Memory, mem_write8, mem_write16, mem_write32, copy_bytes, fill_bytes, poke}
use fake_kernel.Machine.Flags.{change_flag_reserved}
use fake_kernel.Machine.{
  HostCall, Machine, I386, Write, set_reg, set_eip, set_flag, halt, add_cycles, write8, write16,
  write32, write_host, fill_host, set_fpu_top, apply, apply_cpu,
}

-- The words fit their width, and bit 1 of EFLAGS is set.
pub record IsCpu (c : I386) : Type 0 where
  pub regs_fit : (i : ℕ) → c.regs i < 2 ^ 32
  pub eip_fits : c.eip < 2 ^ 32
  pub reserved : bit c.eflags 1 ≡ 1
  pub cycles_fit : c.cycles < 2 ^ 32

-- Writes keep the bytes in range and the size, at any address.
copy_bytes-lt :
    (bs : List ℕ) (d a : ℕ) (m : Memory)
    → ((b : ℕ) → m.byte b < 2 ^ 8)
    → (copy_bytes d bs m).byte a < 2 ^ 8
unfolding copy_bytes
copy_bytes-lt [] d a m h = h a
copy_bytes-lt (b ∷ bs) d a m h = copy_bytes-lt bs (d + 1) a (poke d b m) (λ c. ground (arith, h c))

copy_bytes-size : (bs : List ℕ) (d : ℕ) (m : Memory) → (copy_bytes d bs m).size ≡ m.size
unfolding copy_bytes
copy_bytes-size [] d m = refl
copy_bytes-size (b ∷ bs) d m = copy_bytes-size bs (d + 1) (poke d b m)

apply_cpu-IsCpu : (w : Write) (c : I386) → IsCpu c → IsCpu (apply_cpu w c)
unfolding apply_cpu
apply_cpu-IsCpu (set_reg i v) c h = record {
  regs_fit = λ j. ground (arith, h.regs_fit j);
  eip_fits = h.eip_fits;
  reserved = h.reserved;
  cycles_fit = h.cycles_fit;
}
apply_cpu-IsCpu (set_flag f b) c h = record {
  regs_fit = h.regs_fit;
  eip_fits = h.eip_fits;
  reserved = change_flag_reserved f b c.eflags ∙ h.reserved;
  cycles_fit = h.cycles_fit;
}
apply_cpu-IsCpu (set_eip v) c h = record {
  regs_fit = h.regs_fit;
  eip_fits = omega arith;
  reserved = h.reserved;
  cycles_fit = h.cycles_fit;
}
apply_cpu-IsCpu (add_cycles n) c h = record {
  regs_fit = h.regs_fit;
  eip_fits = h.eip_fits;
  reserved = h.reserved;
  cycles_fit = omega arith;
}
apply_cpu-IsCpu halt c h = record {
  regs_fit = h.regs_fit;
  eip_fits = h.eip_fits;
  reserved = h.reserved;
  cycles_fit = h.cycles_fit;
}
apply_cpu-IsCpu _ c h = h

-- The whole machine: the processor, the bytes of memory, its size, and the top of the x87 stack.
pub record IsMachine (size : ℕ) (s : Machine) : Type 0 where
  pub cpu : IsCpu s.cpu
  pub bytes : (a : ℕ) → s.mem.byte a < 2 ^ 8
  pub same_size : s.mem.size ≡ size
  pub top : s.fpu_top < 8

module _ (size : ℕ) (m : Memory) (small : (a : ℕ) → m.byte a < 2 ^ 8) (same : m.size ≡ size) where
  write8-lt : (d v a : ℕ) → (mem_write8 d v m).byte a < 2 ^ 8
  unfolding mem_write8
  write8-lt d v a = ground (arith, small a)

  write16-lt : (d v a : ℕ) → (mem_write16 d v m).byte a < 2 ^ 8
  unfolding mem_write16
  write16-lt d v a = ground (arith, small a)

  write32-lt : (d v a : ℕ) → (mem_write32 d v m).byte a < 2 ^ 8
  unfolding mem_write32
  write32-lt d v a = ground (arith, small a)

  fill-lt : (d n v a : ℕ) → (fill_bytes d n v m).byte a < 2 ^ 8
  unfolding fill_bytes
  fill-lt d n v a = ground (arith, small a)

  sizes :
      (d v n : ℕ)
      → ((mem_write8 d v m).size ≡ size)
        × ((mem_write16 d v m).size ≡ size)
        × ((mem_write32 d v m).size ≡ size)
        × ((fill_bytes d n v m).size ≡ size)
  unfolding mem_write8 mem_write16 mem_write32 fill_bytes
  sizes d v n = ground arith

module _ {size : ℕ} (s : Machine) (h : IsMachine size s) where
  with_mem :
      (m : Memory)
      → ((a : ℕ) → m.byte a < 2 ^ 8)
      → m.size ≡ size
      → IsMachine size (record s { mem = m })
  with_mem m small same = record { cpu = h.cpu; bytes = small; same_size = same; top = h.top }

  with_cpu : (c : I386) → IsCpu c → IsMachine size (record s { cpu = c })
  with_cpu c v = record { cpu = v; bytes = h.bytes; same_size = h.same_size; top = h.top }

-- Every assignment keeps the invariant.
pub apply-IsMachine :
    {size : ℕ} (w : Write) (s : Machine) → IsMachine size s → IsMachine size (apply w s)
unfolding apply
apply-IsMachine {size} (write8 a v) s h =
    with_mem s h _ (write8-lt size s.mem h.bytes h.same_size a v)
      (sizes size s.mem h.bytes h.same_size a v 0).0
apply-IsMachine {size} (write16 a v) s h =
    with_mem s h _ (write16-lt size s.mem h.bytes h.same_size a v)
      (sizes size s.mem h.bytes h.same_size a v 0).1
apply-IsMachine {size} (write32 a v) s h =
    with_mem s h _ (write32-lt size s.mem h.bytes h.same_size a v)
      (sizes size s.mem h.bytes h.same_size a v 0).2
apply-IsMachine {size} (fill_host a n v) s h =
    with_mem s h _ (fill-lt size s.mem h.bytes h.same_size a n v)
      (sizes size s.mem h.bytes h.same_size a v n).3
apply-IsMachine (write_host a bs) s h =
    with_mem s h _ (λ b. copy_bytes-lt bs a b s.mem h.bytes)
      (copy_bytes-size bs a s.mem ∙ h.same_size)
apply-IsMachine (set_fpu_top v) s h = record {
  cpu = h.cpu;
  bytes = h.bytes;
  same_size = h.same_size;
  top = omega arith;
}
apply-IsMachine w s h = record {
  cpu = apply_cpu-IsCpu w s.cpu h.cpu;
  bytes = h.bytes;
  same_size = h.same_size;
  top = h.top;
}

-- The record of host calls is not part of it.
pub IsMachine-trace :
    {size : ℕ} (s : Machine) (c : HostCall)
    → IsMachine size s
    → IsMachine size (record s { trace = c ∷ s.trace })
IsMachine-trace s c h = record {
  cpu = h.cpu;
  bytes = h.bytes;
  same_size = h.same_size;
  top = h.top;
}
