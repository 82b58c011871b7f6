-- ===== src/Cpu.antt =====
-- What every opcode handler of src/cpu/ops.c is made of: registers, instruction fetch, memory,
-- the flags and the operands that a ModR/M byte names. The handlers are in the children.
pub mod Decode
pub mod Total
pub mod Registers
pub mod Add
pub mod Overflow
pub mod Flags
pub mod Sub
pub mod Logic
pub mod Group
pub mod Shift
pub mod Stack
pub mod Move
pub mod Branch
pub mod Strings
pub mod MulDiv
pub mod Sse
pub mod X87
pub mod System
pub mod Table
pub mod Table0f
pub mod Execute
pub mod Emulate
use fake_kernel.Prelude.{
  ℕ, ◌+◌, ◌-◌, ◌*◌, Bool, true, false, if◌then◌else◌, ltb, leb, ◌==◌, not, ◌&&◌, bit_and, bit_or,
  bit_xor, ◌<<<◌, ◌>>>◌, u8, u16, u32, not32, has_bit, add32, sext8, differs,
}
use fake_kernel.Mem.{mem_read8, mem_read16, mem_read32}
use fake_kernel.Machine.{
  reg_eax, Machine, XmmReg, Flag, cf, pf, zf, sf, of, flag_shift, set_reg, set_eip, set_flag, halt,
  add_cycles, write8, write16, write32,
}
use fake_kernel.Prog.{Prog, ret, undefined, gets, assign, ◌>>=◌, ◌>>◌}

-- `cpu->regs[i]` and the program counter.
abbrev pub get_reg : ℕ → Prog ℕ
get_reg i = gets (λ s. s.cpu.regs i)

abbrev pub put_reg : ℕ → ℕ → Prog (Unit {0})
put_reg i v = assign (set_reg i v)

abbrev pub get_eip : Prog ℕ
get_eip = gets (λ s. s.cpu.eip)

abbrev pub put_eip : ℕ → Prog (Unit {0})
put_eip v = assign (set_eip v)

abbrev pub cycles : ℕ → Prog (Unit {0})
cycles n = assign (add_cycles n)

-- `cpu->halted = 1`.
abbrev pub stop : Prog (Unit {0})
stop = assign halt

-- Guest memory, by the accessors of mem.c.
abbrev pub read8 : ℕ → Prog ℕ
read8 a = gets (λ s. mem_read8 a s.mem)

abbrev pub read16 : ℕ → Prog ℕ
read16 a = gets (λ s. mem_read16 a s.mem)

abbrev pub read32 : ℕ → Prog ℕ
read32 a = gets (λ s. mem_read32 a s.mem)

abbrev pub store8 : ℕ → ℕ → Prog (Unit {0})
store8 a v = assign (write8 a (u8 v))

abbrev pub store16 : ℕ → ℕ → Prog (Unit {0})
store16 a v = assign (write16 a (u16 v))

abbrev pub store32 : ℕ → ℕ → Prog (Unit {0})
store32 a v = assign (write32 a (u32 v))

-- `mem_read8(cpu->eip++)`, and the wider reads at `eip` with the step over them.
abbrev pub fetch8 : Prog ℕ
fetch8 = do e ← get_eip; put_eip (e + 1); read8 e

abbrev pub fetch16 : Prog ℕ
fetch16 = do e ← get_eip; v ← read16 e; put_eip (e + 2); ret v

abbrev pub fetch32 : Prog ℕ
fetch32 = do e ← get_eip; v ← read32 e; put_eip (e + 4); ret v

unfoldable pub set_cf : Bool → Prog (Unit {0})
set_cf b = assign (set_flag cf b)

-- Set when the low byte has an even number of ones.
unfoldable pub parity : ℕ → Bool
parity result =
    let b = u8 result in
    let b = bit_xor b (b >>> 4) in
    let b = bit_xor b (b >>> 2) in let b = bit_xor b (b >>> 1) in not (has_bit b 0)

unfoldable pub set_pf : ℕ → Prog (Unit {0})
unfolding parity
set_pf result = assign (set_flag pf (parity result))

unfoldable pub set_zf : ℕ → Prog (Unit {0})
set_zf result = assign (set_flag zf (result == 0))

unfoldable pub set_sf : ℕ → Prog (Unit {0})
set_sf result = assign (set_flag sf (has_bit result 31))

unfoldable pub overflow_add : ℕ → ℕ → ℕ → Bool
overflow_add a b result = not (bit_and (not32 (bit_xor a b)) (bit_xor a result) >>> 31 == 0)

unfoldable pub set_of_add : ℕ → ℕ → ℕ → Prog (Unit {0})
unfolding overflow_add
set_of_add a b result = assign (set_flag of (overflow_add a b result))

unfoldable pub overflow_sub : ℕ → ℕ → ℕ → Bool
overflow_sub a b result = not (bit_and (bit_xor a b) (bit_xor a result) >>> 31 == 0)

unfoldable pub set_of_sub : ℕ → ℕ → ℕ → Prog (Unit {0})
unfolding overflow_sub
set_of_sub a b result = assign (set_flag of (overflow_sub a b result))

-- `get_cf` to `get_of`: the value of a flag in `eflags`.
unfoldable pub flag : Flag → ℕ → Bool
unfolding flag_shift
flag f eflags = has_bit eflags (flag_shift f)

abbrev pub get_flag : Flag → Prog Bool
get_flag f = gets (λ s. flag f s.cpu.eflags)

-- Registers 0 to 3 are the low bytes AL CL DL BL, 4 to 7 the second bytes AH CH DH BH.
unfoldable pub get_reg8 : ℕ → Prog ℕ
get_reg8 reg =
    if ltb reg 4
    then (do v ← get_reg reg; ret (u8 v))
    else (do v ← get_reg (reg - 4); ret (u8 (v >>> 8)))

unfoldable pub set_reg8 : ℕ → ℕ → Prog (Unit {0})
set_reg8 reg val =
    if ltb reg 4
    then (do v ← get_reg reg; put_reg reg (bit_or (bit_and v 0xffff_ff00) val))
    else (do v ← get_reg (reg - 4); put_reg (reg - 4) (bit_or (bit_and v 0xffff_00ff) (val <<< 8)))

-- `(uint8_t)cpu->regs[REG_EAX]`.
abbrev pub get_al : Prog ℕ
get_al = do v ← get_reg reg_eax; ret (u8 v)
