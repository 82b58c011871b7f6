-- ===== src/Cpu/Total.antt =====
-- Fuel in the parts of the handlers: flags, byte registers and operands (src/cpu/ops.c).
pub mod Pieces
pub mod Arithmetic
pub mod Data
pub mod Media
pub mod Loops
pub mod Table0f
pub mod Prefixes
pub mod Rounds
use fake_kernel.Prelude.{ℕ, Bool}
use fake_kernel.Machine.{XmmReg}
use fake_kernel.Prog.Total.{NoFuel, no_fuel}
use fake_kernel.Cpu.{set_cf, set_pf, set_zf, set_sf, set_of_add, set_of_sub, get_reg8, set_reg8}
use fake_kernel.Cpu.Decode.{
  ModRm, parse_disp, parse_modrm, resolve_rm_addr, read_rm8, write_rm8, read_rm16, write_rm16,
  read_rm32, write_rm32, read_xmm_src, write_xmm_dst,
}

pub set_cf-NoFuel : (b : Bool) → NoFuel (set_cf b)
unfolding set_cf
set_cf-NoFuel b = search no_fuel depth 40

pub set_pf-NoFuel : (r : ℕ) → NoFuel (set_pf r)
unfolding set_pf
set_pf-NoFuel r = search no_fuel depth 40

pub set_zf-NoFuel : (r : ℕ) → NoFuel (set_zf r)
unfolding set_zf
set_zf-NoFuel r = search no_fuel depth 40

pub set_sf-NoFuel : (r : ℕ) → NoFuel (set_sf r)
unfolding set_sf
set_sf-NoFuel r = search no_fuel depth 40

pub set_of_add-NoFuel : (a b r : ℕ) → NoFuel (set_of_add a b r)
unfolding set_of_add
set_of_add-NoFuel a b r = search no_fuel depth 40

pub set_of_sub-NoFuel : (a b r : ℕ) → NoFuel (set_of_sub a b r)
unfolding set_of_sub
set_of_sub-NoFuel a b r = search no_fuel depth 40

pub get_reg8-NoFuel : (r : ℕ) → NoFuel (get_reg8 r)
unfolding get_reg8
get_reg8-NoFuel r = search no_fuel depth 40

pub set_reg8-NoFuel : (r v : ℕ) → NoFuel (set_reg8 r v)
unfolding set_reg8
set_reg8-NoFuel r v = search no_fuel depth 40

pub parse_disp-NoFuel : (m : ModRm) → NoFuel (parse_disp m)
unfolding parse_disp
parse_disp-NoFuel m = search no_fuel depth 40

pub parse_modrm-NoFuel : NoFuel (parse_modrm)
unfolding parse_modrm
parse_modrm-NoFuel = search (no_fuel, parse_disp-NoFuel) depth 40

pub resolve_rm_addr-NoFuel : (m : ModRm) → NoFuel (resolve_rm_addr m)
unfolding resolve_rm_addr
resolve_rm_addr-NoFuel m = search no_fuel depth 40

pub read_rm8-NoFuel : (m : ModRm) → NoFuel (read_rm8 m)
unfolding read_rm8
read_rm8-NoFuel m = search (no_fuel, resolve_rm_addr-NoFuel, get_reg8-NoFuel) depth 40

pub read_rm16-NoFuel : (m : ModRm) → NoFuel (read_rm16 m)
unfolding read_rm16
read_rm16-NoFuel m = search (no_fuel, resolve_rm_addr-NoFuel) depth 40

pub read_rm32-NoFuel : (m : ModRm) → NoFuel (read_rm32 m)
unfolding read_rm32
read_rm32-NoFuel m = search (no_fuel, resolve_rm_addr-NoFuel) depth 40

pub write_rm8-NoFuel : (m : ModRm) (v : ℕ) → NoFuel (write_rm8 m v)
unfolding write_rm8
write_rm8-NoFuel m v = search (no_fuel, resolve_rm_addr-NoFuel, set_reg8-NoFuel) depth 40

pub write_rm16-NoFuel : (m : ModRm) (v : ℕ) → NoFuel (write_rm16 m v)
unfolding write_rm16
write_rm16-NoFuel m v = search (no_fuel, resolve_rm_addr-NoFuel) depth 40

pub write_rm32-NoFuel : (m : ModRm) (v : ℕ) → NoFuel (write_rm32 m v)
unfolding write_rm32
write_rm32-NoFuel m v = search (no_fuel, resolve_rm_addr-NoFuel) depth 40

pub read_xmm_src-NoFuel : (m : ModRm) → NoFuel (read_xmm_src m)
unfolding read_xmm_src
read_xmm_src-NoFuel m = search (no_fuel, resolve_rm_addr-NoFuel) depth 40

pub write_xmm_dst-NoFuel : (m : ModRm) (v : XmmReg) → NoFuel (write_xmm_dst m v)
unfolding write_xmm_dst
write_xmm_dst-NoFuel m v = search (no_fuel, resolve_rm_addr-NoFuel) depth 40

-- The rules for a handler.
pub ruleset parts = (
  no_fuel, set_cf-NoFuel, set_pf-NoFuel, set_zf-NoFuel, set_sf-NoFuel, set_of_add-NoFuel,
  set_of_sub-NoFuel, get_reg8-NoFuel, set_reg8-NoFuel, parse_disp-NoFuel, parse_modrm-NoFuel,
  resolve_rm_addr-NoFuel, read_rm8-NoFuel, read_rm16-NoFuel, read_rm32-NoFuel, write_rm8-NoFuel,
  write_rm16-NoFuel, write_rm32-NoFuel, read_xmm_src-NoFuel, write_xmm_dst-NoFuel,
)
