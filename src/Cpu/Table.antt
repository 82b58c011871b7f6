-- ===== src/Cpu/Table.antt =====
-- The dispatch tables as `init_opcode_table` fills them (src/cpu/ops.c).
use fake_kernel.Prelude.{ℕ, if◌then◌else◌, leb, ◌==◌, ◌&&◌, List, [], ◌∷◌}
use fake_kernel.Prog.{Prog}

abbrev pub Handler : Type 0
Handler = ℕ → Prog (Unit {0})

-- One assignment, or one `for` loop of assignments, of `init_opcode_table`.
pub data Entry : Type 0 where
  slot : ℕ → Handler → Entry
  slots : ℕ → ℕ → Handler → Entry

unfoldable pub fill : Entry → (ℕ → Handler) → ℕ → Handler
fill (slot i h) table op = if op == i then h else table op
fill (slots lo hi h) table op = if leb lo op && leb op hi then h else table op

-- The assignments in their order: a later one wins.
unfoldable pub fill_all : List Entry → (ℕ → Handler) → ℕ → Handler
unfolding fill
fill_all [] table = table
fill_all (e ∷ es) table = fill_all es (fill e table)
