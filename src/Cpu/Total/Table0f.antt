-- ===== src/Cpu/Total/Table0f.antt =====
-- Properties of all handlers of a table, and fuel behind 0x0F (`opcode_table_0f` of
-- src/cpu/ops.c).
use fake_kernel.Prelude.{ℕ, Bool, true, false, if◌then◌else◌, leb, ◌==◌, ◌&&◌, List, [], ◌∷◌}
use fake_kernel.Prog.Total.{NoFuel}
use fake_kernel.Cpu.Table.{Handler, Entry, slot, slots, fill, fill_all}
use fake_kernel.Cpu.Table0f.{entries_0f, opcode_table_0f}
use fake_kernel.Cpu.Total.Arithmetic.{MulDiv_total, Shift_total}
use fake_kernel.Cpu.Total.Data.{Move_total, System_total}
use fake_kernel.Cpu.Total.Media.{SseMove_total, Sse_total}
use fake_kernel.Cpu.Total.Pieces.{Condition_total}

-- A property of the handler of every entry.
infixr 5 ◌&◌ ◌&&&◌
pub data OfEntries (P : Handler → Type 0) : List Entry → Type 0 where
  no_entries : OfEntries P []
  ◌&◌ : {i : ℕ} {h : Handler} {es : List Entry} → P h → OfEntries P es → OfEntries P (slot i h ∷ es)
  ◌&&&◌ :
      {lo hi : ℕ} {h : Handler} {es : List Entry}
      → P h
      → OfEntries P es
      → OfEntries P (slots lo hi h ∷ es)

choose_handler :
    (P : Handler → Type 0) (b : Bool) (h k : Handler) → P h → P k → P (if b then h else k)
choose_handler P true h k here rest = here
choose_handler P false h k here rest = rest

-- A property of all handlers of the entries and of the table before is one of the table after.
pub OfEntries-fill_all :
    (P : Handler → Type 0) (es : List Entry) (table : ℕ → Handler)
    → OfEntries P es
    → ((op : ℕ) → P (table op))
    → (op : ℕ) → P (fill_all es table op)
unfolding fill_all fill
OfEntries-fill_all P [] table no_entries before op = before op
OfEntries-fill_all P (slot i h ∷ es) table (here & rest) before op =
    OfEntries-fill_all P es (fill (slot i h) table) rest
      (λ j. choose_handler P (j == i) h (table j) here (before j)) op
OfEntries-fill_all P (slots lo hi h ∷ es) table (here &&& rest) before op =
    OfEntries-fill_all P es (fill (slots lo hi h) table) rest
      (λ j. choose_handler P (leb lo j && leb j hi) h (table j) here (before j)) op

abbrev IsTotal : Handler → Type 0
IsTotal h = (op : ℕ) → NoFuel (h op)

entries_0f-IsTotal : OfEntries IsTotal entries_0f
unfolding entries_0f
entries_0f-IsTotal =
    (λ op. (Sse_total op).0)
    & (λ op. (Sse_total op).1)
    & (λ op. (Sse_total op).2)
    & (λ op. (Sse_total op).3)
    & (λ op. (Condition_total op).0)
    &&& (λ op. (Sse_total op).4)
    & (λ op. (Sse_total op).5)
    & (λ op. (Sse_total op).6)
    & (λ op. (Sse_total op).7)
    & (λ op. (Sse_total op).8)
    & (λ op. (SseMove_total op).0)
    & (λ op. (SseMove_total op).1)
    & (λ op. (SseMove_total op).2)
    & (λ op. (SseMove_total op).3)
    & (λ op. (SseMove_total op).4)
    & (λ op. (SseMove_total op).5)
    & (λ op. (Condition_total op).1)
    &&& (λ op. (Condition_total op).2)
    &&& (λ op. (System_total op).7)
    & (λ op. (Shift_total op).6)
    & (λ op. (MulDiv_total op).0)
    & (λ op. (Move_total op).0)
    & (λ op. (Move_total op).1)
    & (λ op. (Move_total op).2)
    & (λ op. (Move_total op).3)
    & (λ op. (Move_total op).4)
    & (λ op. (SseMove_total op).6)
    & (λ op. (SseMove_total op).7)
    & (λ op. (SseMove_total op).8)
    & no_entries

pub opcode_table_0f-NoFuel : (op2 op : ℕ) → NoFuel (opcode_table_0f op2 op)
unfolding opcode_table_0f
opcode_table_0f-NoFuel op2 =
    OfEntries-fill_all IsTotal entries_0f _ entries_0f-IsTotal (λ _. λ op. (System_total op).1) op2
