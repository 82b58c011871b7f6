-- ===== src/Prog/Memory.antt =====
-- Programs whose only assignments are to guest memory, built up by rules that `search` applies.
use fake_kernel.Prelude.{ℕ, Bool, true, false, if◌then◌else◌, ◌≡◌, refl, List}
use fake_kernel.Machine.{Machine, write8, write32, write_host, apply}
use fake_kernel.Prog.{Prog, ret, get, put, Host, run, ◌>>=◌}
use fake_kernel.Prog.Valid.{Returns}

pub data MemoryOnly {A : Type 0} : Prog A → Type 0 where
  by_ret : (a : A) → MemoryOnly (ret a)
  by_get : (k : Machine → Prog A) → ((s : Machine) → MemoryOnly (k s)) → MemoryOnly (get k)
  by_write8 : (a v : ℕ) (p : Prog A) → MemoryOnly p → MemoryOnly (put (write8 a v) p)
  by_write32 : (a v : ℕ) (p : Prog A) → MemoryOnly p → MemoryOnly (put (write32 a v) p)
  by_copy : (a : ℕ) (bs : List ℕ) (p : Prog A) → MemoryOnly p → MemoryOnly (put (write_host a bs) p)

pub by_bind :
    {A B : Type 0} (p : Prog A) (f : A → Prog B)
    → MemoryOnly p
    → ((a : A) → MemoryOnly (f a))
    → MemoryOnly (p >>= f)
by_bind p f (by_ret a) h = h a
by_bind p f (by_get k g) h = by_get _ (λ s. by_bind (k s) f (g s) h)
by_bind p f (by_write8 a v q g) h = by_write8 a v _ (by_bind q f g h)
by_bind p f (by_write32 a v q g) h = by_write32 a v _ (by_bind q f g h)
by_bind p f (by_copy a bs q g) h = by_copy a bs _ (by_bind q f g h)

pub by_if :
    {A : Type 0} (b : Bool) (p q : Prog A)
    → MemoryOnly p
    → MemoryOnly q
    → MemoryOnly (if b then p else q)
by_if true p q h k = h
by_if false p q h k = k

pub ruleset memory_only = (by_bind, by_ret, by_get, by_write8, by_write32, by_copy, by_if)

-- All but guest memory is as it was.
abbrev pub OnlyMemory : Machine → Machine → Type 0
OnlyMemory s t = t ≡ record s { mem = t.mem }

-- Such a program returns, with all but guest memory as before.
pub MemoryOnly-run :
    {A : Type 0} (host : Host) (p : Prog A) (s : Machine)
    → MemoryOnly p
    → Returns (λ _ t. OnlyMemory s t) (run host p s)
unfolding run apply
MemoryOnly-run host p s (by_ret a) = refl
MemoryOnly-run host p s (by_get k h) = MemoryOnly-run host (k s) s (h s)
MemoryOnly-run host p s (by_write8 a v q h) = MemoryOnly-run host q (apply (write8 a v) s) h
MemoryOnly-run host p s (by_write32 a v q h) = MemoryOnly-run host q (apply (write32 a v) s) h
MemoryOnly-run host p s (by_copy a bs q h) = MemoryOnly-run host q (apply (write_host a bs) s) h
