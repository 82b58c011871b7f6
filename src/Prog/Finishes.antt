-- ===== src/Prog/Finishes.antt =====
-- Runs that do not end for want of fuel.
use fake_kernel.Prelude.{Bool, true, false, if◌then◌else◌, ◌≡◌, refl, ◌∷◌}
use fake_kernel.Machine.{Machine, apply}
use fake_kernel.Prog.{Prog, Host, Run, ok, exited, run, run->>=, and_then, ◌>>=◌}
use fake_kernel.Prog.Valid.{Returns}
use fake_kernel.Prog.Total.{NoFuel, at_ret, at_get, at_put, at_call, at_exit, at_undefined}

abbrev pub Finishes : {A : Type 0} → Run A → Type 0
Finishes (ok a s) = Unit
Finishes (exited n s) = Unit
Finishes Run.undefined = Unit
Finishes Run.out_of_fuel = ⊥

pub NoFuel-Finishes :
    {A : Type 0} (host : Host) (p : Prog A) (s : Machine) → NoFuel p → Finishes (run host p s)
unfolding run
NoFuel-Finishes host p s (at_ret a) = tt
NoFuel-Finishes host p s (at_get k h) = NoFuel-Finishes host (k s) s (h s)
NoFuel-Finishes host p s (at_put w q h) = NoFuel-Finishes host q (apply w s) h
NoFuel-Finishes host p s (at_call c k h) =
    NoFuel-Finishes host (k (host s.trace c)) (record s { trace = c ∷ s.trace })
      (h (host s.trace c))
NoFuel-Finishes host p s (at_exit n) = tt
NoFuel-Finishes host p s at_undefined = tt

and_then-Finishes :
    {A B : Type 0} (r : Run A) (k : A → Machine → Run B)
    → Finishes r
    → ((a : A) (t : Machine) → Finishes (k a t))
    → Finishes (and_then r k)
and_then-Finishes (ok a t) k h second = second a t
and_then-Finishes (exited n t) k h second = tt
and_then-Finishes Run.undefined k h second = tt
and_then-Finishes Run.out_of_fuel k h second = absurd h

-- A sequence finishes when its first part does, and its second from every state.
pub Finishes->>= :
    {A B : Type 0} (host : Host) (p : Prog A) (f : A → Prog B) (s : Machine)
    → Finishes (run host p s)
    → ((a : A) (t : Machine) → Finishes (run host (f a) t))
    → Finishes (run host (p >>= f) s)
Finishes->>= host p f s first second =
    rw (run->>= host p f s) (and_then-Finishes (run host p s) (λ a. run host (f a)) first second)

and_then-Returns-Finishes :
    {A B : Type 0} (P : A → Machine → Type 0) (r : Run A) (k : A → Machine → Run B)
    → Returns P r
    → ((a : A) (t : Machine) → P a t → Finishes (k a t))
    → Finishes (and_then r k)
and_then-Returns-Finishes P (ok a t) k h second = second a t h
and_then-Returns-Finishes P (exited n t) k h second = absurd h
and_then-Returns-Finishes P Run.undefined k h second = absurd h
and_then-Returns-Finishes P Run.out_of_fuel k h second = absurd h

-- The same where the first part returns in a state of which something is known.
pub Returns-Finishes->>= :
    {A B : Type 0} (P : A → Machine → Type 0) (host : Host) (p : Prog A) (f : A → Prog B)
    (s : Machine)
    → Returns P (run host p s)
    → ((a : A) (t : Machine) → P a t → Finishes (run host (f a) t))
    → Finishes (run host (p >>= f) s)
Returns-Finishes->>= P host p f s first second =
    rw (run->>= host p f s)
      (and_then-Returns-Finishes P (run host p s) (λ a. run host (f a)) first second)

pub Finishes-if :
    {A : Type 0} (host : Host) (b : Bool) (p q : Prog A) (s : Machine)
    → (b ≡ true → Finishes (run host p s))
    → (b ≡ false → Finishes (run host q s))
    → Finishes (run host (if b then p else q) s)
Finishes-if host true p q s h k = h refl
Finishes-if host false p q s h k = k refl
