-- ===== src/Prog/Valid.antt =====
-- Properties of the state in which a run ends.
use fake_kernel.Prelude.{◌∷◌, Bool, true, false, if◌then◌else◌}
use fake_kernel.Machine.{Machine, Write, apply, HostCall}
use fake_kernel.Prog.{
  Prog, ret, get, put, host_call, exit, Run, ok, exited, run, Host, ◌>>=◌, run->>=, and_then,
}

-- `P` holds of the state in which a run returns or exits.
abbrev pub Ends : {A : Type 0} → (Machine → Type 0) → Run A → Type 0
Ends P (ok a s) = P s
Ends P (exited n s) = P s
Ends P Run.undefined = Unit
Ends P Run.out_of_fuel = Unit

-- A property that every assignment and every host call keeps holds where a run ends.
module _ (P : Machine → Type 0) (by_write : (w : Write) (s : Machine) → P s → P (apply w s))
    (by_trace : (s : Machine) (c : HostCall) → P s → P (record s { trace = c ∷ s.trace }))
    (host : Host) where
  pub run-Ends : {A : Type 0} (p : Prog A) (s : Machine) → P s → Ends P (run host p s)
  unfolding run
  run-Ends (ret a) s h = h
  run-Ends (get k) s h = run-Ends (k s) s h
  run-Ends (put w p) s h = run-Ends p (apply w s) (by_write w s h)
  run-Ends (host_call c k) s h =
      run-Ends (k (host s.trace c)) (record s { trace = c ∷ s.trace }) (by_trace s c h)
  run-Ends (exit n) s h = h
  run-Ends Prog.undefined s h = tt
  run-Ends Prog.out_of_fuel s h = tt

-- A run that returns, with what it returns and the state in which it does.
abbrev pub Returns : {A : Type 0} → (A → Machine → Type 0) → Run A → Type 0
Returns P (ok a s) = P a s
Returns P (exited n s) = ⊥
Returns P Run.undefined = ⊥
Returns P Run.out_of_fuel = ⊥

pub Returns-map :
    {A : Type 0} (P Q : A → Machine → Type 0) (r : Run A)
    → ((a : A) (s : Machine) → P a s → Q a s)
    → Returns P r
    → Returns Q r
Returns-map P Q (ok a s) f h = f a s h
Returns-map P Q (exited n s) f h = absurd h
Returns-map P Q Run.undefined f h = absurd h
Returns-map P Q Run.out_of_fuel f h = absurd h

and_then-Returns :
    {A B : Type 0} (P : A → Machine → Type 0) (Q : B → Machine → Type 0) (r : Run A)
    (k : A → Machine → Run B)
    → Returns P r
    → ((a : A) (t : Machine) → P a t → Returns Q (k a t))
    → Returns Q (and_then r k)
and_then-Returns P Q (ok a t) k h second = second a t h
and_then-Returns P Q (exited n t) k h second = absurd h
and_then-Returns P Q Run.undefined k h second = absurd h
and_then-Returns P Q Run.out_of_fuel k h second = absurd h

-- A sequence returns when its first part does, and its second from there.
pub Returns->>= :
    {A B : Type 0} (P : A → Machine → Type 0) (Q : B → Machine → Type 0) (host : Host) (p : Prog A)
    (f : A → Prog B) (s : Machine)
    → Returns P (run host p s)
    → ((a : A) (t : Machine) → P a t → Returns Q (run host (f a) t))
    → Returns Q (run host (p >>= f) s)
Returns->>= P Q host p f s first second =
    rw (run->>= host p f s) (and_then-Returns P Q (run host p s) (λ a. run host (f a)) first second)

pub Returns-if :
    {A : Type 0} (P : A → Machine → Type 0) (host : Host) (b : Bool) (p q : Prog A) (s : Machine)
    → Returns P (run host p s)
    → Returns P (run host q s)
    → Returns P (run host (if b then p else q) s)
Returns-if P host true p q s h k = h
Returns-if P host false p q s h k = k
