-- ===== src/Prog/Total.antt =====
-- Programs that have no way to run out of fuel, built up by rules that `search` applies.
use fake_kernel.Prelude.{ℕ, Bool, true, false, if◌then◌else◌}
use fake_kernel.Machine.{Machine, Write, HostCall}
use fake_kernel.Prog.{Prog, ret, get, put, host_call, exit, HostReply, ◌>>=◌}

pub data NoFuel {A : Type 0} : Prog A → Type 0 where
  at_ret : (a : A) → NoFuel (ret a)
  at_get : (k : Machine → Prog A) → ((s : Machine) → NoFuel (k s)) → NoFuel (get k)
  at_put : (w : Write) (p : Prog A) → NoFuel p → NoFuel (put w p)
  at_call :
      (c : HostCall) (k : HostReply → Prog A)
      → ((r : HostReply) → NoFuel (k r))
      → NoFuel (host_call c k)
  at_exit : (n : ℕ) → NoFuel (exit n)
  at_undefined : NoFuel Prog.undefined

pub at_bind :
    {A B : Type 0} (p : Prog A) (f : A → Prog B)
    → NoFuel p
    → ((a : A) → NoFuel (f a))
    → NoFuel (p >>= f)
at_bind p f (at_ret a) h = h a
at_bind p f (at_get k g) h = at_get _ (λ s. at_bind (k s) f (g s) h)
at_bind p f (at_put w q g) h = at_put w _ (at_bind q f g h)
at_bind p f (at_call c k g) h = at_call c _ (λ r. at_bind (k r) f (g r) h)
at_bind p f (at_exit n) h = at_exit n
at_bind p f at_undefined h = at_undefined

pub at_if :
    {A : Type 0} (b : Bool) (p q : Prog A) → NoFuel p → NoFuel q → NoFuel (if b then p else q)
at_if true p q h k = h
at_if false p q h k = k

pub ruleset no_fuel = (at_bind, at_ret, at_get, at_put, at_call, at_exit, at_undefined, at_if)
