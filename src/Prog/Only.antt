-- ===== src/Prog/Only.antt =====
-- Programs whose assignments are all of one kind, built up by rules that `search` applies, and what
-- their runs keep.
use fake_kernel.Prelude.{ℕ, Bool, true, false, if◌then◌else◌, ◌≡◌, refl, ◌∷◌}
use fake_kernel.Machine.{Machine, Write, HostCall, apply}
use fake_kernel.Prog.{Prog, ret, get, put, host_call, exit, HostReply, Host, run, ◌>>=◌}
use fake_kernel.Prog.Total.{NoFuel, at_ret, at_get, at_put, at_call, at_exit, at_undefined}
use fake_kernel.Prog.Valid.{Ends}

pub data Only (kind : Write → Type 0) {A : Type 0} : Prog A → Type 0 where
  only_ret : (a : A) → Only kind (ret a)
  only_get : (k : Machine → Prog A) → ((s : Machine) → Only kind (k s)) → Only kind (get k)
  only_put : (w : Write) (p : Prog A) → kind w → Only kind p → Only kind (put w p)
  only_call :
      (c : HostCall) (k : HostReply → Prog A)
      → ((r : HostReply) → Only kind (k r))
      → Only kind (host_call c k)
  only_exit : (n : ℕ) → Only kind (exit n)
  only_undefined : Only kind Prog.undefined

module _ (kind : Write → Type 0) where
  pub Only-bind :
      {A B : Type 0} (p : Prog A) (f : A → Prog B)
      → Only kind p
      → ((a : A) → Only kind (f a))
      → Only kind (p >>= f)
  Only-bind p f (only_ret a) h = h a
  Only-bind p f (only_get k g) h = only_get _ (λ s. Only-bind (k s) f (g s) h)
  Only-bind p f (only_put w q o g) h = only_put w _ o (Only-bind q f g h)
  Only-bind p f (only_call c k g) h = only_call c _ (λ r. Only-bind (k r) f (g r) h)
  Only-bind p f (only_exit n) h = only_exit n
  Only-bind p f only_undefined h = only_undefined

  pub Only-if :
      {A : Type 0} (b : Bool) (p q : Prog A)
      → Only kind p
      → Only kind q
      → Only kind (if b then p else q)
  Only-if true p q h k = h
  Only-if false p q h k = k

  -- A branch that is taken only when the test fails may use that.
  pub Only-else :
      {A : Type 0} (b : Bool) (p q : Prog A)
      → Only kind p
      → (b ≡ false → Only kind q)
      → Only kind (if b then p else q)
  Only-else true p q h k = h
  Only-else false p q h k = k refl

  pub Only-NoFuel : {A : Type 0} (p : Prog A) → Only kind p → NoFuel p
  Only-NoFuel p (only_ret a) = at_ret a
  Only-NoFuel p (only_get k h) = at_get k (λ s. Only-NoFuel (k s) (h s))
  Only-NoFuel p (only_put w q o h) = at_put w q (Only-NoFuel q h)
  Only-NoFuel p (only_call c k h) = at_call c k (λ r. Only-NoFuel (k r) (h r))
  Only-NoFuel p (only_exit n) = at_exit n
  Only-NoFuel p only_undefined = at_undefined

  -- A relation that assignments of the kind and host calls stay in holds from start to end.
  pub Only-Ends :
      {A : Type 0} (R : Machine → Type 0)
      → ((w : Write) (s : Machine) → kind w → R s → R (apply w s))
      → ((s : Machine) (c : HostCall) → R s → R (record s { trace = c ∷ s.trace }))
      → (host : Host) (p : Prog A) (s : Machine) → Only kind p
      → R s
      → Ends R (run host p s)
  unfolding run
  Only-Ends R by_write by_trace host p s (only_ret a) h = h
  Only-Ends R by_write by_trace host p s (only_get k o) h =
      Only-Ends R by_write by_trace host (k s) s (o s) h
  Only-Ends R by_write by_trace host p s (only_put w q good o) h =
      Only-Ends R by_write by_trace host q (apply w s) o (by_write w s good h)
  Only-Ends R by_write by_trace host p s (only_call c k o) h =
      Only-Ends R by_write by_trace host (k (host s.trace c)) (record s { trace = c ∷ s.trace })
        (o (host s.trace c)) (by_trace s c h)
  Only-Ends R by_write by_trace host p s (only_exit n) h = h
  Only-Ends R by_write by_trace host p s only_undefined h = tt

pub ruleset only_rules =
    (Only-bind, only_ret, only_get, only_put, only_call, only_exit, only_undefined, Only-if)
