-- ===== src/Prog/Answers.antt =====
-- Programs that never exit and whose assignments are all of one kind, built up by rules that
-- `search` applies.
use fake_kernel.Prelude.{Bool, true, false, if◌then◌else◌, ◌≡◌, refl, ◌∷◌}
use fake_kernel.Machine.{Machine, Write, HostCall, apply}
use fake_kernel.Prog.{
  Prog, ret, get, put, host_call, HostReply, Host, Run, ok, exited, run, and_then, ◌>>=◌, run->>=,
}
use mathlib.Core.Path.{subst, sym}
use fake_kernel.Prog.Only.{Only, only_ret, only_get, only_put, only_call, only_undefined}

pub data Answers (kind : Write → Type 0) {A : Type 0} : Prog A → Type 0 where
  answer_ret : (a : A) → Answers kind (ret a)
  answer_get : (k : Machine → Prog A) → ((s : Machine) → Answers kind (k s)) → Answers kind (get k)
  answer_put : (w : Write) (p : Prog A) → kind w → Answers kind p → Answers kind (put w p)
  answer_call :
      (c : HostCall) (k : HostReply → Prog A)
      → ((r : HostReply) → Answers kind (k r))
      → Answers kind (host_call c k)
  answer_undefined : Answers kind Prog.undefined

-- `P` holds of what a run returns and of the state in which it does. It may be undefined, but it
-- does not exit and has fuel enough.
abbrev pub Performs : {A : Type 0} → (A → Machine → Type 0) → Run A → Type 0
Performs P (ok a s) = P a s
Performs P (exited n s) = ⊥
Performs P Run.undefined = Unit
Performs P Run.out_of_fuel = ⊥

-- Either branch, with what the test then says.
pub Performs-if :
    {A : Type 0} (P : A → Machine → Type 0) (host : Host) (b : Bool) (p q : Prog A) (s : Machine)
    → (b ≡ true → Performs P (run host p s))
    → (b ≡ false → Performs P (run host q s))
    → Performs P (run host (if b then p else q) s)
Performs-if P host true p q s h k = h refl
Performs-if P host false p q s h k = k refl

pub Performs->>= :
    {A B : Type 0} (P : A → Machine → Type 0) (Q : B → Machine → Type 0) (host : Host) (p : Prog A)
    (f : A → Prog B) (s : Machine)
    → Performs P (run host p s)
    → ((a : A) (t : Machine) → P a t → Performs Q (run host (f a) t))
    → Performs Q (run host (p >>= f) s)
Performs->>= {A = A} P Q host p f s first second =
    subst (Performs Q) (sym (run->>= host p f s)) (after (run host p s) first)
  where
    after : (r : Run A) → Performs P r → Performs Q (and_then r (λ a. run host (f a)))
    after (ok a t) h = second a t h
    after (exited n t) h = absurd h
    after Run.undefined h = tt
    after Run.out_of_fuel h = absurd h

pub Performs-map :
    {A : Type 0} (P Q : A → Machine → Type 0) (r : Run A)
    → ((a : A) (t : Machine) → P a t → Q a t)
    → Performs P r
    → Performs Q r
Performs-map P Q (ok a t) f h = f a t h
Performs-map P Q (exited n t) f h = absurd h
Performs-map P Q Run.undefined f h = tt
Performs-map P Q Run.out_of_fuel f h = absurd h

pub Performs-both :
    {A : Type 0} (P Q : A → Machine → Type 0) (r : Run A)
    → Performs P r
    → Performs Q r
    → Performs (λ a t. P a t × Q a t) r
Performs-both P Q (ok a t) h k = (h, k)
Performs-both P Q (exited n t) h k = absurd h
Performs-both P Q Run.undefined h k = tt
Performs-both P Q Run.out_of_fuel h k = absurd h

module _ (kind : Write → Type 0) where
  pub Answers-bind :
      {A B : Type 0} (p : Prog A) (f : A → Prog B)
      → Answers kind p
      → ((a : A) → Answers kind (f a))
      → Answers kind (p >>= f)
  Answers-bind p f (answer_ret a) h = h a
  Answers-bind p f (answer_get k g) h = answer_get _ (λ s. Answers-bind (k s) f (g s) h)
  Answers-bind p f (answer_put w q o g) h = answer_put w _ o (Answers-bind q f g h)
  Answers-bind p f (answer_call c k g) h = answer_call c _ (λ r. Answers-bind (k r) f (g r) h)
  Answers-bind p f answer_undefined h = answer_undefined

  pub Answers-if :
      {A : Type 0} (b : Bool) (p q : Prog A)
      → Answers kind p
      → Answers kind q
      → Answers kind (if b then p else q)
  Answers-if true p q h k = h
  Answers-if false p q h k = k

  -- Such a program is one of the assignments of any larger kind.
  pub Answers-Only :
      {A : Type 0} (larger : Write → Type 0)
      → ((w : Write) → kind w → larger w)
      → (p : Prog A) → Answers kind p
      → Only larger p
  Answers-Only larger f p (answer_ret a) = only_ret a
  Answers-Only larger f p (answer_get k h) = only_get k (λ s. Answers-Only larger f (k s) (h s))
  Answers-Only larger f p (answer_put w q o h) = only_put w q (f w o) (Answers-Only larger f q h)
  Answers-Only larger f p (answer_call c k h) =
      only_call c k (λ r. Answers-Only larger f (k r) (h r))
  Answers-Only larger f p answer_undefined = only_undefined

  -- A relation that assignments of the kind and host calls stay in holds where the run returns.
  pub Answers-Performs :
      {A : Type 0} (R : Machine → Type 0)
      → ((w : Write) (s : Machine) → kind w → R s → R (apply w s))
      → ((s : Machine) (c : HostCall) → R s → R (record s { trace = c ∷ s.trace }))
      → (host : Host) (p : Prog A) (s : Machine) → Answers kind p
      → R s
      → Performs (λ _ t. R t) (run host p s)
  unfolding run
  Answers-Performs R by_write by_trace host p s (answer_ret a) h = h
  Answers-Performs R by_write by_trace host p s (answer_get k o) h =
      Answers-Performs R by_write by_trace host (k s) s (o s) h
  Answers-Performs R by_write by_trace host p s (answer_put w q good o) h =
      Answers-Performs R by_write by_trace host q (apply w s) o (by_write w s good h)
  Answers-Performs R by_write by_trace host p s (answer_call c k o) h =
      Answers-Performs R by_write by_trace host (k (host s.trace c))
        (record s { trace = c ∷ s.trace }) (o (host s.trace c)) (by_trace s c h)
  Answers-Performs R by_write by_trace host p s answer_undefined h = tt

pub ruleset answers =
    (Answers-bind, answer_ret, answer_get, answer_put, answer_call, answer_undefined, Answers-if)
