-- ===== src/Exec/Quiet.antt =====
-- Code that calls nothing, and code that makes just one call.
use undermoon_operator_old.Common.{ap, Bool, false, if◌then◌else◌, refl, true, ◌∷◌, ◌≡◌}
use undermoon_operator_old.Exec.{
  convert, Exec, from_result, map_error, perform, pure, State, throw, ◌>>=◌,
}
use undermoon_operator_old.Go.{err, GoError, ok, remote, RemoteError, Result}
use undermoon_operator_old.World.{Call, History}

pub record Quiet {E A : Type 0} (m : Exec E A) : Type 0 where
  pub at : (s : State) → (m s).1 ≡ s

-- `m` makes the call `c`, whatever comes back.
pub record Asks {E A : Type 0} (c : Call) (m : Exec E A) : Type 0 where
  pub at : (s : State) → (m s).1 ≡ record s { calls = c ∷ s.calls }

module _ {E A : Type 0} where
  pub Quiet-pure : (a : A) → Quiet (pure {E = E} a)
  unfolding pure
  Quiet-pure a = record { at = λ s. refl }

  pub Quiet-throw : (e : E) → Quiet (throw {A = A} e)
  unfolding throw
  Quiet-throw e = record { at = λ s. refl }

  pub Quiet-if :
      (test : Bool) (left right : Exec E A)
      → (test ≡ true → Quiet left)
      → (test ≡ false → Quiet right)
      → Quiet (if test then left else right)
  Quiet-if true left right yes_rule no_rule = yes_rule refl
  Quiet-if false left right yes_rule no_rule = no_rule refl

module _ {A B : Type 0} where
  answered :
      (r : Result RemoteError A) (f : A → Exec GoError B) (s : State)
      → ((a : A) → Quiet (f a))
      → ((from_result (convert remote r) >>= f) s).1 ≡ s
  unfolding ◌>>=◌
  answered (ok a) f s q = (q a).at s
  answered (err e) f s q = refl

  pub Asks-perform :
      (c : Call) (answer : History → Result RemoteError A) (f : A → Exec GoError B)
      → ((a : A) → Quiet (f a))
      → Asks c (perform c answer >>= f)
  unfolding ◌>>=◌
  Asks-perform c answer f q = record {
    at = λ s. answered (answer s.calls) f (record s { calls = c ∷ s.calls }) q;
  }

pub ruleset quiet_rules = (Quiet-pure, Quiet-throw, Quiet-if, Asks-perform)

-- A bind whose first part is known.
pub bind-ok :
    {E A B : Type 0} (m : Exec E A) (f : A → Exec E B) (s t : State) (a : A)
    → (m s).0 ≡ ok a
    → (m s).1 ≡ t
    → (m >>= f) s ≡ f a t
unfolding ◌>>=◌
bind-ok m f s t a e e' = rw (e, e') refl

pub bind-err :
    {E A B : Type 0} (m : Exec E A) (f : A → Exec E B) (s t : State) (x : E)
    → (m s).0 ≡ err x
    → (m s).1 ≡ t
    → (m >>= f) s ≡ (err x, t)
unfolding ◌>>=◌
bind-err m f s t x e e' = rw (e, e') refl

-- A run that succeeds, from its end back: its first part succeeded, and then the rest did.
pub record Ran {E A B : Type 0} (m : Exec E A) (f : A → Exec E B) (s : State) (b : B) : Type 0 where
  pub value : A
  pub first : (m s).0 ≡ ok value
  pub rest : (f value (m s).1).0 ≡ ok b
  pub whole : (m >>= f) s ≡ f value (m s).1

pub bind-Ran :
    {E A B : Type 0} (m : Exec E A) (f : A → Exec E B) (s : State) (b : B)
    → ((m >>= f) s).0 ≡ ok b
    → Ran m f s b
unfolding ◌>>=◌
bind-Ran {E} {A} {B} m f s b h = inspect (m s).0 refl
  where
    inspect : (r : Result E A) → (m s).0 ≡ r → Ran m f s b
    inspect (ok a) e = record { value = a; first = e; rest = rw e at h; whole = rw e refl }
    inspect (err x) e = let g = rw e at h in absurd (cc)

pub map_error-Ran :
    {E F A : Type 0} (f : E → F) (m : Exec E A) (s : State) (a : A)
    → (map_error f m s).0 ≡ ok a
    → ((m s).0 ≡ ok a) × ((map_error f m s).1 ≡ (m s).1)
unfolding map_error
map_error-Ran {E} {F} {A} f m s a h = (inspect (m s).0 h, refl)
  where
    inspect : (r : Result E A) → convert f r ≡ ok a → r ≡ ok a
    inspect (ok b) e = let p : b ≡ a = cc in ap ok p
    inspect (err x) e = absurd (cc)
