-- ===== src/Exec/Rules.antt =====
-- What holds after a run, by one rule for each way to build one: a predicate of the state that is
-- kept, whatever the outcome, and a predicate of the errors that can come out.
use undermoon_operator_old.Common.{◌≡◌, refl, Bool, true, false, if◌then◌else◌}
use undermoon_operator_old.Go.{RemoteError, GoError, remote, Result, ok, err}
use undermoon_operator_old.World.{Call, History}
use undermoon_operator_old.Exec.{
  State, Exec, pure, throw, attempt, convert, from_result, map_error, of_remote, perform, ◌>>=◌,
}

pub record Keeps {E A : Type 0} (P : State → Type 0) (m : Exec E A) : Type 0 where
  pub at : (s : State) → P s → P (m s).1

pub record Throws {E A : Type 0} (Q : E → Type 0) (m : Exec E A) : Type 0 where
  pub at : (s : State) (e : E) → (m s).0 ≡ err e → Q e

module _ {E A : Type 0} {P : State → Type 0} where
  pub Keeps-pure : (a : A) → Keeps P (pure {E = E} a)
  unfolding pure
  Keeps-pure a = record { at = λ s h. h }

  pub Keeps-throw : (e : E) → Keeps P (throw {A = A} e)
  unfolding throw
  Keeps-throw e = record { at = λ s h. h }

  pub Keeps-attempt : {F : Type 0} (m : Exec E A) → Keeps P m → Keeps P (attempt {F = F} m)
  unfolding attempt
  Keeps-attempt m k = record { at = λ s h. k.at s h }

  pub Keeps-from_result : (r : Result E A) → Keeps P (from_result r)
  unfolding from_result
  Keeps-from_result r = record { at = λ s h. h }

  pub Keeps-map_error :
      {F : Type 0} (f : E → F) (m : Exec E A) → Keeps P m → Keeps P (map_error f m)
  unfolding map_error
  Keeps-map_error f m k = record { at = λ s h. k.at s h }

  pub Keeps-if :
      (test : Bool) (left right : Exec E A)
      → (test ≡ true → Keeps P left)
      → (test ≡ false → Keeps P right)
      → Keeps P (if test then left else right)
  Keeps-if true left right yes_rule no_rule = yes_rule refl
  Keeps-if false left right yes_rule no_rule = no_rule refl

module _ {E A B : Type 0} {P : State → Type 0} where
  Keeps-next :
      (r : Result E A) (f : A → Exec E B) (s : State)
      → ((a : A) → Keeps P (f a))
      → P s
      → P ((from_result r >>= f) s).1
  unfolding ◌>>=◌
  Keeps-next (ok a) f s kf h = (kf a).at s h
  Keeps-next (err e) f s kf h = h

  -- One run after another.
  pub Keeps-bind :
      (first : Exec E A) (next : A → Exec E B)
      → Keeps P first
      → ((a : A) → Keeps P (next a))
      → Keeps P (first >>= next)
  unfolding ◌>>=◌
  Keeps-bind first next keeps_first keeps_next = record {
    at = λ s h. Keeps-next (first s).0 next (first s).1 keeps_next (keeps_first.at s h);
  }

pub Keeps-and :
    {E A : Type 0} {P Q : State → Type 0} (m : Exec E A)
    → Keeps P m
    → Keeps Q m
    → Keeps (λ s. P s × Q s) m
Keeps-and m k l = record { at = λ s (p, q). (k.at s p, l.at s q) }

pub Keeps-of_remote :
    {A : Type 0} {P : State → Type 0} (r : Result RemoteError A) → Keeps P (of_remote r)
unfolding of_remote
Keeps-of_remote r = record { at = λ s h. h }

pub ruleset keeps_rules = (
  Keeps-of_remote, Keeps-pure, Keeps-throw, Keeps-attempt, Keeps-from_result, Keeps-map_error,
  Keeps-if, Keeps-bind,
)

module _ {E A : Type 0} {Q : E → Type 0} where
  pub Throws-pure : (a : A) → Throws Q (pure {E = E} a)
  unfolding pure
  Throws-pure a = record { at = λ s e h. cc }

  pub Throws-throw : (e : E) → Q e → Throws Q (throw {A = A} e)
  unfolding throw
  Throws-throw e q = record { at = λ s e' h. let same : e ≡ e' = cc in rw same at q }

  pub Throws-attempt : {F : Type 0} (m : Exec F A) → Throws Q (attempt {F = E} m)
  unfolding attempt
  Throws-attempt m = record { at = λ s e h. cc }

  pub Throws-if :
      (test : Bool) (left right : Exec E A)
      → (test ≡ true → Throws Q left)
      → (test ≡ false → Throws Q right)
      → Throws Q (if test then left else right)
  Throws-if true left right yes_rule no_rule = yes_rule refl
  Throws-if false left right yes_rule no_rule = no_rule refl

Throws-convert :
    {A : Type 0} (Q : GoError → Type 0) (r : Result RemoteError A) (e : GoError)
    → ((x : RemoteError) → Q (remote x))
    → convert remote r ≡ err e
    → Q e
Throws-convert Q (ok a) e q h = cc
Throws-convert Q (err x) e q h = let same : remote x ≡ e = cc in rw same at (q x)

module _ {A : Type 0} {Q : GoError → Type 0} where
  pub Throws-perform :
      (c : Call) (answer : History → Result RemoteError A)
      → ((e : RemoteError) → Q (remote e))
      → Throws Q (perform c answer)
  unfolding perform
  Throws-perform c answer q = record { at = λ s e h. Throws-convert Q (answer s.calls) e q h }

  pub Throws-of_remote :
      (r : Result RemoteError A) → ((e : RemoteError) → Q (remote e)) → Throws Q (of_remote r)
  unfolding of_remote
  Throws-of_remote r q = record { at = λ s e h. Throws-convert Q r e q h }

module _ {E A B : Type 0} {Q : E → Type 0} where
  Throws-next :
      (r : Result E A) (f : A → Exec E B) (s : State) (e : E)
      → ((x : E) → r ≡ err x → Q x)
      → ((a : A) → Throws Q (f a))
      → ((from_result r >>= f) s).0 ≡ err e
      → Q e
  unfolding ◌>>=◌
  Throws-next (ok a) f s e kr kf h = (kf a).at s e h
  Throws-next (err x) f s e kr kf h = let same : x ≡ e = cc in rw same at (kr x refl)

  pub Throws-bind :
      (m : Exec E A) (f : A → Exec E B)
      → Throws Q m
      → ((a : A) → Throws Q (f a))
      → Throws Q (m >>= f)
  unfolding ◌>>=◌
  Throws-bind m f km kf = record {
    at = λ s e h. let (r, s') = m s in Throws-next r f s' e (km.at s) kf h;
  }

-- An error that is passed on through `f`.
pub Throws-map_error :
    {E F A : Type 0} {R : E → Type 0} {Q : F → Type 0} (f : E → F) (m : Exec E A)
    → Throws R m
    → ((e : E) → R e → Q (f e))
    → Throws Q (map_error f m)
unfolding map_error
Throws-map_error {E} {F} {A} {R} {Q} f m t q = record { at = λ s e h. mapped (m s).0 e (t.at s) h }
  where
    mapped : (r : Result E A) (e : F) → ((x : E) → r ≡ err x → R x) → convert f r ≡ err e → Q e
    mapped (ok a) e k h = cc
    mapped (err x) e k h = let same : f x ≡ e = cc in rw same at (q x (k x refl))

-- An error that the code looks at itself.
pub Throws-caught :
    {E F A B : Type 0} {R : F → Type 0} {Q : E → Type 0} (m : Exec F A) (f : Result F A → Exec E B)
    → Throws R m
    → ((a : A) → Throws Q (f (ok a)))
    → ((e : F) → R e → Throws Q (f (err e)))
    → Throws Q (attempt m >>= f)
unfolding attempt ◌>>=◌
Throws-caught {E} {F} {A} {B} {R} {Q} m f t g k = record {
  at = λ s e h. let (r, s') = m s in caught r (t.at s) s' e h;
}
  where
    caught :
        (r : Result F A)
        → ((x : F) → r ≡ err x → R x)
        → (s : State) (e : E) → (f r s).0 ≡ err e
        → Q e
    caught (ok a) l s e h = (g a).at s e h
    caught (err x) l s e h = (k x (l x refl)).at s e h

pub ruleset throws_rules = (
  Throws-pure, Throws-throw, Throws-attempt, Throws-if, Throws-bind, Throws-perform,
  Throws-of_remote,
)
