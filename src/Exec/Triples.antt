-- ===== src/Exec/Triples.antt =====
-- Assertions at the points of a do block: what a run that succeeds leaves, from what it starts in,
-- and what holds at the end of a run whatever its outcome.
use undermoon_operator_old.Common.{arith, Bool, false, if◌then◌else◌, refl, true, ◌∷◌, ◌≡◌}
use undermoon_operator_old.Exec.{
  attempt, convert, Exec, from_result, map_error, perform, pure, State, throw, ◌>>=◌,
}
use undermoon_operator_old.Exec.Rules.{Keeps}
use undermoon_operator_old.Go.{err, ok, remote, RemoteError, Result}
use undermoon_operator_old.World.{Call, History}

-- From a state with `P`, a success with the value `a` ends in a state with `Q a`.
pub record Triple {E A : Type 0} (P : State → Type 0) (m : Exec E A) (Q : A → State → Type 0)
    : Type 0 where
  pub at : (s : State) → P s → (a : A) → (m s).0 ≡ ok a → Q a (m s).1

-- From a state with `P`, every run ends in a state with `I`.
pub record Safe {E A : Type 0} (P : State → Type 0) (m : Exec E A) (I : State → Type 0)
    : Type 0 where
  pub at : (s : State) → P s → I (m s).1

module _ {E A B : Type 0} where
  Triple-next :
      (r : Result E A) (f : A → Exec E B) (s : State) (R : A → State → Type 0)
      (Q : B → State → Type 0)
      → ((a : A) → r ≡ ok a → R a s)
      → ((a : A) → Triple (R a) (f a) Q)
      → (b : B) → ((from_result r >>= f) s).0 ≡ ok b
      → Q b ((from_result r >>= f) s).1
  unfolding ◌>>=◌
  Triple-next (ok a) f s R Q h k b e = (k a).at s (h a refl) b e
  Triple-next (err x) f s R Q h k b e = cc

  Safe-next :
      (r : Result E A) (f : A → Exec E B) (s : State) (R : A → State → Type 0) (I : State → Type 0)
      → ((a : A) → r ≡ ok a → R a s)
      → I s
      → ((a : A) → Safe (R a) (f a) I)
      → I ((from_result r >>= f) s).1
  unfolding ◌>>=◌
  Safe-next (ok a) f s R I h i k = (k a).at s (h a refl)
  Safe-next (err x) f s R I h i k = i

module _ {E A B : Type 0} {P : State → Type 0} where
  pub Triple-bind :
      (m : Exec E A) (f : A → Exec E B) {R : A → State → Type 0} {Q : B → State → Type 0}
      → Triple P m R
      → ((a : A) → Triple (R a) (f a) Q)
      → Triple P (m >>= f) Q
  unfolding ◌>>=◌
  Triple-bind m f {R} {Q} t k = record {
    at = λ s p b e. let (r, s') = m s in Triple-next r f s' R Q (t.at s p) k b e;
  }

  pub Safe-bind :
      (m : Exec E A) (f : A → Exec E B) {R : A → State → Type 0} {I : State → Type 0}
      → Safe P m I
      → Triple P m R
      → ((a : A) → Safe (R a) (f a) I)
      → Safe P (m >>= f) I
  unfolding ◌>>=◌
  Safe-bind m f {R} {I} i t k = record {
    at = λ s p. let (r, s') = m s in Safe-next r f s' R I (t.at s p) (i.at s p) k;
  }

module _ {E A : Type 0} {P : State → Type 0} where
  pub Triple-pure :
      {Q : A → State → Type 0} (a : A) → ((s : State) → P s → Q a s) → Triple P (pure {E = E} a) Q
  unfolding pure
  Triple-pure {Q} a h = record { at = λ s p b e. let same : a ≡ b = cc in rw same at (h s p) }

  pub Triple-throw : {Q : A → State → Type 0} (e : E) → Triple P (throw {A = A} e) Q
  unfolding throw
  Triple-throw e = record { at = λ s p b h. cc }

  pub Triple-map_error :
      {F : Type 0} {Q : A → State → Type 0} (f : E → F) (m : Exec E A)
      → Triple P m Q
      → Triple P (map_error f m) Q
  unfolding map_error
  Triple-map_error {F} f m t = record { at = λ s p a e. t.at s p a (same (m s).0 a e) }
    where
      same : (r : Result E A) (a : A) → convert f r ≡ ok a → r ≡ ok a
      same (ok b) a e = let e' : b ≡ a = cc in rw e'
      same (err x) a e = cc

  pub Triple-if :
      {Q : A → State → Type 0} (test : Bool) (left right : Exec E A)
      → (test ≡ true → Triple P left Q)
      → (test ≡ false → Triple P right Q)
      → Triple P (if test then left else right) Q
  Triple-if true left right yes_rule no_rule = yes_rule refl
  Triple-if false left right yes_rule no_rule = no_rule refl

  pub Triple-imp :
      {Q R : A → State → Type 0} (m : Exec E A)
      → Triple P m Q
      → ((a : A) (s : State) → Q a s → R a s)
      → Triple P m R
  Triple-imp m t h = record { at = λ s p a e. h a (m s).1 (t.at s p a e) }

  pub Triple-and :
      {Q R : A → State → Type 0} (m : Exec E A)
      → Triple P m Q
      → Triple P m R
      → Triple P m (λ a s. Q a s × R a s)
  Triple-and m t u = record { at = λ s p a e. (t.at s p a e, u.at s p a e) }

  pub Triple-attempt :
      {F : Type 0} {Q : A → State → Type 0} (m : Exec E A)
      → Triple P m Q
      → Triple P (attempt {F = F} m) (λ r s. (a : A) → r ≡ ok a → Q a s)
  unfolding attempt
  Triple-attempt m t = record { at = λ s p r e a h. t.at s p a (ground (arith, e, h)) }

  pub Safe-map_error :
      {F : Type 0} {I : State → Type 0} (f : E → F) (m : Exec E A)
      → Safe P m I
      → Safe P (map_error f m) I
  unfolding map_error
  Safe-map_error f m i = record { at = λ s p. i.at s p }

  pub Safe-of_Keeps :
      {I : State → Type 0} (m : Exec E A) → Keeps I m → ((s : State) → P s → I s) → Safe P m I
  Safe-of_Keeps m k h = record { at = λ s p. k.at s (h s p) }

  pub Safe-if :
      {I : State → Type 0} (test : Bool) (left right : Exec E A)
      → (test ≡ true → Safe P left I)
      → (test ≡ false → Safe P right I)
      → Safe P (if test then left else right) I
  Safe-if true left right yes_rule no_rule = yes_rule refl
  Safe-if false left right yes_rule no_rule = no_rule refl

pub Keeps-of_Safe : {E A : Type 0} {I : State → Type 0} (m : Exec E A) → Safe I m I → Keeps I m
Keeps-of_Safe m i = record { at = i.at }

pub Triple-of_Keeps :
    {E A : Type 0} {I : State → Type 0} (m : Exec E A) → Keeps I m → Triple I m (λ _. I)
Triple-of_Keeps m k = record { at = λ s p a e. k.at s p }

-- A remote answer that went well is the answer.
pub ok-convert :
    {A : Type 0} (r : Result RemoteError A) (a : A) → convert remote r ≡ ok a → r ≡ ok a
ok-convert (ok b) a h = let same : b ≡ a = cc in rw same
ok-convert (err e) a h = cc

-- The call before is `c`, and its answer was `a`.
pub record Answered {A : Type 0} (R : History → Type 0) (c : Call)
    (answer : History → Result RemoteError A) (a : A) (h : History) : Type 0 where
  pub before : History
  pub asked : h ≡ c ∷ before
  pub answered : answer before ≡ ok a
  pub earlier : R before

pub perform-Answered :
    {A : Type 0} (R : History → Type 0) (c : Call) (answer : History → Result RemoteError A)
    → Triple (λ s. R s.calls) (perform c answer) (λ a s. Answered R c answer a s.calls)
unfolding perform
perform-Answered R c answer = record {
  at = λ s p a h. record {
    before = s.calls;
    asked = refl;
    answered = ok-convert (answer s.calls) a h;
    earlier = p;
  };
}
