-- ===== src/Exec/Success.antt =====
-- Code that succeeds from every state.
use mathlib.Core.Path.{subst⁻¹}
use undermoon_operator_old.Common.{ap, refl, ◌∙◌, ◌≡◌}
use undermoon_operator_old.Exec.{
  Exec, State, attempt, convert, map_error, of_remote, perform, pure, ◌>>=◌,
}
use undermoon_operator_old.Exec.Quiet.{bind-ok}
use undermoon_operator_old.Go.{RemoteError, Result, ok, remote}
use undermoon_operator_old.World.{Call, History}

-- It returns a value with `Q`.
pub record Succeeds {E A : Type 0} (m : Exec E A) (Q : A → Type 0) : Type 0 where
  pub at : (s : State) → (a : A) × ((m s).0 ≡ ok a) × Q a

-- It returns this value.
abbrev pub Yields : {E A : Type 0} → Exec E A → A → Type 0
Yields m a = Succeeds m (λ b. b ≡ a)

module _ {E A : Type 0} {Q : A → Type 0} where
  pub Succeeds-pure : (a : A) → Q a → Succeeds {E = E} (pure a) Q
  unfolding pure
  Succeeds-pure a q = record { at = λ s. (a, refl, q) }

  pub Succeeds-map_error :
      {F : Type 0} (f : E → F) (m : Exec E A) → Succeeds m Q → Succeeds (map_error f m) Q
  unfolding map_error
  Succeeds-map_error f m c = record { at = λ s. let (a, e, q) = c.at s in (a, ap (convert f) e, q) }

module _ {E A B : Type 0} {Q : B → Type 0} where
  pub Succeeds-bind :
      {R : A → Type 0} (m : Exec E A) (f : A → Exec E B)
      → Succeeds m R
      → ((a : A) → R a → Succeeds (f a) Q)
      → Succeeds (m >>= f) Q
  Succeeds-bind m f c k = record {
    at = λ s.
        let (a, e, r) = c.at s in
        let (b, e', q) = (k a r).at (m s).1 in
        (b, ap (λ t. t.0) (bind-ok m f s (m s).1 a e refl) ∙ e', q);
  }

  -- After a known value.
  pub Succeeds-then :
      (a : A) (m : Exec E A) (f : A → Exec E B)
      → Yields m a
      → Succeeds (f a) Q
      → Succeeds (m >>= f) Q
  Succeeds-then a m f c k = Succeeds-bind m f c (λ b same. subst⁻¹ (λ x. Succeeds (f x) Q) same k)

-- The code looks at the error, but there is none.
pub Succeeds-attempt :
    {E F A B : Type 0} {R : A → Type 0} {Q : B → Type 0} (m : Exec F A) (f : Result F A → Exec E B)
    → Succeeds m R
    → ((a : A) → R a → Succeeds (f (ok a)) Q)
    → Succeeds (attempt m >>= f) Q
unfolding attempt
Succeeds-attempt {R} {Q} m f c k =
    Succeeds-bind {R = λ r. (a : _) × (r ≡ ok a) × R a} (attempt m) f
      (record { at = λ s. let (a, e, r) = c.at s in ((m s).0, refl, (a, e, r)) })
      (λ r (a, e, q). subst⁻¹ (λ x. Succeeds (f x) Q) e (k a q))

-- Whatever comes back.
pub Succeeds-tried :
    {E F A B : Type 0} {Q : B → Type 0} (m : Exec F A) (f : Result F A → Exec E B)
    → ((r : Result F A) → Succeeds (f r) Q)
    → Succeeds (attempt m >>= f) Q
unfolding attempt
Succeeds-tried m f k =
    Succeeds-bind {R = λ r. Unit {0}} (attempt m) f (record { at = λ s. ((m s).0, refl, tt) })
      (λ r h. k r)

pub Succeeds-of_remote :
    {A : Type 0} (r : Result RemoteError A) (a : A) → r ≡ ok a → Yields (of_remote r) a
unfolding of_remote
Succeeds-of_remote r a e = record { at = λ s. (a, ap (convert remote) e, refl) }

pub Succeeds-perform :
    {A : Type 0} {Q : A → Type 0} (c : Call) (answer : History → Result RemoteError A)
    → ((h : History) → (a : A) × (answer h ≡ ok a) × Q a)
    → Succeeds (perform c answer) Q
unfolding perform
Succeeds-perform c answer k = record {
  at = λ s. let (a, e, q) = k s.calls in (a, ap (convert remote) e, q);
}

pub Yields-perform :
    {A : Type 0} (c : Call) (answer : History → Result RemoteError A) (a : A)
    → ((h : History) → answer h ≡ ok a)
    → Yields (perform c answer) a
Yields-perform c answer a k = Succeeds-perform c answer (λ h. (a, k h, refl))
