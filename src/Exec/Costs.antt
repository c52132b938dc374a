-- ===== src/Exec/Costs.antt =====
-- How many calls a piece of code makes at most, and what its value is like.
use undermoon_operator_old.Common.{
  arith, Bool, false, if◌then◌else◌, length, refl, true, ℕ, ◌+◌, ◌≡◌, ◌≤◌,
}
use undermoon_operator_old.Exec.{
  attempt, Exec, from_result, map_error, of_remote, perform, pure, State, throw, ◌>>=◌,
}
use undermoon_operator_old.Exec.Quiet.{Asks, map_error-Ran}
use undermoon_operator_old.Exec.Triples.{ok-convert}
use undermoon_operator_old.Go.{err, ok, RemoteError, Result}
use undermoon_operator_old.World.{Call, History}

-- At most `n` calls, and a value with `Q` where there is one.
pub record Costs {E A : Type 0} (n : ℕ) (m : Exec E A) (Q : A → Type 0) : Type 0 where
  pub cost : (s : State) → length (m s).1.calls ≤ n + length s.calls
  pub value : (s : State) (a : A) → (m s).0 ≡ ok a → Q a

abbrev pub Any : {A : Type 0} → A → Type 0
Any a = Unit {0}

module _ {E A : Type 0} {n : ℕ} {Q : A → Type 0} where
  pub Costs-pure : (a : A) → Q a → Costs {E = E} n (pure a) Q
  unfolding pure
  Costs-pure a q = record {
    cost = λ s. omega arith;
    value = λ s b h. let same : a ≡ b = cc in rw same at q;
  }

  pub Costs-throw : (e : E) → Costs n (throw e) Q
  unfolding throw
  Costs-throw e = record { cost = λ s. omega arith; value = λ s a h. cc }

  pub Costs-from_result : (r : Result E A) → ((a : A) → Q a) → Costs n (from_result r) Q
  unfolding from_result
  Costs-from_result r q = record { cost = λ s. omega arith; value = λ s a h. q a }

  pub Costs-if :
      (test : Bool) (left right : Exec E A)
      → Costs n left Q
      → Costs n right Q
      → Costs n (if test then left else right) Q
  Costs-if true left right a b = a
  Costs-if false left right a b = b

  pub Costs-attempt :
      {F : Type 0} (m : Exec E A)
      → Costs n m Q
      → Costs n (attempt {F = F} m) (λ r. (a : A) → r ≡ ok a → Q a)
  unfolding attempt
  Costs-attempt m c = record {
    cost = λ s. c.cost s;
    value = λ s r h a e. c.value s a (ground (arith, h, e));
  }

  pub Costs-map_error :
      {F : Type 0} (f : E → F) (m : Exec E A) → Costs n m Q → Costs n (map_error f m) Q
  unfolding map_error
  Costs-map_error f m c = record {
    cost = λ s. c.cost s;
    value = λ s a h. c.value s a (map_error-Ran f m s a h).0;
  }

  pub Costs-imp :
      {R : A → Type 0} (m : Exec E A) → Costs n m R → ((a : A) → R a → Q a) → Costs n m Q
  Costs-imp m c f = record { cost = λ s. c.cost s; value = λ s a h. f a (c.value s a h) }

pub Costs-le :
    {E A : Type 0} {n : ℕ} {Q : A → Type 0} (i : ℕ) (m : Exec E A)
    → Costs i m Q
    → i ≤ n
    → Costs n m Q
Costs-le i m c l = record { cost = λ s. omega (arith, c.cost s, l); value = λ s a h. c.value s a h }

module _ {E A B : Type 0} {Q : B → Type 0} {R : A → Type 0} where
  cost-next :
      (n : ℕ) (r : Result E A) (f : A → Exec E B) (s : State)
      → ((a : A) → r ≡ ok a → R a)
      → ((a : A) → R a → Costs n (f a) Q)
      → length ((from_result r >>= f) s).1.calls ≤ n + length s.calls
  unfolding ◌>>=◌
  cost-next n (ok a) f s v k = (k a (v a refl)).cost s
  cost-next n (err e) f s v k = omega arith

  value-next :
      (n : ℕ) (r : Result E A) (f : A → Exec E B) (s : State) (b : B)
      → ((a : A) → r ≡ ok a → R a)
      → ((a : A) → R a → Costs n (f a) Q)
      → ((from_result r >>= f) s).0 ≡ ok b
      → Q b
  unfolding ◌>>=◌
  value-next n (ok a) f s b v k h = (k a (v a refl)).value s b h
  value-next n (err e) f s b v k h = cc

  -- One part after another, within what is left.
  pub Costs-bind :
      {n : ℕ} (i j : ℕ) (m : Exec E A) (f : A → Exec E B)
      → Costs i m R
      → ((a : A) → R a → Costs j (f a) Q)
      → i + j ≤ n
      → Costs n (m >>= f) Q
  unfolding ◌>>=◌
  Costs-bind {n} i j m f c k h = record {
    cost = λ s. omega (arith, c.cost s, h, cost-next j (m s).0 f (m s).1 (c.value s) k);
    value = λ s b e. value-next j (m s).0 f (m s).1 b (c.value s) k e;
  }

pub Costs-of_remote : {A : Type 0} {n : ℕ} (r : Result RemoteError A) → Costs n (of_remote r) Any
unfolding of_remote
Costs-of_remote r = record { cost = λ s. omega arith; value = λ s a h. tt }

pub Costs-perform :
    {A : Type 0} {n : ℕ} (c : Call) (answer : History → Result RemoteError A)
    → 1 ≤ n
    → Costs n (perform c answer) (λ a. (h : History) × (answer h ≡ ok a))
unfolding perform
Costs-perform c answer l = record {
  cost = λ s. omega (arith, l);
  value = λ s a h. (s.calls, ok-convert (answer s.calls) a h);
}

pub Costs-Asks : {E A : Type 0} {n : ℕ} (c : Call) (m : Exec E A) → Asks c m → 1 ≤ n → Costs n m Any
Costs-Asks c m asks l = record {
  cost = λ s. rw (asks.at s) (omega (arith, l));
  value = λ s a h. tt;
}
