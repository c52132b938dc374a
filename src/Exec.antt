-- ===== src/Exec.antt =====
-- Code that calls the outside world, keeps clients in its pools and may return an error. What was
-- done before an error stays done, so the state comes back beside the error too.
pub mod Rules
pub mod Triples
pub mod Quiet
pub mod Costs
pub mod Success
use undermoon_operator_old.Common.{◌∷◌}
use undermoon_operator_old.Go.{RemoteError, GoError, remote, Result, ok, err}
use undermoon_operator_old.World.{Call, History}
use undermoon_operator_old.RedisPool.{RedisPool}

-- The calls made so far, and the two pools of the coordinator and the storage controllers.
pub record State : Type 0 where
  pub calls : History
  pub coord_pool : RedisPool
  pub proxy_pool : RedisPool

abbrev pub Exec : Type 0 → Type 0 → Type 0
Exec E A = State → Result E A × State

module _ {E A : Type 0} where
  unfoldable pub pure : A → Exec E A
  pure a s = (ok a, s)

  unfoldable pub throw : E → Exec E A
  throw e s = (err e, s)

  -- A call whose error the code looks at itself.
  unfoldable pub attempt : {F : Type 0} → Exec E A → Exec F (Result E A)
  attempt m s = let (r, s') = m s in (ok r, s')

  unfoldable pub from_result : Result E A → Exec E A
  from_result r s = (r, s)

  abbrev pub convert : {F : Type 0} → (E → F) → Result E A → Result F A
  convert f (ok a) = ok a
  convert f (err e) = err (f e)

  -- `if err != nil { return f(err) }`
  unfoldable pub map_error : {F : Type 0} → (E → F) → Exec E A → Exec F A
  map_error f m s = let (r, s') = m s in (convert f r, s')

-- The answer of a library function that calls nothing.
unfoldable pub of_remote : {A : Type 0} → Result RemoteError A → Exec GoError A
of_remote r s = (convert remote r, s)

-- A call of the outside world: it is recorded, and answered from the calls before it.
unfoldable pub perform : {A : Type 0} → Call → (History → Result RemoteError A) → Exec GoError A
perform c answer s = (convert remote (answer s.calls), record s { calls = c ∷ s.calls })

module _ {E A B : Type 0} where
  abbrev next : Result E A → (A → Exec E B) → Exec E B
  next (ok a) f s = f a s
  next (err e) f s = (err e, s)

  infixl 10 ◌>>=◌ ◌>>◌
  unfoldable pub ◌>>=◌ : Exec E A → (A → Exec E B) → Exec E B
  unfolding pure throw attempt from_result map_error of_remote perform
  ◌>>=◌ m f s = let (r, s') = m s in next r f s'

  abbrev pub ◌>>◌ : Exec E A → Exec E B → Exec E B
  m >> n = m >>= λ _. n
