-- ===== src/BrokerController/Choice.antt =====
-- The loop of getCurrentMaster for the highest epoch, and the brokers that are left as replicas.
use mathlib.Core.Path.{subst, subst⁻¹}
use undermoon_operator_old.BrokerController.{better}
use undermoon_operator_old.Common.{
  [], ap, arith, Bool-cases, false, inl, inr, List, refl, String, String-cases, sym, ◌∙◌, ◌∷◌, ◌≡◌,
  ◌≢◌, ◌⊎◌,
}
use undermoon_operator_old.Common.Int.{ltb_ℤ, ltb_ℤ_iff, pos, ℤ, ◌<ℤ◌, ◌≤ℤ◌}
use undermoon_operator_old.Go.{err, GoError, ok, Result}

-- The answers of a list of brokers, in the order in which they were asked.
abbrev pub Answers : Type 0
Answers = List (String × Result GoError ℤ)

-- The loop over known answers.
unfoldable pub best_of : String × ℤ → Answers → String × ℤ
best_of c [] = c
best_of c ((a, r) ∷ answers) = best_of (better c.0 c.1 a r) answers

-- A broker of the list answered with this epoch.
abbrev pub IsAnswer : String → ℤ → Answers → Type 0
IsAnswer a epoch [] = ⊥
IsAnswer a epoch ((b, r) ∷ answers) = ((a ≡ b) × (r ≡ ok epoch)) ⊎ IsAnswer a epoch answers

-- No answer is above `max`.
abbrev pub IsBound : ℤ → Answers → Type 0
IsBound max [] = Unit
IsBound max ((b, r) ∷ answers) = ((epoch : ℤ) → r ≡ ok epoch → epoch ≤ℤ max) × IsBound max answers

abbrev pub IsNamed : Answers → Type 0
IsNamed [] = Unit
IsNamed ((b, r) ∷ answers) = (b ≢ "") × IsNamed answers

abbrev pub IsSilent : Answers → Type 0
IsSilent [] = Unit
IsSilent ((b, r) ∷ answers) = ((epoch : ℤ) → r ≢ ok epoch) × IsSilent answers

not_above : (a b : ℤ) → ltb_ℤ a b ≡ false → b ≤ℤ a
not_above a b h = ground arith

-- A round keeps what it has, or takes over a broker that answered.
pub data Round (c : String × ℤ) (a : String) (r : Result GoError ℤ) (d : String × ℤ) : Type 0 where
  stays : d ≡ c → ((epoch : ℤ) → r ≡ ok epoch → (c.0 ≢ "") × (epoch ≤ℤ c.1)) → Round c a r d
  takes : (epoch : ℤ) → r ≡ ok epoch → d ≡ (a, epoch) → (c.0 ≡ "") ⊎ (c.1 <ℤ epoch) → Round c a r d

pub round_lem :
    (c : String × ℤ) (a : String) (r : Result GoError ℤ) → Round c a r (better c.0 c.1 a r)
unfolding better
round_lem c a (err e) = stays refl (λ epoch h. cc)
round_lem (best, max) a (ok epoch) = elim (String-cases best "") [
  | inl (same, p) ↦ takes epoch refl (rw same refl) (inl p)
  | inr (differ, n) ↦ elim (Bool-cases (ltb_ℤ max epoch)) [
    | inl less ↦ takes epoch refl (rw (differ, less) refl) (inr ((ltb_ℤ_iff max epoch).0 less))
    | inr not_less ↦
        stays (rw (differ, not_less) refl)
          (λ e h. let same : epoch ≡ e = cc in (n, rw same at (not_above max epoch not_less)))
  ]
]

le_trans : (a b c : ℤ) → a ≤ℤ b → b ≤ℤ c → a ≤ℤ c
le_trans a b c h k = omega (arith, h, k)

-- Once there is a broker, the loop ends with it or with one of the rest, and with a highest epoch.
pub record IsBest (c : String × ℤ) (answers : Answers) (d : String × ℤ) : Type 0 where
  pub above : c.1 ≤ℤ d.1
  pub bound : IsBound d.1 answers
  pub source : (d ≡ c) ⊎ IsAnswer d.0 d.1 answers

best_of-IsBest :
    (c : String × ℤ) (answers : Answers)
    → c.0 ≢ ""
    → IsNamed answers
    → IsBest c answers (best_of c answers)
unfolding best_of
best_of-IsBest c [] n named = record { above = omega arith; bound = tt; source = inl refl }
best_of-IsBest c ((a, r) ∷ answers) n named =
    round (better c.0 c.1 a r) (round_lem c a r) (λ d m. best_of-IsBest d answers m named.1)
  where
    kept :
        IsBest c answers (best_of c answers)
        → ((epoch : ℤ) → r ≡ ok epoch → (c.0 ≢ "") × (epoch ≤ℤ c.1))
        → IsBest c ((a, r) ∷ answers) (best_of c answers)
    kept b q = record {
      above = b.above;
      bound = (λ e h. le_trans e c.1 (best_of c answers).1 (q e h).1 b.above, b.bound);
      source = elim b.source [ inl e ↦ inl e | inr x ↦ inr (inr x) ];
    }

    taken :
        (epoch : ℤ)
        → r ≡ ok epoch
        → c.1 ≤ℤ epoch
        → IsBest (a, epoch) answers (best_of (a, epoch) answers)
        → IsBest c ((a, r) ∷ answers) (best_of (a, epoch) answers)
    taken epoch h l b =
        let (x, top) = best_of (a, epoch) answers in
        record {
          above = le_trans c.1 epoch top l b.above;
          bound =
              (λ e h'. let same : epoch ≡ e = cc in subst (λ x. x ≤ℤ top) same b.above, b.bound);
          source = elim b.source [
            | inl e ↦ inr (inl (ap (λ t. t.0) e, h ∙ ap (λ t. ok t.1) (sym e)))
            | inr x ↦ inr (inr x)
          ];
        }

    round :
        (d : String × ℤ)
        → Round c a r d
        → ((d : String × ℤ) → d.0 ≢ "" → IsBest d answers (best_of d answers))
        → IsBest c ((a, r) ∷ answers) (best_of d answers)
    round d (stays p q) ih =
        subst⁻¹ (λ x. IsBest c ((a, r) ∷ answers) (best_of x answers)) p (kept (ih c n) q)
    round d (takes epoch h p (inl l)) ih = absurd (n l)
    round d (takes epoch h p (inr l)) ih =
        subst⁻¹ (λ x. IsBest c ((a, r) ∷ answers) (best_of x answers)) p
          (taken epoch h (omega (arith, l)) (ih (a, epoch) named.0))

-- From no broker, either no one answered, or the best is one that answered, above all others.
pub data IsChoice (answers : Answers) (d : String × ℤ) : Type 0 where
  silent : IsSilent answers → d ≡ ("", pos 0) → IsChoice answers d
  chosen : IsAnswer d.0 d.1 answers → IsBound d.1 answers → IsChoice answers d

-- Among brokers with names, the loop of getCurrentMaster chooses one that answered with an epoch at
-- least as high as each other answer; if no one answered, it chooses the empty name.
pub best_of-IsChoice :
    (answers : Answers) → IsNamed answers → IsChoice answers (best_of ("", pos 0) answers)
unfolding best_of better
best_of-IsChoice [] named = silent tt refl
best_of-IsChoice ((a, err e) ∷ answers) named = later (best_of-IsChoice answers named.1)
  where
    later : {d : String × ℤ} → IsChoice answers d → IsChoice ((a, err e) ∷ answers) d
    later (silent s p) = silent ((λ epoch h. cc), s) p
    later (chosen x b) = chosen (inr x) ((λ epoch h. cc), b)
best_of-IsChoice ((a, ok epoch) ∷ answers) named =
    first (best_of-IsBest (a, epoch) answers named.0 named.1)
  where
    first : {d : String × ℤ} → IsBest (a, epoch) answers d → IsChoice ((a, ok epoch) ∷ answers) d
    first {d} b =
        chosen
          (elim b.source [
            | inl e ↦ inl (ap (λ t. t.0) e, ap (λ t. ok t.1) (sym e))
            | inr x ↦ inr x
          ])
          ((λ e h. let same : epoch ≡ e = cc in rw same at b.above), b.bound)
