-- ===== src/BrokerController/Holders.antt =====
-- The brokers with replicas that getCurrentMaster collects, where one broker alone has some.
use mathlib.Core.Path.{subst}
use undermoon_operator_old.BrokerController.{is_empty}
use undermoon_operator_old.Common.{
  All, List, String, String-cases, [], ap, arith, contains, eq_iff, false, if◌then◌else◌, inl, inr,
  refl, sym, true, ◌∙◌, ◌∷◌, ◌≡◌, ◌≢◌,
}
use undermoon_operator_old.Names.Laws.{Distinct}

-- The brokers of a list that hold replicas.
abbrev pub holders : (String → List String) → List String → List String
holders f [] = []
holders f (a ∷ l) = if is_empty (f a) then holders f l else a ∷ holders f l

holders-none :
    (f : String → List String) (l : List String)
    → All (λ a. is_empty (f a) ≡ true) l
    → holders f l ≡ []
holders-none f [] h = refl
holders-none f (a ∷ l) h = rw h.0 (holders-none f l h.1)

-- All but the master hold none.
abbrev pub OnlyAt : String → (String → List String) → List String → Type 0
OnlyAt master f l = All (λ a. a ≢ master → is_empty (f a) ≡ true) l

others_empty :
    (f : String → List String) (master a : String) (l : List String)
    → master ≡ a
    → All (λ b. a ≢ b) l
    → OnlyAt master f l
    → All (λ b. is_empty (f b) ≡ true) l
others_empty f master a [] p d o = tt
others_empty f master a (b ∷ l) p d o =
    (o.0 (λ q. d.0 (sym p ∙ sym q)), others_empty f master a l p d.1 o.1)

holders-head :
    (f : String → List String) (master a : String) (l : List String)
    → master ≡ a
    → All (λ b. a ≢ b) l
    → is_empty (f master) ≡ false
    → OnlyAt master f l
    → holders f (a ∷ l) ≡ master ∷ []
holders-head f master a l p d h o = rw (subst (λ m. is_empty (f m) ≡ false) p h) (
    ap (λ t. a ∷ t) (holders-none f l (others_empty f master a l p d o)) ∙ ap (λ m. m ∷ []) (sym p))

pub holders-one :
    (f : String → List String) (master : String) (l : List String)
    → Distinct l
    → contains master l ≡ true
    → is_empty (f master) ≡ false
    → OnlyAt master f l
    → holders f l ≡ master ∷ []
holders-one f master [] d c h o = absurd (cc)
holders-one f master (a ∷ l) d c h o = elim (String-cases a master) [
  | inl (same, p) ↦ holders-head f master a l (sym p) d.0 h o.1
  | inr (differ, n) ↦ rw (o.0 n) (
      holders-one f master l d.1 (ground (arith, c, differ, eq_iff master a, eq_iff a master)) h
        o.1)
]
