-- ===== src/BrokerClient/AddressSet.antt =====
-- The broker's registry as a set of addresses: lists up to order and repetition.
use mathlib.Core.Quot
use mathlib.Core.Quot.{Quot, Quot-set}
use undermoon_operator_old.Common.{
  Bool, List, String, String-cases, [], arith, contains, eq_iff, if◌then◌else◌, inl, inr, refl,
  ◌&&◌, ◌==◌, ◌||◌, ◌∷◌, ◌≡◌,
}

abbrev SameMembers : List String → List String → Type 0
SameMembers xs ys = (a : String) → contains a xs ≡ contains a ys

abbrev pub AddressSet : Type 0
AddressSet = Quot SameMembers

abbrev pub of_list : List String → AddressSet
of_list = Quot.mk

unfoldable pub member : String → AddressSet → Bool
member a = Quot.lift (hlevel) (contains a) λ xs ys same. same a

-- Two sets with the same members are one.
pub AddressSet-ext : (s t : AddressSet) → ((a : String) → member a s ≡ member a t) → s ≡ t
unfolding member
AddressSet-ext =
    Quot.ind (λ _. hlevel Quot-set) λ xs. Quot.ind (λ _. hlevel Quot-set) λ ys. Quot.sound

-- The elements that pass a test.
abbrev filter : (String → Bool) → List String → List String
filter test [] = []
filter test (a ∷ l) = let rest = filter test l in if test a then a ∷ rest else rest

contains-filter :
    (test : String → Bool) (a : String) (l : List String)
    → contains a (filter test l) ≡ contains a l && test a
contains-filter test a [] = refl
contains-filter test a (b ∷ l) = elim (String-cases a b) [
  | inl (same, p) ↦ rw p (ground (arith, eq_iff b b, contains-filter test b l))
  | inr (differ, n) ↦ ground (arith, differ, contains-filter test a l)
]

pub insert : String → AddressSet → AddressSet
insert b =
    Quot.lift Quot-set (λ l. of_list (b ∷ l)) λ xs ys same. Quot.sound λ a. ground (arith, same a)

pub keep_only : (String → Bool) → AddressSet → AddressSet
keep_only test =
    Quot.lift Quot-set (λ l. of_list (filter test l))
      λ xs ys same.
        Quot.sound λ a. rw (contains-filter test a xs, contains-filter test a ys, same a) refl

-- The addresses of a list, and those of a set.
unfoldable pub add_all : List String → AddressSet → AddressSet
unfolding insert
add_all [] s = s
add_all (a ∷ l) s = insert a (add_all l s)

pub member-insert : (a b : String) (s : AddressSet) → member a (insert b s) ≡ (a == b) || member a s
unfolding member insert
member-insert a b = Quot.ind (λ _. hlevel) λ l. refl

pub member-keep_only :
    (test : String → Bool) (a : String) (s : AddressSet)
    → member a (keep_only test s) ≡ member a s && test a
unfolding member keep_only
member-keep_only test a = Quot.ind (λ _. hlevel) (contains-filter test a)

pub member-add_all :
    (a : String) (l : List String) (s : AddressSet)
    → member a (add_all l s) ≡ contains a l || member a s
unfolding add_all
member-add_all a [] s = refl
member-add_all a (b ∷ l) s = ground (arith, member-insert a b (add_all l s), member-add_all a l s)
