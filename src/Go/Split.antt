-- ===== src/Go/Split.antt =====
-- `strings.Contains(s, ",")`, `strings.Split(s, ",")`, and the pieces put together again.
use Prim.Native.Char.{Char, code}
use text.Mathlib.TextEquality.{Char-path}
use text.Mathlib.TextLemmas.{cons-append, nil-append}
use undermoon_operator_old.Common.{
  [], All, ap, arith, Bool, Bool-cases, eqb, eqb_iff, false, if◌then◌else◌, inl, inr, List, refl,
  String, sym, true, ◌<>◌, ◌||◌, ◌∙◌, ◌∷◌, ◌≡◌,
}

unfoldable pub has_comma : String → Bool
has_comma String.[] = false
has_comma (String.◌∷◌ c s) = eqb (code c) b',' || has_comma s

abbrev pub on_first : Char → List String → List String
on_first c [] = String.◌∷◌ c "" ∷ []
on_first c (piece ∷ pieces) = String.◌∷◌ c piece ∷ pieces

-- The text without a character has one piece.
unfoldable pub split_commas : String → List String
split_commas String.[] = "" ∷ []
split_commas (String.◌∷◌ c s) =
    let pieces = split_commas s in if eqb (code c) b',' then "" ∷ pieces else on_first c pieces

unfoldable pub join_commas : List String → String
join_commas [] = ""
join_commas (piece ∷ []) = piece
join_commas (piece ∷ next ∷ pieces) = piece <> ("," <> join_commas (next ∷ pieces))

split_commas-cons :
    (s : String) → (piece : String) × (pieces : List String) × (split_commas s ≡ piece ∷ pieces)
unfolding split_commas
split_commas-cons String.[] = ("", [], refl)
split_commas-cons (String.◌∷◌ c s) = elim (Bool-cases (eqb (code c) b',')) [
  | inl comma ↦ ("", split_commas s, rw comma refl)
  | inr plain ↦ let (w, ws, e) = split_commas-cons s in (String.◌∷◌ c w, ws, rw (plain, e) refl)
]

join_commas-on_first :
    (c : Char) (pieces : List String)
    → join_commas (on_first c pieces) ≡ String.◌∷◌ c (join_commas pieces)
unfolding join_commas
join_commas-on_first c [] = refl
join_commas-on_first c (w ∷ []) = refl
join_commas-on_first c (w ∷ v ∷ ws) = cons-append c w _

comma_only : (c : Char) (s : String) → eqb (code c) b',' ≡ true → "," <> s ≡ String.◌∷◌ c s
comma_only c s h =
    cons-append "," "" s
    ∙ ap (String.◌∷◌ ",") (nil-append s)
    ∙ ap (λ d. String.◌∷◌ d s) (sym (Char-path c "," ((eqb_iff (code c) b',').0 h)))

-- The pieces put together with commas are the text.
pub join_commas-split_commas : (s : String) → join_commas (split_commas s) ≡ s
unfolding join_commas split_commas
join_commas-split_commas String.[] = refl
join_commas-split_commas (String.◌∷◌ c s) = elim (Bool-cases (eqb (code c) b',')) [
  | inl comma ↦
      let (w, ws, e) = split_commas-cons s in
      rw (comma, e)
        (nil-append _
          ∙ comma_only c (join_commas (w ∷ ws)) comma
          ∙ ap (String.◌∷◌ c) (ap join_commas (sym e) ∙ join_commas-split_commas s))
  | inr plain ↦
      rw plain
        (join_commas-on_first c (split_commas s) ∙ ap (String.◌∷◌ c) (join_commas-split_commas s))
]

abbrev pub IsPlain : String → Type 0
IsPlain s = has_comma s ≡ false

on_first-IsPlain :
    (c : Char) (pieces : List String)
    → eqb (code c) b',' ≡ false
    → All IsPlain pieces
    → All IsPlain (on_first c pieces)
unfolding has_comma
on_first-IsPlain c [] plain h = (ground (arith, plain), tt)
on_first-IsPlain c (w ∷ ws) plain h = (ground (arith, plain, h.0), h.1)

-- No piece has a comma.
pub split_commas-IsPlain : (s : String) → All IsPlain (split_commas s)
unfolding split_commas has_comma
split_commas-IsPlain String.[] = (refl, tt)
split_commas-IsPlain (String.◌∷◌ c s) = elim (Bool-cases (eqb (code c) b',')) [
  | inl comma ↦ rw comma (refl, split_commas-IsPlain s)
  | inr plain ↦ rw plain (on_first-IsPlain c (split_commas s) plain (split_commas-IsPlain s))
]
