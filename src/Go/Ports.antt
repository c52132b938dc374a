-- ===== src/Go/Ports.antt =====
-- An address ends with a colon and a port in decimal (`fmt.Sprintf("%s:%d", ...)`).
use Prim.Native.Char.{Char, code}
use text.Mathlib.TextLemmas.{append_cancel_right, cons-append, nil-append}
use undermoon_operator_old.Go.Format.{digit, digits, format_nat}
use undermoon_operator_old.Go.RoundTrip.{digit-All, pick}
use undermoon_operator_old.Common.{
  Option, String, ap, arith, eqb, if◌then◌else◌, ltb, none, refl, some, suc, sym, zero, ℕ, ◌%◌, ◌/◌,
  ◌<>◌, ◌∙◌, ◌≡◌,
}

abbrev later : Option String → Char → String → Option String
later (some t) c s = some t
later none c s = if eqb (code c) b':' then some s else none

-- What stands behind the last colon, if there is one.
unfoldable behind_colon : String → Option String
behind_colon String.[] = none
behind_colon (String.◌∷◌ c s) = later (behind_colon s) c s

abbrev Plain : String → Type 0
Plain s = behind_colon s ≡ none

Plain-append : (s t : String) → Plain s → Plain t → Plain (s <> t)
unfolding behind_colon
Plain-append String.[] t hs ht = rw nil-append ht
Plain-append (String.◌∷◌ c s) t hs ht = rw cons-append (ground (arith, Plain-append s t))

digit-Plain : (d : ℕ) → Plain (digit d)
unfolding behind_colon
digit-Plain =
    digit-All Plain
      (refl, (refl, (refl, (refl, (refl, (refl, (refl, (refl, (refl, (refl, tt))))))))))

digits-Plain : (fuel n : ℕ) → Plain (digits fuel n)
unfolding digits behind_colon
digits-Plain zero n = refl
digits-Plain (suc fuel) n = pick Plain (ltb n 10) _ _ (digit-Plain n) (
    Plain-append (digits fuel (n / 10)) (digit (n % 10)) (digits-Plain fuel (n / 10))
      (digit-Plain (n % 10)))

format_nat-Plain : (n : ℕ) → Plain (format_nat n)
unfolding format_nat
format_nat-Plain n = digits-Plain (suc n) n

behind_colon-append : (s t : String) → Plain t → behind_colon (s <> (":" <> t)) ≡ some t
unfolding behind_colon
behind_colon-append String.[] t h = rw (nil-append, cons-append, nil-append) (rw h refl)
behind_colon-append (String.◌∷◌ c s) t h = rw (cons-append, behind_colon-append s t h) refl

-- Two addresses are the same only where their hosts are.
pub host-injective :
    (s t : String) (m n : ℕ) → s <> (":" <> format_nat m) ≡ t <> (":" <> format_nat n) → s ≡ t
host-injective s t m n e =
    let port : format_nat m ≡ format_nat n = inside (
      sym (behind_colon-append s (format_nat m) (format_nat-Plain m))
      ∙ ap behind_colon e
      ∙ behind_colon-append t (format_nat n) (format_nat-Plain n)) in
    append_cancel_right s t (":" <> format_nat n) (rw port at e)
  where
    inside : {x y : String} → Path (Option String) (some x) (some y) → x ≡ y
    inside h = cc
