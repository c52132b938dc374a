-- ===== src/Go/RoundTrip.antt =====
-- `%d` and `ParseInt` together, and the text behind the last dash.
use Prim.Native.Char.{Char, code}
use text.Mathlib.TextLemmas.{cons-append, nil-append, append-nil, append_assoc}
use undermoon_operator_old.Common.{
  ℕ, Bool, zero, suc, ◌+◌, ◌*◌, ◌/◌, ◌%◌, ◌^◌, ◌≤◌, ◌<◌, String, ◌<>◌, ◌≡◌, refl, ap, ◌∙◌, arith,
  ltb, Bool-cases, inl, inr, ltb_iff, Option, none, some, true, false, if◌then◌else◌, List, [], ◌∷◌,
  All,
}
use undermoon_operator_old.Common.Int.{pos}
use undermoon_operator_old.Go.Format.{digit, digits, format_nat}
use undermoon_operator_old.Go.ParseInt.{scan, value, parse_int, behind_dash, after_last_dash}

-- A digit is one character in the range of the digits.
pub record IsDigitText (s : String) : Type 0 where
  pub head : Char
  pub tail : String
  pub split : s ≡ String.◌∷◌ head tail
  pub low : b'0' ≤ code head
  pub high : code head ≤ b'9'

one : (c : Char) → b'0' ≤ code c → code c ≤ b'9' → IsDigitText (String.◌∷◌ c "")
one c l h = record { head = c; tail = ""; split = refl; low = l; high = h }

pub pick : (P : String → Type 0) (b : Bool) (s t : String) → P s → P t → P (if b then s else t)
pick P true s t hs ht = hs
pick P false s t hs ht = ht

abbrev digit_texts : List String
digit_texts = "0" ∷ "1" ∷ "2" ∷ "3" ∷ "4" ∷ "5" ∷ "6" ∷ "7" ∷ "8" ∷ "9" ∷ []

pub digit-All : (P : String → Type 0) → All P digit_texts → (d : ℕ) → P (digit d)
unfolding digit
digit-All P (p0, (p1, (p2, (p3, (p4, (p5, (p6, (p7, (p8, (p9, _)))))))))) d =
    let p = pick P in
    p _ _ _ p0 (
      p _ _ _ p1 (
        p _ _ _ p2
          (p _ _ _ p3 (p _ _ _ p4 (p _ _ _ p5 (p _ _ _ p6 (p _ _ _ p7 (p _ _ _ p8 p9))))))))

digit-IsDigitText : (d : ℕ) → IsDigitText (digit d)
digit-IsDigitText = digit-All IsDigitText (
  one "0" (omega arith) (omega arith),
  (
    one "1" (omega arith) (omega arith),
    (
      one "2" (omega arith) (omega arith),
      (
        one "3" (omega arith) (omega arith),
        (
          one "4" (omega arith) (omega arith),
          (
            one "5" (omega arith) (omega arith),
            (
              one "6" (omega arith) (omega arith),
              (
                one "7" (omega arith) (omega arith),
                (one "8" (omega arith) (omega arith), (one "9" (omega arith) (omega arith), tt)),
              ),
            ),
          ),
        ),
      ),
    ),
  ),
)

scan-digit :
    (d m : ℕ) (t : String)
    → d < 10
    → m * 10 + d < 2 ^ 64
    → scan m (digit d <> t) ≡ scan (m * 10 + d) t
unfolding scan digit
scan-digit (suc (suc (suc (suc (suc (suc (suc (suc (suc (suc d)))))))))) m t h b =
    absurd (omega arith)
scan-digit _ m t h b = rw (cons-append, nil-append) (ground arith)

scan-digits :
    (fuel n : ℕ) (t : String) → n < fuel → n < 2 ^ 64 → scan 0 (digits fuel n <> t) ≡ scan n t
unfolding digits
scan-digits zero n t h b = absurd (omega arith)
scan-digits (suc fuel) n t h b = elim (Bool-cases (ltb n 10)) [
  | inl small ↦ rw small (
      scan-digit n 0 t ((ltb_iff n 10).0 small) (omega arith)
      ∙ ap (λ (k : ℕ). scan k t) (omega arith))
  | inr large ↦
      rw (large, append_assoc)
        (scan-digits fuel (n / 10) (digit (n % 10) <> t) (ground arith) (omega arith)
          ∙ scan-digit (n % 10) (n / 10) t (omega arith) (omega arith)
          ∙ ap (λ (k : ℕ). scan k t) (omega arith))
]

digits-IsDigitText : (fuel n : ℕ) → n < fuel → IsDigitText (digits fuel n)
unfolding digits
digits-IsDigitText zero n h = absurd (omega arith)
digits-IsDigitText (suc fuel) n h = elim (Bool-cases (ltb n 10)) [
  | inl small ↦ rw small (digit-IsDigitText n)
  | inr large ↦ rw large (extend _ _ (digits-IsDigitText fuel (n / 10) (ground arith)))
]
  where
    extend : (s t : String) → IsDigitText s → IsDigitText (s <> t)
    extend s t h = record {
      head = h.head;
      tail = h.tail <> t;
      split = rw h.split (cons-append h.head h.tail t);
      low = h.low;
      high = h.high;
    }

-- Texts without a dash.
abbrev pub Undashed : String → Type 0
Undashed s = behind_dash s ≡ none

behind_dash-append :
    (s t : String) (u : Option String) → Undashed s → behind_dash t ≡ u → behind_dash (s <> t) ≡ u
unfolding behind_dash
behind_dash-append String.[] t u hs ht = rw nil-append ht
behind_dash-append (String.◌∷◌ c s) t none hs ht =
    rw cons-append (ground (arith, behind_dash-append s t none))
behind_dash-append (String.◌∷◌ c s) t (some u) hs ht =
    rw cons-append (ground (arith, behind_dash-append s t (some u)))

digit-Undashed : (d : ℕ) → Undashed (digit d)
unfolding behind_dash
digit-Undashed =
    digit-All Undashed
      (refl, (refl, (refl, (refl, (refl, (refl, (refl, (refl, (refl, (refl, tt))))))))))

digits-Undashed : (fuel n : ℕ) → Undashed (digits fuel n)
unfolding digits behind_dash
digits-Undashed zero n = refl
digits-Undashed (suc fuel) n = pick Undashed (ltb n 10) _ _ (digit-Undashed n) (
    behind_dash-append (digits fuel (n / 10)) (digit (n % 10)) none (digits-Undashed fuel (n / 10))
      (digit-Undashed (n % 10)))

behind_dash-dash : (s t : String) → Undashed t → behind_dash (s <> ("-" <> t)) ≡ some t
unfolding behind_dash
behind_dash-dash String.[] t h = rw (nil-append, cons-append, nil-append) (rw h refl)
behind_dash-dash (String.◌∷◌ c s) t h = rw (cons-append, behind_dash-dash s t h) refl

-- Behind the last dash stands the number that the text ends with.
pub after_last_dash-format_nat :
    (s : String) (n : ℕ) → after_last_dash (s <> ("-" <> format_nat n)) ≡ format_nat n
unfolding after_last_dash format_nat
after_last_dash-format_nat s n =
    rw (behind_dash-dash s (digits (suc n) n) (digits-Undashed (suc n) n), after_last_dash) refl

-- Below 2 ^ 63, a number written in decimal is read back by ParseInt.
pub parse_int-format_nat : (n : ℕ) → n < 2 ^ 63 → parse_int (format_nat n) ≡ value (pos n)
unfolding format_nat parse_int
parse_int-format_nat n h =
    starts (digits-IsDigitText (suc n) n (omega arith))
      (rw append-nil at (scan-digits (suc n) n "" (omega arith) (omega arith)))
  where
    starts : {s : String} → IsDigitText s → scan 0 s ≡ scan n "" → parse_int s ≡ value (pos n)
    starts {s} d e = rw d.split (ground (arith, rw d.split at e))

-- `%d` prints two numbers alike only if they are the same.
pub format_nat-injective : (m n : ℕ) → m < 2 ^ 63 → n < 2 ^ 63 → format_nat m ≡ format_nat n → m ≡ n
format_nat-injective m n hm hn e =
    cc (ap parse_int e, parse_int-format_nat m hm, parse_int-format_nat n hn)
