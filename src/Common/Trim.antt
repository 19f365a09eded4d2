-- ===== src/Common/Trim.antt =====
-- `trim` of the language: what it leaves has no white space at its ends.
use vor.Common.{
  ℕ, ◌≡◌, refl, ap, ◌∙◌, [], ◌∷◌, arith, Text, is_white, keep_end, trim_end, trim, drop_while,
}

keep_end-clean : (c : ℕ) (t : Text) → trim_end t ≡ t → trim_end (keep_end c t) ≡ keep_end c t
unfolding trim_end keep_end
keep_end-clean c [] h = ground arith
keep_end-clean c (d ∷ t) h = rw h refl

trim_end-idempotent : (s : Text) → trim_end (trim_end s) ≡ trim_end s
unfolding trim_end
trim_end-idempotent [] = refl
trim_end-idempotent (c ∷ s) = keep_end-clean c (trim_end s) (trim_end-idempotent s)

-- A text without white space at its end has tails of that kind.
keep_end-tail : (c : ℕ) (t s : Text) → keep_end c t ≡ c ∷ s → t ≡ s
unfolding keep_end
keep_end-tail c [] s h = ground (arith, h)
keep_end-tail c (d ∷ t) s h = cc

pub trim_end-tail : (c : ℕ) (s : Text) → trim_end (c ∷ s) ≡ c ∷ s → trim_end s ≡ s
unfolding trim_end
trim_end-tail c s h = keep_end-tail c (trim_end s) s h

trim_end-drop :
    (s : Text) → trim_end s ≡ s → trim_end (drop_while is_white s) ≡ drop_while is_white s
trim_end-drop [] h = h
trim_end-drop (c ∷ s) h = ground (arith, trim_end-drop s (trim_end-tail c s h), h)

drop-drop : (s : Text) → drop_while is_white (drop_while is_white s) ≡ drop_while is_white s
drop-drop [] = refl
drop-drop (c ∷ s) = ground (arith, drop-drop s)

pub trim-trim : (s : Text) → trim (trim s) ≡ trim s
unfolding trim
trim-trim s =
    ap (drop_while is_white) (trim_end-drop (trim_end s) (trim_end-idempotent s))
    ∙ drop-drop (trim_end s)

pub trim_end-trim : (s : Text) → trim_end (trim s) ≡ trim s
unfolding trim
trim_end-trim s = trim_end-drop (trim_end s) (trim_end-idempotent s)
