-- ===== src/Hwid/Normal.antt =====
-- `normalizeHwid` of hwid.ts gives a normal form.
use vor.Common.{
  ℕ, ◌≡◌, refl, ap, ◌∙◌, inl, inr, subst, Bool-cases, true, false, [], ◌∷◌, ◌++◌, arith, Text, All,
  is_white, keep_end, trim_end, trim, drop_while, lower, to_lower, starts_with, starts_with-append,
  if-Holds, if◌then◌else◌, ◌==◌, ◌&&◌,
}
use vor.Common.Trim.{trim_end-tail, trim_end-trim, trim-trim}
use vor.Hwid.{hwid_prefix, strip_0x, prefixed, normalize_hwid}

lower-lower : (c : ℕ) → lower (lower c) ≡ lower c
unfolding lower
lower-lower c = ground arith

is_white-lower : (c : ℕ) → is_white (lower c) ≡ is_white c
unfolding lower is_white
is_white-lower c = ground arith

to_lower-idempotent : (s : Text) → to_lower (to_lower s) ≡ to_lower s
unfolding to_lower
to_lower-idempotent [] = refl
to_lower-idempotent (c ∷ s) = rw (lower-lower c, to_lower-idempotent s) refl

to_lower-keep_end : (c : ℕ) (t : Text) → keep_end (lower c) (to_lower t) ≡ to_lower (keep_end c t)
unfolding keep_end to_lower
to_lower-keep_end c [] = rw (is_white-lower c) (ground arith)
to_lower-keep_end c (d ∷ t) = refl

to_lower-trim_end : (s : Text) → trim_end (to_lower s) ≡ to_lower (trim_end s)
unfolding trim_end to_lower
to_lower-trim_end [] = refl
to_lower-trim_end (c ∷ s) =
    ap (keep_end (lower c)) (to_lower-trim_end s) ∙ to_lower-keep_end c (trim_end s)

to_lower-drop : (s : Text) → drop_while is_white (to_lower s) ≡ to_lower (drop_while is_white s)
unfolding to_lower
to_lower-drop [] = refl
to_lower-drop (c ∷ s) = rw (is_white-lower c) (ground (arith, to_lower-drop s))

trim-to_lower : (s : Text) → trim (to_lower s) ≡ to_lower (trim s)
unfolding trim
trim-to_lower s = ap (drop_while is_white) (to_lower-trim_end s) ∙ to_lower-drop (trim_end s)

keep_end-visible : (c : ℕ) (s : Text) → is_white c ≡ false → keep_end c s ≡ c ∷ s
unfolding keep_end
keep_end-visible c [] h = rw h refl
keep_end-visible c (d ∷ s) h = refl

trim_end-append :
    (p u : Text) → All (λ c. is_white c ≡ false) p → trim_end u ≡ u → trim_end (p ++ u) ≡ p ++ u
unfolding trim_end
trim_end-append [] u h k = k
trim_end-append (c ∷ p) u (visible, h) k =
    ap (keep_end c) (trim_end-append p u h k) ∙ keep_end-visible c (p ++ u) visible

-- What is left of a text once `0x` is taken off.
strip_0x-Keeps :
    (P : Text → Type 0) (s : Text)
    → P s
    → ((c d : ℕ) (t : Text) → s ≡ c ∷ d ∷ t → P t)
    → P (strip_0x s)
unfolding strip_0x
strip_0x-Keeps P [] h k = h
strip_0x-Keeps P (c ∷ []) h k = h
strip_0x-Keeps P (c ∷ d ∷ t) h k = if-Holds P (c == 48 && d == 120) t (c ∷ d ∷ t) (k c d t refl) h

-- Lower-cased, and without white space at its end.
abbrev IsPlain : Text → Type 0
IsPlain s = (to_lower s ≡ s) × (trim_end s ≡ s)

IsPlain-tail : (c : ℕ) (s : Text) → IsPlain (c ∷ s) → IsPlain s
unfolding to_lower
IsPlain-tail c s (low, clean) = (cc, trim_end-tail c s clean)

to_lower-append : (s t : Text) → to_lower (s ++ t) ≡ to_lower s ++ to_lower t
unfolding to_lower
to_lower-append [] t = refl
to_lower-append (c ∷ s) t = ap (lower c ∷◌) (to_lower-append s t)

prefix_visible : All (λ c. is_white c ≡ false) hwid_prefix
unfolding is_white
prefix_visible = (
  refl,
  (refl, (refl, (refl, (refl, (refl, (refl, (refl, (refl, (refl, (refl, (refl, tt))))))))))),
)

prefix_lower : to_lower hwid_prefix ≡ hwid_prefix
unfolding to_lower lower
prefix_lower = refl

drop-prefix : (u : Text) → drop_while is_white (hwid_prefix ++ u) ≡ hwid_prefix ++ u
unfolding is_white
drop-prefix u = refl

prefixed_same : (s : Text) → starts_with s hwid_prefix ≡ true → prefixed s ≡ s
unfolding prefixed
prefixed_same s has = ap (λ b. if b then s else hwid_prefix ++ strip_0x s) has

normal_same :
    (s : Text)
    → trim s ≡ s
    → to_lower s ≡ s
    → starts_with s hwid_prefix ≡ true
    → normalize_hwid s ≡ s
unfolding normalize_hwid
normal_same s trimmed low has =
    ap (λ t. prefixed (to_lower t)) trimmed ∙ ap prefixed low ∙ prefixed_same s has

with_prefix : (u : Text) → IsPlain u → normalize_hwid (hwid_prefix ++ u) ≡ hwid_prefix ++ u
unfolding trim
with_prefix u (low, clean) =
    normal_same (hwid_prefix ++ u)
      (ap (drop_while is_white) (trim_end-append hwid_prefix u prefix_visible clean)
        ∙ drop-prefix u)
      (to_lower-append hwid_prefix u
        ∙ ap (λ p. p ++ to_lower u) prefix_lower
        ∙ ap (λ v. hwid_prefix ++ v) low)
      (starts_with-append hwid_prefix u)

normal_lower : (s : Text) → trim s ≡ s → IsPlain s → normalize_hwid (prefixed s) ≡ prefixed s
unfolding prefixed
normal_lower s trimmed plain = elim (Bool-cases (starts_with s hwid_prefix)) [
  | inl has ↦ rw has (normal_same s trimmed plain.0 has)
  | inr lacks ↦ rw lacks (
      with_prefix (strip_0x s) (
        strip_0x-Keeps IsPlain s plain
          (λ c d t split. IsPlain-tail d t (IsPlain-tail c (d ∷ t) (subst IsPlain split plain)))))
]

-- Normalising an identifier that is normalised already changes nothing.
pub normalize_hwid-idempotent : (s : Text) → normalize_hwid (normalize_hwid s) ≡ normalize_hwid s
unfolding normalize_hwid
normalize_hwid-idempotent s =
    normal_lower (to_lower (trim s)) (trim-to_lower (trim s) ∙ ap to_lower (trim-trim s))
      (to_lower-idempotent (trim s), to_lower-trim_end (trim s) ∙ ap to_lower (trim_end-trim s))
