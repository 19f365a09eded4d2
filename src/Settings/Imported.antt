-- ===== src/Settings/Imported.antt =====
-- What is imported is what is activated: a link of an import parses to the same profile on its own.
use vor.Common.{
  ℕ, ◌≡◌, ◌≢◌, refl, sym, ap, ◌∙◌, inl, inr, Bool-cases, true, Option, none, some, List, [], ◌∷◌,
  ◌++◌, map, filter, if◌then◌else◌, arith, Text, codes, All, Any, trim, trim_end, keep_end,
  is_white, drop_while, if-Holds, starts_with, split, Lacks, split_last, Bytes, cut, ◌==◌, ==_iff,
  decode_lossy,
}
use vor.Crypto.{b64_decode_forgiving}
use vor.Common.Trim.{trim-trim}
use mathlib.Core.Bool.{false≢true}
use vor.Store.{World}
use vor.Settings.{SettingsState, profile_of, first_profile, returned, settle_activate, activate}
use vor.Subscription.{ParsedProfile, ParseResult, parsed}
use vor.Subscription.Links.{
  by_scheme, parse_link, has_scheme, is_filled, parse_lines, decoded_lines, subscription_of,
  parse_subscription,
}
use vor.Subscription.Links.Accepted.{parse_link-accepted}

scheme_here : (a s : Text) → starts_with s (a ++ codes "://") ≡ true → has_scheme s ≡ true
unfolding has_scheme starts_with
scheme_here [] (c ∷ s) h = rw h refl
scheme_here [] [] h = cc
scheme_here (d ∷ a) [] h = cc
scheme_here (d ∷ a) (c ∷ s) h = ground (arith, scheme_here a s)

by_scheme-has_scheme : (l : Text) (p : ParsedProfile) → by_scheme l ≡ parsed p → has_scheme l ≡ true
by_scheme-has_scheme [] p e = cc
by_scheme-has_scheme (c ∷ l) p e = ground (
  arith,
  scheme_here (codes "vless") (c ∷ l),
  scheme_here (codes "vmess") (c ∷ l),
  scheme_here (codes "trojan") (c ∷ l),
  scheme_here (codes "ss") (c ∷ l),
)

-- The pieces of a split have no separator, and trimming brings none in.
keep_end-Lacks : (sep c : ℕ) (t : Text) → c ≢ sep → Lacks sep t → Lacks sep (keep_end c t)
unfolding keep_end
keep_end-Lacks sep c [] h k = if-Holds (Lacks sep) (is_white c) [] (c ∷ []) tt (h, tt)
keep_end-Lacks sep c (d ∷ t) h k = (h, k)

trim_end-Lacks : (sep : ℕ) (t : Text) → Lacks sep t → Lacks sep (trim_end t)
unfolding trim_end
trim_end-Lacks sep [] h = tt
trim_end-Lacks sep (c ∷ t) (h, k) = keep_end-Lacks sep c (trim_end t) h (trim_end-Lacks sep t k)

drop_while-Lacks : (sep : ℕ) (t : Text) → Lacks sep t → Lacks sep (drop_while is_white t)
drop_while-Lacks sep [] h = tt
drop_while-Lacks sep (c ∷ t) (h, k) =
    if-Holds (Lacks sep) (is_white c) (drop_while is_white t) (c ∷ t) (drop_while-Lacks sep t k)
      (h, k)

trim-Lacks : (sep : ℕ) (t : Text) → Lacks sep t → Lacks sep (trim t)
unfolding trim
trim-Lacks sep t h = drop_while-Lacks sep (trim_end t) (trim_end-Lacks sep t h)

cut-Lacks : (sep c : ℕ) (ts : List Text) → All (Lacks sep) ts → All (Lacks sep) (cut sep c ts)
unfolding cut
cut-Lacks sep c [] h = tt
cut-Lacks sep c (t ∷ ts) (h, k) = elim (Bool-cases (c == sep)) [
  | inl same ↦ rw same (tt, (h, k))
  | inr other ↦ rw other (((λ e. cc ((==_iff c sep).1 e, other)), h), k)
]

split-Lacks : (sep : ℕ) (s : Text) → All (Lacks sep) (split sep s)
unfolding split
split-Lacks sep [] = (tt, tt)
split-Lacks sep (c ∷ s) = cut-Lacks sep c (split sep s) (split-Lacks sep s)

module _ (p : ParsedProfile) where
  abbrev IsParsed : ParseResult → Type 0
  IsParsed r = r ≡ parsed p

  -- A trimmed line that parses to the profile.
  record LineOf (l : Text) : Type 0 where
    whole : Lacks 10 l
    trimmed : trim l ≡ l
    filled : is_filled l ≡ true
    links : parse_link l ≡ parsed p

  line_of :
      (xs : List Text)
      → All (Lacks 10) xs
      → Any IsParsed (map parse_link (filter is_filled (map trim xs)))
      → (l : Text) × LineOf l
  line_of [] h k = absurd k
  line_of (x ∷ xs) (h, hs) k = elim (Bool-cases (is_filled (trim x))) [
    | inr blank ↦ line_of xs hs (rw blank at k)
    | inl filled ↦ elim (rw filled at k) as (λ _. (l : Text) × LineOf l) [
      | inl links ↦ (
        trim x,
        record { whole = trim-Lacks 10 x h; trimmed = trim-trim x; filled = filled; links = links },
      )
      | inr later ↦ line_of xs hs later
    ]
  ]

  lines_of : (text : Text) → Any IsParsed (parse_lines text) → (l : Text) × LineOf l
  lines_of text k = line_of (split 10 text) (split-Lacks 10 text) k

  decoded_of : (o : Option Bytes) → Any IsParsed (decoded_lines o) → (l : Text) × LineOf l
  decoded_of none (inl e) = cc
  decoded_of none (inr e) = absurd e
  decoded_of (some bytes) k = lines_of (decode_lossy bytes) k

  subscription_line : (t : Text) → Any IsParsed (subscription_of t) → (l : Text) × LineOf l
  subscription_line [] (inl e) = cc
  subscription_line [] (inr e) = absurd e
  subscription_line (c ∷ s) k = elim (Bool-cases (has_scheme (c ∷ s))) [
    | inl links ↦ lines_of (c ∷ s) (rw links at k)
    | inr coded ↦ decoded_of (b64_decode_forgiving (c ∷ s)) (rw coded at k)
  ]

  reparse : (l : Text) → LineOf l → parse_subscription l ≡ parsed p ∷ []
  unfolding parse_subscription parse_link
  reparse [] h = absurd (false≢true h.filled)
  reparse (c ∷ s) h =
      let l = c ∷ s in
      let named = by_scheme-has_scheme l p (ap by_scheme (sym h.trimmed) ∙ h.links) in
      ap subscription_of h.trimmed
      ∙ ap (λ b. if b then parse_lines l else decoded_lines (b64_decode_forgiving l)) named
      ∙ ap (λ ts. map parse_link (filter is_filled (map trim ts))) (split_last 10 l h.whole)
      ∙ ap (λ t. map parse_link (filter is_filled (t ∷ []))) h.trimmed
      ∙ ap (λ r. r ∷ []) h.links

  raw_line : (l : Text) → LineOf l → p.raw ≡ l
  raw_line l h = (parse_link-accepted l p h.links).0 ∙ h.trimmed

  reparse_raw :
      (text : Text)
      → Any IsParsed (parse_subscription text)
      → parse_subscription p.raw ≡ parsed p ∷ []
  unfolding parse_subscription
  reparse_raw text k =
      let (l, h) = subscription_line (trim text) k in
      ap parse_subscription (raw_line l h) ∙ reparse l h

  -- A profile that an import lists as valid is what `activate` makes active when it is given the
  -- text that the import kept for it: its protocol, its address and its port.
  pub activate-imported :
      {F : Type 0} (now : ℕ) (text : Text) (sw : SettingsState × World F)
      → Any (λ r. r ≡ parsed p) (parse_subscription text)
      → (activate now p.raw sw).0.active ≡ some (profile_of p p.raw)
  unfolding activate
  activate-imported now text (s, w) k =
      ap (λ rs. (settle_activate now p.raw (first_profile (returned rs)) (s, w)).0.active)
        (reparse_raw text k)
