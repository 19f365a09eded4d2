-- ===== src/Common/Strings.antt =====
-- JavaScript strings: lists of UTF-16 code units, with the operations of `String` that the code
-- calls. `to_lower` changes the ASCII letters; the laws about it are for ASCII text.
use Prim.Native.Char.{code}
use Prim.Native.Nat.{ℕ, suc, ◌+◌}
use Prim.Native.String.{String}
use mathlib.Core.Path.{◌≡◌, refl}
use mathlib.Core.Logic.{◌↔◌, ◌≢◌, inl, inr}
use mathlib.Core.Bool.{Bool, true, false, ◌&&◌, ◌||◌}
use mathlib.Core.Option.{Option, none, some}
use mathlib.Core.List.{List, [], ◌∷◌, ◌++◌, map}
use native.Mathlib.Omega.{arith}
use vor.Common.Tests.{leb, ◌==◌, if◌then◌else◌, Bool-cases}
use vor.Common.Lists.{All, Any, drop_while}

abbrev pub Text : Type 0
Text = List ℕ

-- The code units of a literal (its characters are all in the basic plane).
abbrev pub codes : String → Text
codes String.[] = []
codes (String.◌∷◌ c s) = code c ∷ codes s

-- `===` on strings
unfoldable pub text_eq : Text → Text → Bool
text_eq [] [] = true
text_eq (a ∷ s) (b ∷ t) = a == b && text_eq s t
text_eq _ _ = false

pub text_eq_sound : (s t : Text) → text_eq s t ≡ true → s ≡ t
unfolding text_eq
text_eq_sound [] [] h = refl
text_eq_sound (a ∷ s) (b ∷ t) h = ground (arith, text_eq_sound s t)
text_eq_sound [] (b ∷ t) h = cc
text_eq_sound (a ∷ s) [] h = cc

pub text_eq_refl : (s : Text) → text_eq s s ≡ true
unfolding text_eq
text_eq_refl [] = refl
text_eq_refl (a ∷ s) = ground (arith, text_eq_refl s)

pub text_eq_iff : (s t : Text) → (text_eq s t ≡ true) ↔ (s ≡ t)
text_eq_iff s t = (text_eq_sound s t, λ e. rw e (text_eq_refl t))

-- `array.includes(s)` and `set.has(s)`
unfoldable pub includes : List Text → Text → Bool
includes [] s = false
includes (t ∷ ts) s = text_eq t s || includes ts s

unfoldable pub starts_with : Text → Text → Bool
starts_with s [] = true
starts_with [] (p ∷ ps) = false
starts_with (c ∷ s) (p ∷ ps) = c == p && starts_with s ps

pub starts_with-append : (p s : Text) → starts_with (p ++ s) p ≡ true
unfolding starts_with
starts_with-append [] s = refl
starts_with-append (c ∷ p) s = ground (arith, starts_with-append p s)

-- WhiteSpace and LineTerminator of ECMAScript
unfoldable pub is_white : ℕ → Bool
is_white c =
    leb 9 c && leb c 13
    || c == 32
    || c == 160
    || c == 0x1680
    || leb 0x2000 c && leb c 0x200a
    || c == 0x2028
    || c == 0x2029
    || c == 0x202f
    || c == 0x205f
    || c == 0x3000
    || c == 0xfeff

-- Puts a unit before a text whose trailing white space is gone.
unfoldable pub keep_end : ℕ → Text → Text
keep_end c [] = if is_white c then [] else c ∷ []
keep_end c (d ∷ t) = c ∷ d ∷ t

unfoldable pub trim_end : Text → Text
unfolding keep_end
trim_end [] = []
trim_end (c ∷ s) = keep_end c (trim_end s)

unfoldable pub trim : Text → Text
unfolding trim_end is_white
trim s = drop_while is_white (trim_end s)

unfoldable pub lower : ℕ → ℕ
lower c = if leb b'A' c && leb c b'Z' then c + 32 else c

unfoldable pub to_lower : Text → Text
unfolding lower
to_lower s = map lower s

unfoldable pub cut : ℕ → ℕ → List Text → List Text
cut sep c [] = []
cut sep c (t ∷ ts) = if c == sep then [] ∷ t ∷ ts else (c ∷ t) ∷ ts

-- `s.split(sep)` for a separator of one unit: never empty
unfoldable pub split : ℕ → Text → List Text
unfolding cut
split sep [] = [] ∷ []
split sep (c ∷ s) = cut sep c (split sep s)

-- `array.join(sep)` for a separator of one unit
unfoldable pub join : ℕ → List Text → Text
join sep [] = []
join sep (t ∷ []) = t
join sep (t ∷ u ∷ ts) = t ++ (sep ∷ join sep (u ∷ ts))

abbrev pub first_index : Bool → Option ℕ → Option ℕ
first_index true rest = some 0
first_index false none = none
first_index false (some n) = some (suc n)

-- `s.indexOf(c)`
unfoldable pub index_of : ℕ → Text → Option ℕ
index_of c [] = none
index_of c (d ∷ s) = first_index (d == c) (index_of c s)

abbrev pub last_index : Bool → Option ℕ → Option ℕ
last_index b (some n) = some (suc n)
last_index true none = some 0
last_index false none = none

-- `s.lastIndexOf(c)`
unfoldable pub last_index_of : ℕ → Text → Option ℕ
last_index_of c [] = none
last_index_of c (d ∷ s) = last_index (d == c) (last_index_of c s)

-- A text with no unit `sep` splits into itself.
abbrev pub Lacks : ℕ → Text → Type 0
Lacks sep = All (λ c. c ≢ sep)

pub split-cons : (sep : ℕ) (u : Text) → (t : Text) × (ts : List Text) × (split sep u ≡ t ∷ ts)
unfolding split
split-cons sep [] = ([], [], refl)
split-cons sep (c ∷ u) =
    let (t, ts, e) = split-cons sep u in
    elim (Bool-cases (c == sep)) [
      | inl same ↦ ([], t ∷ ts, rw (e, same))
      | inr other ↦ (c ∷ t, ts, rw (e, other))
    ]

pub split_last : (sep : ℕ) (t : Text) → Lacks sep t → split sep t ≡ t ∷ []
unfolding split
split_last sep [] h = refl
split_last sep (c ∷ t) (p, h) = rw (split_last sep t h) (ground arith)

pub split-append :
    (sep : ℕ) (t u : Text) → Lacks sep t → split sep (t ++ (sep ∷ u)) ≡ t ∷ split sep u
unfolding split
split-append sep [] u h = let (t, ts, e) = split-cons sep u in rw e (ground arith)
split-append sep (c ∷ t) u (p, h) = rw (split-append sep t u h) (ground arith)

-- `includes`, read as a statement.
pub includes_iff : (ts : List Text) (s : Text) → (includes ts s ≡ true) ↔ Any (λ t. t ≡ s) ts
unfolding includes
includes_iff [] s = (λ h. cc, λ h. absurd h)
includes_iff (t ∷ ts) s = ground (arith, includes_iff ts s, text_eq_iff t s)

pub includes-false_iff : (ts : List Text) (s : Text) → (includes ts s ≡ false) ↔ All (λ t. t ≢ s) ts
unfolding includes
includes-false_iff [] s = (λ h. tt, λ h. refl)
includes-false_iff (t ∷ ts) s = ground (arith, includes-false_iff ts s, text_eq_iff t s)
