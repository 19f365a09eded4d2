-- ===== src/Canonical/Reads/Sorted.antt =====
-- Values whose members stand in the order of the written keys, and their distinct keys.
use vor.Common.{
  ◌≡◌, refl, sym, ap, ◌∙◌, subst, Bool, true, false, none, some, List, [], ◌∷◌, if◌then◌else◌,
  if-Holds, arith, All, Text, text_eq, text_eq_iff,
}
use vor.Canonical.{
  JsonValue, null, boolean, number, string, array, object, Items, nil, item, Members, end, member,
  key_le, insert_key, sort_keys,
}
use vor.Canonical.Parse.{get}
use vor.Canonical.Quote.{IsBasic}
use vor.Canonical.Reads.Values.{Reads}
use vor.Canonical.Reads.Objects.{ReadsEntries, IsDistinct}

unfoldable pub insert_member : Text → JsonValue → Members → Members
unfolding key_le
insert_member k v end = member k v end
insert_member k v (member j w ms) =
    let later = member j w (insert_member k v ms) in
    if key_le k j then member k v (member j w ms) else later

unfoldable pub sort_members : Members → Members
unfolding insert_member
sort_members end = end
sort_members (member k v ms) = insert_member k v (sort_members ms)

-- The value with the members of every object in the order of the keys.
unfoldable mutual
  unfolding sort_members

  pub normal : JsonValue → JsonValue
  normal (array vs) = array (normal_items vs)
  normal (object ms) = object (sort_members (normal_members ms))
  normal null = null
  normal (boolean b) = boolean b
  normal (number x) = number x
  normal (string s) = string s

  pub normal_items : Items → Items
  normal_items nil = nil
  normal_items (item v vs) = item (normal v) (normal_items vs)

  pub normal_members : Members → Members
  normal_members end = end
  normal_members (member k v ms) = member k (normal v) (normal_members ms)

-- Texts without surrogates, and objects with distinct keys.
unfoldable mutual
  pub IsPlain : JsonValue → Type 0
  IsPlain (string s) = All IsBasic s
  IsPlain (array vs) = ArePlain vs
  IsPlain (object ms) = IsDistinct ms × HasPlain ms
  IsPlain null = Unit
  IsPlain (boolean b) = Unit
  IsPlain (number x) = Unit

  pub ArePlain : Items → Type 0
  ArePlain nil = Unit
  ArePlain (item v vs) = IsPlain v × ArePlain vs

  pub HasPlain : Members → Type 0
  HasPlain end = Unit
  HasPlain (member k v ms) = All IsBasic k × IsPlain v × HasPlain ms

get-insert_member :
    (k j : Text) (v : JsonValue) (ms : Members)
    → get j ms ≡ none
    → get k (insert_member j v ms) ≡ (if text_eq j k then some v else get k ms)
unfolding get insert_member
get-insert_member k j v end h = refl
get-insert_member k j v (member i w ms) h =
    ground (arith, get-insert_member k j v ms, text_eq_iff j k, text_eq_iff i k, text_eq_iff i j)

get-sort_members : (k : Text) (ms : Members) → IsDistinct ms → get k (sort_members ms) ≡ get k ms
unfolding get sort_members
get-sort_members k end d = refl
get-sort_members k (member j v ms) (apart, d) =
    get-insert_member k j v (sort_members ms) (get-sort_members j ms d ∙ apart)
    ∙ ap (λ o. if text_eq j k then some v else o) (get-sort_members k ms d)

get-none :
    (k j : Text) (w : JsonValue) (ms : Members)
    → get k (member j w ms) ≡ none
    → (text_eq k j ≡ false) × (get k ms ≡ none)
unfolding get
get-none k j w ms h = (ground (arith, text_eq_iff j k, text_eq_iff k j), ground arith)

IsDistinct-insert_member :
    (k : Text) (v : JsonValue) (ms : Members)
    → get k ms ≡ none
    → IsDistinct ms
    → IsDistinct (insert_member k v ms)
unfolding insert_member get
IsDistinct-insert_member k v end h d = (refl, tt)
IsDistinct-insert_member k v (member j w ms) h (apart, d) =
    let (other, absent) = get-none k j w ms h in
    if-Holds IsDistinct (key_le k j) (member k v (member j w ms))
      (member j w (insert_member k v ms)) (h, (apart, d))
      (
        get-insert_member j k v ms absent ∙ ap (λ b. if b then some v else get j ms) other ∙ apart,
        IsDistinct-insert_member k v ms absent d,
      )

pub IsDistinct-sort_members : (ms : Members) → IsDistinct ms → IsDistinct (sort_members ms)
unfolding sort_members
IsDistinct-sort_members end d = tt
IsDistinct-sort_members (member k v ms) (apart, d) =
    IsDistinct-insert_member k v (sort_members ms) (get-sort_members k ms d ∙ apart)
      (IsDistinct-sort_members ms d)

absent-normal_members :
    (k : Text) (ms : Members) → get k ms ≡ none → get k (normal_members ms) ≡ none
unfolding get normal_members
absent-normal_members k end h = refl
absent-normal_members k (member j w ms) h = ground (arith, absent-normal_members k ms)

pub IsDistinct-normal_members : (ms : Members) → IsDistinct ms → IsDistinct (normal_members ms)
unfolding normal_members
IsDistinct-normal_members end d = tt
IsDistinct-normal_members (member k v ms) (apart, d) =
    (absent-normal_members k ms apart, IsDistinct-normal_members ms d)

-- Both branches of a test, and the same test on the other side.
pub if-Both :
    {A B : Type 0} (R : A → B → Type 0) (b c : Bool) (x y : A) (x' y' : B)
    → b ≡ c
    → R x x'
    → R y y'
    → R (if b then x else y) (if c then x' else y')
if-Both R true true x y x' y' e h k = h
if-Both R false false x y x' y' e h k = k
if-Both R true false x y x' y' e h k = cc
if-Both R false true x y x' y' e h k = cc

ReadsEntries-insert :
    (k t : Text) (v : JsonValue) (es : List (Text × Text)) (ms : Members)
    → All IsBasic k
    → Reads t v
    → ReadsEntries es ms
    → ReadsEntries (insert_key (k, t) es) (insert_member k v ms)
unfolding insert_key insert_member
ReadsEntries-insert k t v [] end basic h hs = (refl, basic, h, tt)
ReadsEntries-insert k t v [] (member j w ms) basic h hs = absurd hs
ReadsEntries-insert k t v (e ∷ es) end basic h hs = absurd hs
ReadsEntries-insert k t v ((i, u) ∷ es) (member j w ms) basic h (same, p, q, hs) =
    if-Both ReadsEntries (key_le k i) (key_le k j) ((k, t) ∷ (i, u) ∷ es)
      ((i, u) ∷ insert_key (k, t) es) (member k v (member j w ms))
      (member j w (insert_member k v ms)) (ap (key_le k) same) (refl, basic, h, (same, p, q, hs))
      (same, p, q, ReadsEntries-insert k t v es ms basic h hs)

pub ReadsEntries-sort :
    (es : List (Text × Text)) (ms : Members)
    → ReadsEntries es ms
    → ReadsEntries (sort_keys es) (sort_members ms)
unfolding sort_keys sort_members
ReadsEntries-sort [] end hs = tt
ReadsEntries-sort [] (member k v ms) hs = absurd hs
ReadsEntries-sort (e ∷ es) end hs = absurd hs
ReadsEntries-sort ((i, u) ∷ es) (member k v ms) (same, basic, h, hs) =
    subst
      (λ j. ReadsEntries (insert_key (j, u) (sort_keys es)) (insert_member k v (sort_members ms)))
      (sym same)
      (ReadsEntries-insert k u v (sort_keys es) (sort_members ms) basic h
        (ReadsEntries-sort es ms hs))
