-- ===== src/Canonical/RoundTrip.antt =====
-- `JSON.parse` after `canonicalJson`: the value with its members in the order of the keys.
pub mod Fixed
pub mod Basic
use mathlib.Core.List.{append-nil}
use vor.Common.{
  ℕ, suc, ◌+◌, ◌≤◌, ◌≡◌, refl, sym, ap, ◌∙◌, subst, Bool, true, false, Option, none, some, List, [],
  ◌∷◌, ◌++◌, length, arith, All, Text, int, nan, print_int, codes,
}
use vor.Canonical.{
  JsonValue, null, boolean, number, string, array, object, Items, nil, item, Members, end, member,
  sort_keys, write_entries, write_items, escape_json_string, canonical_json, canonical_items,
  canonical_members, ◌>>=◌,
}
use vor.Canonical.Parse.{skip, parse_value, whole, parse_json}
use vor.Canonical.Reads.Values.{
  Reads, ReadsAll, null-Reads, true-Reads, false-Reads, number-Reads, string-Reads,
}
use vor.Canonical.Reads.Arrays.{array-Reads}
use vor.Canonical.Reads.Objects.{ReadsEntries, object-Reads}
use vor.Canonical.Reads.Sorted.{
  sort_members, normal, normal_items, normal_members, IsPlain, ArePlain, HasPlain,
  IsDistinct-sort_members, IsDistinct-normal_members, ReadsEntries-sort,
}

pub bind_some {ℓ κ} :
    {A : Type ℓ} {B : Type κ} (o : Option A) (k : A → Option B) {b : B}
    → (o >>= k) ≡ some b
    → (a : A) × (o ≡ some a) × (k a ≡ some b)
bind_some none k h = cc
bind_some (some a) k h = (a, refl, h)

pub some-injective {ℓ} : {A : Type ℓ} {a b : A} → some a ≡ some b → a ≡ b
some-injective h = cc

mutual
  unfolding canonical_json normal IsPlain

  value-Reads :
      (v : JsonValue) (t : Text) → canonical_json v ≡ some t → IsPlain v → Reads t (normal v)
  value-Reads null t e p = subst (λ s. Reads s null) (some-injective e) null-Reads
  value-Reads (boolean true) t e p =
      subst (λ s. Reads s (boolean true)) (some-injective e) true-Reads
  value-Reads (boolean false) t e p =
      subst (λ s. Reads s (boolean false)) (some-injective e) false-Reads
  value-Reads (number nan) t e p = cc
  value-Reads (number (int z)) t e p =
      subst (λ s. Reads s (number (int z))) (some-injective e) (number-Reads z)
  value-Reads (string s) t e p =
      subst (λ x. Reads x (string s)) (some-injective e) (string-Reads s p)
  value-Reads (array vs) t e p =
      let (ts, written, same) = bind_some (canonical_items vs) _ e in
      subst (λ s. Reads s (array (normal_items vs))) (some-injective same)
        (array-Reads ts (normal_items vs) (items-ReadsAll vs ts written p))
  value-Reads (object ms) t e (d, p) =
      let (es, written, same) = bind_some (canonical_members ms) _ e in
      let sorted = sort_members (normal_members ms) in
      subst (λ s. Reads s (object sorted)) (some-injective same)
        (object-Reads (sort_keys es) sorted
          (ReadsEntries-sort es (normal_members ms) (members-ReadsEntries ms es written p))
          (IsDistinct-sort_members (normal_members ms) (IsDistinct-normal_members ms d)))

  items-ReadsAll :
      (vs : Items) (ts : List Text)
      → canonical_items vs ≡ some ts
      → ArePlain vs
      → ReadsAll ts (normal_items vs)
  items-ReadsAll nil ts e p = subst (λ xs. ReadsAll xs nil) (some-injective e) tt
  items-ReadsAll (item v vs) ts e (p, ps) =
      let (t, one, e1) = bind_some (canonical_json v) _ e in
      let (us, more, e2) = bind_some (canonical_items vs) _ e1 in
      subst (λ xs. ReadsAll xs (item (normal v) (normal_items vs))) (some-injective e2)
        (value-Reads v t one p, items-ReadsAll vs us more ps)

  members-ReadsEntries :
      (ms : Members) (es : List (Text × Text))
      → canonical_members ms ≡ some es
      → HasPlain ms
      → ReadsEntries es (normal_members ms)
  members-ReadsEntries end es e p = subst (λ xs. ReadsEntries xs end) (some-injective e) tt
  members-ReadsEntries (member k v ms) es e (basic, p, ps) =
      let (t, one, e1) = bind_some (canonical_json v) _ e in
      let (fs, more, e2) = bind_some (canonical_members ms) _ e1 in
      subst (λ xs. ReadsEntries xs (member k (normal v) (normal_members ms))) (some-injective e2)
        (refl, basic, value-Reads v t one p, members-ReadsEntries ms fs more ps)

whole-done : (v : JsonValue) → whole (some (v, [])) ≡ some v
unfolding skip
whole-done v = refl

-- What `canonicalJson` writes of a value whose texts have no surrogates and whose objects have
-- distinct keys, `JSON.parse` reads as that value with every object's members in the order of the
-- keys.
pub parse_json-canonical_json :
    (v : JsonValue) (t : Text)
    → IsPlain v
    → canonical_json v ≡ some t
    → parse_json t ≡ some (normal v)
unfolding parse_json
parse_json-canonical_json v t plain written =
    let h = value-Reads v t written plain in
    ap (λ s. whole (parse_value (length t + length t + 2) s)) (sym (append-nil t))
    ∙ ap whole (h.read (length t + length t + 2) [] (omega arith) refl)
    ∙ whole-done (normal v)
