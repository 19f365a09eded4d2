-- ===== src/Canonical/RoundTrip/Fixed.antt =====
-- A canonical text is its own canonical form.
use vor.Common.{
  ◌≡◌, refl, ap, ◌∙◌, subst, Bool-cases, inl, inr, true, false, some, List, [], ◌∷◌, ◌++◌,
  if◌then◌else◌, if-Holds, arith, Bytes, Text, utf8,
}
use vor.Canonical.{
  JsonValue, null, boolean, number, string, array, object, Items, nil, item, Members, end, member,
  bytes_le, key_le, insert_key, sort_keys, write_entries, write_items, canonical_json,
  canonical_items, canonical_members, ◌>>=◌,
}
use vor.Canonical.Parse.{canonical_of, canonicalize_str}
use vor.Canonical.Reads.Sorted.{
  insert_member, sort_members, normal, normal_items, normal_members, IsPlain, if-Both,
}
use vor.Canonical.RoundTrip.{bind_some, some-injective, parse_json-canonical_json}

bytes_le_total : (a b : Bytes) → bytes_le a b ≡ false → bytes_le b a ≡ true
unfolding bytes_le
bytes_le_total [] b h = cc
bytes_le_total (x ∷ a) [] h = refl
bytes_le_total (x ∷ a) (y ∷ b) h = ground (arith, bytes_le_total a b)

key_le_total : (j k : Text) → key_le j k ≡ false → key_le k j ≡ true
unfolding key_le
key_le_total j k h = bytes_le_total (utf8 j) (utf8 k) h

-- The key goes before those of the entries.
abbrev Heads : Text → List (Text × Text) → Type 0
Heads k [] = Unit
Heads k ((j, t) ∷ es) = key_le k j ≡ true

abbrev IsSorted : List (Text × Text) → Type 0
IsSorted [] = Unit
IsSorted ((k, t) ∷ es) = Heads k es × IsSorted es

Heads-insert_key :
    (j k t : Text) (es : List (Text × Text))
    → key_le j k ≡ true
    → Heads j es
    → Heads j (insert_key (k, t) es)
unfolding insert_key
Heads-insert_key j k t [] h hs = h
Heads-insert_key j k t ((i, u) ∷ es) h hs =
    if-Holds (Heads j) (key_le k i) ((k, t) ∷ (i, u) ∷ es) ((i, u) ∷ insert_key (k, t) es) h hs

IsSorted-insert_key :
    (k t : Text) (es : List (Text × Text)) → IsSorted es → IsSorted (insert_key (k, t) es)
unfolding insert_key
IsSorted-insert_key k t [] s = (tt, tt)
IsSorted-insert_key k t ((i, u) ∷ es) (hs, s) = elim (Bool-cases (key_le k i)) [
  | inl before ↦ rw before (before, (hs, s))
  | inr after ↦
      rw after (Heads-insert_key i k t es (key_le_total k i after) hs, IsSorted-insert_key k t es s)
]

IsSorted-sort_keys : (es : List (Text × Text)) → IsSorted (sort_keys es)
unfolding sort_keys
IsSorted-sort_keys [] = tt
IsSorted-sort_keys ((k, t) ∷ es) = IsSorted-insert_key k t (sort_keys es) (IsSorted-sort_keys es)

insert_key-first :
    (k t : Text) (es : List (Text × Text)) → Heads k es → insert_key (k, t) es ≡ (k, t) ∷ es
unfolding insert_key
insert_key-first k t [] h = refl
insert_key-first k t ((i, u) ∷ es) h =
    ap (λ b. if b then (k, t) ∷ (i, u) ∷ es else (i, u) ∷ insert_key (k, t) es) h

sort_keys-sorted : (es : List (Text × Text)) → IsSorted es → sort_keys es ≡ es
unfolding sort_keys
sort_keys-sorted [] s = refl
sort_keys-sorted ((k, t) ∷ es) (h, s) =
    ap (insert_key (k, t)) (sort_keys-sorted es s) ∙ insert_key-first k t es h

canonical_members-member :
    (k t : Text) (v : JsonValue) (ms : Members) (es : List (Text × Text))
    → canonical_json v ≡ some t
    → canonical_members ms ≡ some es
    → canonical_members (member k v ms) ≡ some ((k, t) ∷ es)
unfolding canonical_json
canonical_members-member k t v ms es h hs =
    ap (λ o. o >>= λ u. canonical_members ms >>= λ fs. some ((k, u) ∷ fs)) h
    ∙ ap (λ o. o >>= λ fs. some ((k, t) ∷ fs)) hs

canonical_members-insert :
    (k t : Text) (v : JsonValue) (ms : Members) (es : List (Text × Text))
    → canonical_json v ≡ some t
    → canonical_members ms ≡ some es
    → canonical_members (insert_member k v ms) ≡ some (insert_key (k, t) es)
unfolding canonical_json insert_member insert_key
canonical_members-insert k t v end es h hs =
    subst (λ xs. canonical_members (member k v end) ≡ some (insert_key (k, t) xs))
      (some-injective hs) (canonical_members-member k t v end [] h refl)
canonical_members-insert k t v (member j w ms) es h hs =
    let (u, one, e1) = bind_some (canonical_json w) _ hs in
    let (fs, more, e2) = bind_some (canonical_members ms) _ e1 in
    subst
      (λ xs. canonical_members (insert_member k v (member j w ms)) ≡ some (insert_key (k, t) xs))
      (some-injective e2)
      (if-Both (λ m xs. canonical_members m ≡ some xs) (key_le k j) (key_le k j)
        (member k v (member j w ms)) (member j w (insert_member k v ms)) ((k, t) ∷ (j, u) ∷ fs)
        ((j, u) ∷ insert_key (k, t) fs) refl
        (canonical_members-member k t v (member j w ms) ((j, u) ∷ fs) h
          (canonical_members-member j u w ms fs one more))
        (canonical_members-member j u w (insert_member k v ms) (insert_key (k, t) fs) one
          (canonical_members-insert k t v ms fs h more)))

canonical_members-sort :
    (ms : Members) (es : List (Text × Text))
    → canonical_members ms ≡ some es
    → canonical_members (sort_members ms) ≡ some (sort_keys es)
unfolding canonical_json sort_members sort_keys
canonical_members-sort end es h =
    subst (λ xs. canonical_members end ≡ some (sort_keys xs)) (some-injective h) refl
canonical_members-sort (member k v ms) es h =
    let (t, one, e1) = bind_some (canonical_json v) _ h in
    let (fs, more, e2) = bind_some (canonical_members ms) _ e1 in
    subst (λ xs. canonical_members (sort_members (member k v ms)) ≡ some (sort_keys xs))
      (some-injective e2)
      (canonical_members-insert k t v (sort_members ms) (sort_keys fs) one
        (canonical_members-sort ms fs more))

mutual
  unfolding canonical_json normal

  same_value :
      (v : JsonValue) (t : Text) → canonical_json v ≡ some t → canonical_json (normal v) ≡ some t
  same_value null t e = e
  same_value (boolean b) t e = e
  same_value (number x) t e = e
  same_value (string s) t e = e
  same_value (array vs) t e =
      let (ts, written, same) = bind_some (canonical_items vs) _ e in
      ap (λ o. o >>= λ us. some (91 ∷ (write_items us ++ 93 ∷ []))) (same_items vs ts written)
      ∙ same
  same_value (object ms) t e =
      let (es, written, same) = bind_some (canonical_members ms) _ e in
      ap (λ o. o >>= λ fs. some (123 ∷ (write_entries (sort_keys fs) ++ 125 ∷ [])))
        (canonical_members-sort (normal_members ms) es (same_members ms es written))
      ∙ ap (λ fs. some (123 ∷ (write_entries fs ++ 125 ∷ [])))
          (sort_keys-sorted (sort_keys es) (IsSorted-sort_keys es))
      ∙ same

  same_items :
      (vs : Items) (ts : List Text)
      → canonical_items vs ≡ some ts
      → canonical_items (normal_items vs) ≡ some ts
  same_items nil ts e = e
  same_items (item v vs) ts e =
      let (t, one, e1) = bind_some (canonical_json v) _ e in
      let (us, more, e2) = bind_some (canonical_items vs) _ e1 in
      ap (λ o. o >>= λ u. canonical_items (normal_items vs) >>= λ xs. some (u ∷ xs))
        (same_value v t one)
      ∙ ap (λ o. o >>= λ xs. some (t ∷ xs)) (same_items vs us more)
      ∙ e2

  same_members :
      (ms : Members) (es : List (Text × Text))
      → canonical_members ms ≡ some es
      → canonical_members (normal_members ms) ≡ some es
  same_members end es e = e
  same_members (member k v ms) es e =
      let (t, one, e1) = bind_some (canonical_json v) _ e in
      let (fs, more, e2) = bind_some (canonical_members ms) _ e1 in
      canonical_members-member k t (normal v) (normal_members ms) fs (same_value v t one)
        (same_members ms fs more)
      ∙ e2

pub canonical_json-normal :
    (v : JsonValue) (t : Text) → canonical_json v ≡ some t → canonical_json (normal v) ≡ some t
canonical_json-normal v t written = same_value v t written

-- What `canonicalJson` writes of a value whose texts have no surrogates and whose objects have
-- distinct keys is left as it is by `canonicalizeStr`.
pub canonicalize_str-canonical_json :
    (v : JsonValue) (t : Text) → IsPlain v → canonical_json v ≡ some t → canonicalize_str t ≡ some t
unfolding canonicalize_str
canonicalize_str-canonical_json v t plain written =
    ap canonical_of (parse_json-canonical_json v t plain written)
    ∙ canonical_json-normal v t written
