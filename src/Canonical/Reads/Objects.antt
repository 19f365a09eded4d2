-- ===== src/Canonical/Reads/Objects.antt =====
-- A written object with distinct keys reads as its members.
use mathlib.Core.Option
use mathlib.Core.List.{append_assoc}
use vor.Common.{
  ℕ, zero, suc, ◌+◌, ◌≤◌, ◌≡◌, refl, sym, ap, ◌∙◌, true, Option, none, some, List, [], ◌∷◌, ◌++◌,
  length, length-append, arith, All, Text,
}
use vor.Canonical.{
  JsonValue, object, Members, end, member, escape_from, escape_json_string, write_entries,
}
use vor.Canonical.Parse.{
  is_space, skip, get, put_first, open_object, member_tail, member_value, member_colon, member_key,
  next_member, start_value, scan_string, plain, parse_value, parse_items, parse_members,
}
use vor.Canonical.Quote.{IsBasic, scan-escape_from}
use vor.Canonical.Reads.Integers.{is_end}
use vor.Canonical.Reads.Values.{Reads, skip-end}

-- Each entry has the key of its member and is read as its value.
abbrev pub ReadsEntries : List (Text × Text) → Members → Type 0
ReadsEntries [] end = Unit
ReadsEntries [] (member k v ms) = ⊥
ReadsEntries ((j, t) ∷ es) end = ⊥
ReadsEntries ((j, t) ∷ es) (member k v ms) =
    (j ≡ k) × All IsBasic k × Reads t v × ReadsEntries es ms

-- No key stands twice.
abbrev pub IsDistinct : Members → Type 0
IsDistinct end = Unit
IsDistinct (member k v ms) = (get k ms ≡ none) × IsDistinct ms

entry_text :
    (e t after : Text) → ((e ++ 34 ∷ []) ++ (58 ∷ t)) ++ after ≡ e ++ (34 ∷ 58 ∷ (t ++ after))
entry_text e t after =
    append_assoc (e ++ 34 ∷ []) (58 ∷ t) after ∙ append_assoc e (34 ∷ []) (58 ∷ (t ++ after))

key_opens :
    (s : Text) (value : Text → Option (JsonValue × Text)) (members : Text → Option (Members × Text))
    → next_member (skip (34 ∷ s)) value members ≡ member_key (scan_string plain s) value members
unfolding next_member skip is_space
key_opens s value members = refl

colon_follows :
    (k s : Text) (value : Text → Option (JsonValue × Text))
    (members : Text → Option (Members × Text))
    → member_key (some (k, 58 ∷ s)) value members ≡ member_value k (value s) members
unfolding member_key member_colon skip is_space
colon_follows k s value members = refl

value_follows :
    (k : Text) (v : JsonValue) (after : Text) (members : Text → Option (Members × Text))
    → is_end after ≡ true
    → member_value k (some (v, after)) members ≡ member_tail k v after members
unfolding member_value
value_follows k v after members h = ap (λ s. member_tail k v s members) (skip-end after h)

-- An entry up to what follows it.
read_entry :
    (k t after : Text) (v : JsonValue) (f : ℕ) (members : Text → Option (Members × Text))
    → All IsBasic k
    → Reads t v
    → length t + length t ≤ f
    → is_end after ≡ true
    → next_member (skip ((escape_json_string k ++ (58 ∷ t)) ++ after)) (parse_value f) members
      ≡ member_tail k v after members
unfolding escape_json_string
read_entry k t after v f members basic h le stops =
    let value = parse_value f in
    ap (λ s. next_member (skip (34 ∷ s)) value members) (entry_text (escape_from none k) t after)
    ∙ key_opens (escape_from none k ++ (34 ∷ 58 ∷ (t ++ after))) value members
    ∙ ap (λ r. member_key r value members) (scan-escape_from k (58 ∷ (t ++ after)) basic)
    ∙ colon_follows k (t ++ after) value members
    ∙ ap (λ r. member_value k r members) (h.read f after le stops)
    ∙ value_follows k v after members stops

parse_members-suc :
    (f : ℕ) (s : Text)
    → parse_members (suc f) s ≡ next_member (skip s) (parse_value f) (parse_members f)
unfolding parse_members
parse_members-suc f s = refl

last_member :
    (k : Text) (v : JsonValue) (rest : Text) (members : Text → Option (Members × Text))
    → member_tail k v (125 ∷ rest) members ≡ some (member k v end, rest)
unfolding member_tail
last_member k v rest members = refl

more_members :
    (k : Text) (v : JsonValue) (rest : Text) (members : Text → Option (Members × Text))
    → member_tail k v (44 ∷ rest) members
      ≡ Option.map (λ r. (put_first k v r.0 (get k r.0), r.1)) (members rest)
unfolding member_tail
more_members k v rest members = refl

length-entry :
    (k t : Text)
    → length (escape_json_string k ++ (58 ∷ t)) ≡ length (escape_json_string k) + suc (length t)
length-entry k t = length-append (escape_json_string k) (58 ∷ t)

more_text :
    (k t later after : Text)
    → (escape_json_string k ++ (58 ∷ (t ++ (44 ∷ later)))) ++ after
      ≡ (escape_json_string k ++ (58 ∷ t)) ++ (44 ∷ (later ++ after))
more_text k t later after =
    let e = escape_json_string k in
    append_assoc e (58 ∷ (t ++ (44 ∷ later))) after
    ∙ ap (λ s. e ++ (58 ∷ s)) (append_assoc t (44 ∷ later) after)
    ∙ sym (append_assoc e (58 ∷ t) (44 ∷ (later ++ after)))

apart_first :
    (k : Text) (v : JsonValue) (ms : Members)
    → get k ms ≡ none
    → put_first k v ms (get k ms) ≡ member k v ms
apart_first k v ms apart = ap (put_first k v ms) apart

read_members :
    (k t : Text) (es : List (Text × Text)) (ms : Members) (f : ℕ) (rest : Text)
    → ReadsEntries ((k, t) ∷ es) ms
    → IsDistinct ms
    → length (write_entries ((k, t) ∷ es)) + length (write_entries ((k, t) ∷ es)) + 1 ≤ f
    → parse_members f (write_entries ((k, t) ∷ es) ++ (125 ∷ rest)) ≡ some (ms, rest)
unfolding write_entries
read_members k t es ms zero rest h d le = absurd (omega (arith, le))
read_members k t es end (suc f) rest h d le = absurd h
read_members k t [] (member j v end) (suc f) rest (same, basic, h, _) d le =
    parse_members-suc f _
    ∙ ap
        (λ i.
          next_member (skip ((escape_json_string i ++ (58 ∷ t)) ++ (125 ∷ rest))) (parse_value f)
            (parse_members f))
        same
    ∙ read_entry j t (125 ∷ rest) v f (parse_members f) basic h
        (omega (arith, le, length-entry k t)) refl
    ∙ last_member j v rest (parse_members f)
read_members k t [] (member j v (member i w ms)) (suc f) rest (_, _, _, h) d le = absurd h
read_members k t ((k', t') ∷ es) (member j v ms) (suc f) rest (same, basic, h, hs) (apart, d) le =
    let later = write_entries ((k', t') ∷ es) in
    let whole = t ++ (44 ∷ later) in
    let long = length-append (escape_json_string k) (58 ∷ whole) in
    let inner = length-append t (44 ∷ later) in
    let tail = later ++ (125 ∷ rest) in
    parse_members-suc f _
    ∙ ap (λ s. next_member (skip s) (parse_value f) (parse_members f))
        (more_text k t later (125 ∷ rest))
    ∙ ap
        (λ i.
          next_member (skip ((escape_json_string i ++ (58 ∷ t)) ++ (44 ∷ tail))) (parse_value f)
            (parse_members f))
        same
    ∙ read_entry j t (44 ∷ tail) v f (parse_members f) basic h (omega (arith, le, long, inner)) refl
    ∙ more_members j v tail (parse_members f)
    ∙ ap (Option.map (λ r. (put_first j v r.0 (get j r.0), r.1)))
        (read_members k' t' es ms f rest hs d (omega (arith, le, long, inner)))
    ∙ ap (λ m. some (m, rest)) (apart_first j v ms apart)

object_starts :
    (s : Text) (f : ℕ)
    → start_value (123 ∷ s) (parse_items f) (parse_members f)
      ≡ open_object (skip s) (parse_members f)
unfolding start_value
object_starts s f = refl

open_object-members :
    (s : Text) (members : Text → Option (Members × Text))
    → open_object (skip (34 ∷ s)) members ≡ Option.map (λ r. (object r.0, r.1)) (members (34 ∷ s))
unfolding open_object skip is_space
open_object-members s members = refl

empty_object : Reads (123 ∷ 125 ∷ []) (object end)
unfolding parse_value is_space
empty_object = record {
  first = 123;
  later = 125 ∷ [];
  split = refl;
  visible = refl;
  opens = refl;
  read = read;
}
  where
    read :
        (f : ℕ) (rest : Text)
        → 4 ≤ f
        → is_end rest ≡ true
        → parse_value f (123 ∷ 125 ∷ rest) ≡ some (object end, rest)
    read zero rest le k = absurd (omega (arith, le))
    read (suc f) rest le k = unfold parse_value in refl

-- The written entries start with the quote of a key.
write_entries-quote :
    (e : Text × Text) (es : List (Text × Text)) → (s : Text) × (write_entries (e ∷ es) ≡ 34 ∷ s)
unfolding write_entries escape_json_string
write_entries-quote e [] = (_, refl)
write_entries-quote e (f ∷ es) = (_, refl)

module _ (e : Text × Text) (es : List (Text × Text)) (ms : Members) (h : ReadsEntries (e ∷ es) ms)
    (d : IsDistinct ms) where
  abbrev body : Text
  body = write_entries (e ∷ es)

  read_object :
      (f : ℕ) (rest : Text)
      → length (123 ∷ (body ++ 125 ∷ [])) + length (123 ∷ (body ++ 125 ∷ [])) ≤ f
      → is_end rest ≡ true
      → parse_value f ((123 ∷ (body ++ 125 ∷ [])) ++ rest) ≡ some (object ms, rest)
  read_object zero rest le k = absurd (omega (arith, le))
  read_object (suc f) rest le k =
      let long = length-append body (125 ∷ []) in
      let (s, quote) = write_entries-quote e es in
      let opened : body ++ (125 ∷ rest) ≡ 34 ∷ (s ++ (125 ∷ rest)) =
        ap (λ t. t ++ (125 ∷ rest)) quote in
      unfold parse_value in
      unfold skip in
      unfold is_space in
      (object_starts ((body ++ 125 ∷ []) ++ rest) f
        ∙ ap (λ t. open_object (skip t) (parse_members f))
            (append_assoc body (125 ∷ []) rest ∙ opened)
        ∙ open_object-members (s ++ (125 ∷ rest)) (parse_members f)
        ∙ ap (λ t. Option.map (λ r. (object r.0, r.1)) (parse_members f t)) (sym opened)
        ∙ ap (Option.map (λ r. (object r.0, r.1)))
            (read_members e.0 e.1 es ms f rest h d (omega (arith, le, long))))

pub object-Reads :
    (es : List (Text × Text)) (ms : Members)
    → ReadsEntries es ms
    → IsDistinct ms
    → Reads (123 ∷ (write_entries es ++ 125 ∷ [])) (object ms)
unfolding is_space write_entries
object-Reads [] end h d = empty_object
object-Reads [] (member k v ms) h d = absurd h
object-Reads (e ∷ es) ms h d = record {
  first = 123;
  later = write_entries (e ∷ es) ++ 125 ∷ [];
  split = refl;
  visible = refl;
  opens = refl;
  read = read_object e es ms h d;
}
