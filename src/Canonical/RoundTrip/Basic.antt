-- ===== src/Canonical/RoundTrip/Basic.antt =====
-- The units of a canonical text are no surrogates where those of the value's texts are none.
use vor.Common.{
  ℕ, zero, suc, Bool-cases, sym, ◌+◌, ◌/◌, ◌%◌, ◌<◌, ◌≡◌, subst, true, false, none, some, List, [],
  ◌∷◌, ◌++◌, ◌==◌, ltb, if-Holds, inl, inr, arith, All, All-append, Text, ℤ, pos, negsuc, int, nan,
  decimal, decimal_from, print_int,
}
use vor.Canonical.{
  JsonValue, null, boolean, number, string, array, object, Items, nil, item, Members, end, member,
  hex_digit, unicode_escape, escape_unit, escape_from, escape_json_string, insert_key, sort_keys,
  key_le, write_entries, write_items, canonical_json, canonical_items, canonical_members,
}
use vor.Canonical.Quote.{IsBasic, escape_emit_of_basic, pending_of_basic}
use vor.Canonical.Reads.Integers.{decimal_from-small, decimal_from-large}
use vor.Canonical.Reads.Sorted.{IsPlain, ArePlain, HasPlain}
use vor.Canonical.RoundTrip.{bind_some, some-injective}

abbrev pub AllBasic : Text → Type 0
AllBasic t = All IsBasic t

ascii : (c : ℕ) → c < 128 → IsBasic c
ascii c h = inl (omega (arith, h))

hex_digit-IsBasic : (d : ℕ) → d < 16 → IsBasic (hex_digit d)
hex_digit-IsBasic d h = ascii (hex_digit d) (ground arith)

unicode_escape-AllBasic : (c : ℕ) → AllBasic (unicode_escape c)
unfolding unicode_escape
unicode_escape-AllBasic c = (
  ascii 92 (omega arith),
  (
    ascii 117 (omega arith),
    (
      hex_digit-IsBasic (c / 4096 % 16) (omega arith),
      (
        hex_digit-IsBasic (c / 256 % 16) (omega arith),
        (
          hex_digit-IsBasic (c / 16 % 16) (omega arith),
          (hex_digit-IsBasic (c % 16) (omega arith), tt),
        ),
      ),
    ),
  ),
)

two : (c : ℕ) → c < 128 → AllBasic (92 ∷ c ∷ [])
two c h = (ascii 92 (omega arith), (ascii c h, tt))

escape_unit-AllBasic : (c : ℕ) → IsBasic c → AllBasic (escape_unit c)
unfolding escape_unit
escape_unit-AllBasic c h = if-Holds AllBasic (c == 34) _ _ (two 34 (omega arith)) (
    if-Holds AllBasic (c == 92) _ _ (two 92 (omega arith)) (
      if-Holds AllBasic (c == 8) _ _ (two 98 (omega arith)) (
        if-Holds AllBasic (c == 9) _ _ (two 116 (omega arith)) (
          if-Holds AllBasic (c == 10) _ _ (two 110 (omega arith)) (
            if-Holds AllBasic (c == 12) _ _ (two 102 (omega arith)) (
              if-Holds AllBasic (c == 13) _ _ (two 114 (omega arith))
                (if-Holds AllBasic (ltb c 32) _ _ (unicode_escape-AllBasic c) (h, tt))))))))

escape_from-AllBasic : (s : Text) → AllBasic s → AllBasic (escape_from none s)
unfolding escape_from
escape_from-AllBasic [] h = tt
escape_from-AllBasic (c ∷ s) (p, h) =
    rw (escape_emit_of_basic c p, pending_of_basic c p)
      (All-append IsBasic (escape_unit c) (escape_from none s) (escape_unit-AllBasic c p)
        (escape_from-AllBasic s h))

escape_json_string-AllBasic : (s : Text) → AllBasic s → AllBasic (escape_json_string s)
unfolding escape_json_string
escape_json_string-AllBasic s h = (
  ascii 34 (omega arith),
  All-append IsBasic (escape_from none s) (34 ∷ []) (escape_from-AllBasic s h)
      (ascii 34 (omega arith), tt),
)

decimal_from-AllBasic : (fuel n : ℕ) → AllBasic (decimal_from fuel n)
unfolding decimal_from
decimal_from-AllBasic zero n = tt
decimal_from-AllBasic (suc fuel) n = elim (Bool-cases (ltb n 10)) [
  | inl small ↦
      subst AllBasic (sym (decimal_from-small fuel n small))
        (ascii (48 + n) (ground (arith, small)), tt)
  | inr large ↦ subst AllBasic (sym (decimal_from-large fuel n large)) (
      All-append IsBasic (decimal_from fuel (n / 10)) ((48 + n % 10) ∷ [])
        (decimal_from-AllBasic fuel (n / 10)) (ascii (48 + n % 10) (omega arith), tt))
]

print_int-AllBasic : (z : ℤ) → AllBasic (print_int z)
unfolding print_int decimal
print_int-AllBasic (pos n) = decimal_from-AllBasic (suc n) n
print_int-AllBasic (negsuc n) =
    (ascii 45 (omega arith), decimal_from-AllBasic (suc (suc n)) (suc n))

-- The keys and values of entries.
abbrev EntriesBasic : List (Text × Text) → Type 0
EntriesBasic [] = Unit
EntriesBasic ((k, t) ∷ es) = AllBasic k × AllBasic t × EntriesBasic es

insert_key-EntriesBasic :
    (k t : Text) (es : List (Text × Text))
    → AllBasic k
    → AllBasic t
    → EntriesBasic es
    → EntriesBasic (insert_key (k, t) es)
unfolding insert_key
insert_key-EntriesBasic k t [] hk ht h = (hk, ht, tt)
insert_key-EntriesBasic k t ((i, u) ∷ es) hk ht (hi, hu, h) =
    if-Holds EntriesBasic (key_le k i) ((k, t) ∷ (i, u) ∷ es) ((i, u) ∷ insert_key (k, t) es)
      (hk, ht, (hi, hu, h)) (hi, hu, insert_key-EntriesBasic k t es hk ht h)

sort_keys-EntriesBasic : (es : List (Text × Text)) → EntriesBasic es → EntriesBasic (sort_keys es)
unfolding sort_keys
sort_keys-EntriesBasic [] h = tt
sort_keys-EntriesBasic ((k, t) ∷ es) (hk, ht, h) =
    insert_key-EntriesBasic k t (sort_keys es) hk ht (sort_keys-EntriesBasic es h)

write_entries-AllBasic : (es : List (Text × Text)) → EntriesBasic es → AllBasic (write_entries es)
unfolding write_entries
write_entries-AllBasic [] h = tt
write_entries-AllBasic ((k, t) ∷ []) (hk, ht, h) =
    All-append IsBasic (escape_json_string k) (58 ∷ t) (escape_json_string-AllBasic k hk)
      (ascii 58 (omega arith), ht)
write_entries-AllBasic ((k, t) ∷ e ∷ es) (hk, ht, h) =
    All-append IsBasic (escape_json_string k) (58 ∷ (t ++ (44 ∷ write_entries (e ∷ es))))
      (escape_json_string-AllBasic k hk)
      (
        ascii 58 (omega arith),
        All-append IsBasic t (44 ∷ write_entries (e ∷ es)) ht
            (ascii 44 (omega arith), write_entries-AllBasic (e ∷ es) h),
      )

write_items-AllBasic : (ts : List Text) → All AllBasic ts → AllBasic (write_items ts)
write_items-AllBasic [] h = tt
write_items-AllBasic (t ∷ []) (p, h) = p
write_items-AllBasic (t ∷ u ∷ ts) (p, h) =
    All-append IsBasic t (44 ∷ write_items (u ∷ ts)) p
      (ascii 44 (omega arith), write_items-AllBasic (u ∷ ts) h)

bracketed : (a b : ℕ) (t : Text) → a < 128 → b < 128 → AllBasic t → AllBasic (a ∷ (t ++ b ∷ []))
bracketed a b t ha hb h = (ascii a ha, All-append IsBasic t (b ∷ []) h (ascii b hb, tt))

mutual
  unfolding canonical_json IsPlain

  basic_value : (v : JsonValue) (t : Text) → canonical_json v ≡ some t → IsPlain v → AllBasic t
  basic_value null t e p = subst AllBasic (some-injective e) (
      bracketed 110 108 (117 ∷ 108 ∷ []) (omega arith) (omega arith)
        (ascii 117 (omega arith), (ascii 108 (omega arith), tt)))
  basic_value (boolean true) t e p = subst AllBasic (some-injective e) (
    ascii 116 (omega arith),
    (ascii 114 (omega arith), (ascii 117 (omega arith), (ascii 101 (omega arith), tt))),
  )
  basic_value (boolean false) t e p = subst AllBasic (some-injective e) (
    ascii 102 (omega arith),
    (
      ascii 97 (omega arith),
      (ascii 108 (omega arith), (ascii 115 (omega arith), (ascii 101 (omega arith), tt))),
    ),
  )
  basic_value (number nan) t e p = cc
  basic_value (number (int z)) t e p = subst AllBasic (some-injective e) (print_int-AllBasic z)
  basic_value (string s) t e p = subst AllBasic (some-injective e) (escape_json_string-AllBasic s p)
  basic_value (array vs) t e p =
      let (ts, written, same) = bind_some (canonical_items vs) _ e in
      subst AllBasic (some-injective same) (
        bracketed 91 93 (write_items ts) (omega arith) (omega arith)
          (write_items-AllBasic ts (basic_items vs ts written p)))
  basic_value (object ms) t e (d, p) =
      let (es, written, same) = bind_some (canonical_members ms) _ e in
      subst AllBasic (some-injective same) (
        bracketed 123 125 (write_entries (sort_keys es)) (omega arith) (omega arith) (
          write_entries-AllBasic (sort_keys es)
            (sort_keys-EntriesBasic es (basic_members ms es written p))))

  basic_items :
      (vs : Items) (ts : List Text) → canonical_items vs ≡ some ts → ArePlain vs → All AllBasic ts
  basic_items nil ts e p = subst (All AllBasic) (some-injective e) tt
  basic_items (item v vs) ts e (p, ps) =
      let (t, one, e1) = bind_some (canonical_json v) _ e in
      let (us, more, e2) = bind_some (canonical_items vs) _ e1 in
      subst (All AllBasic) (some-injective e2) (basic_value v t one p, basic_items vs us more ps)

  basic_members :
      (ms : Members) (es : List (Text × Text))
      → canonical_members ms ≡ some es
      → HasPlain ms
      → EntriesBasic es
  basic_members end es e p = subst EntriesBasic (some-injective e) tt
  basic_members (member k v ms) es e (basic, p, ps) =
      let (t, one, e1) = bind_some (canonical_json v) _ e in
      let (fs, more, e2) = bind_some (canonical_members ms) _ e1 in
      subst EntriesBasic (some-injective e2)
        (basic, basic_value v t one p, basic_members ms fs more ps)

pub canonical_json-AllBasic :
    (v : JsonValue) (t : Text) → canonical_json v ≡ some t → IsPlain v → AllBasic t
canonical_json-AllBasic v t written plain = basic_value v t written plain

-- The text of an object starts with a brace.
pub canonical_json-brace :
    (ms : Members) (t : Text) → canonical_json (object ms) ≡ some t → (s : Text) × (t ≡ 123 ∷ s)
unfolding canonical_json
canonical_json-brace ms t e =
    let (es, written, same) = bind_some (canonical_members ms) _ e in
    (write_entries (sort_keys es) ++ 125 ∷ [], sym (some-injective same))
