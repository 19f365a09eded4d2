-- ===== src/License/Payload/ReadBack.antt =====
-- The canonical text of a payload, read by `parsePayloadJson`.
use vor.Common.{◌≡◌, refl, sym, ap, ◌∙◌, Option, none, some, List, [], ◌∷◌, map, Text, codes}
use vor.Canonical.{JsonValue, string, canonical_json}
use vor.Canonical.Reads.Sorted.{normal, normal_items, IsPlain}
use vor.Canonical.RoundTrip.{parse_json-canonical_json}
use vor.License.{LicensePayload, DevicePolicy, Metadata, undefined, no_metadata, text}
use vor.License.Errors.{
  malformed, license_error, exception, ok, from_option, ◌>>=◌, from_option_sound,
}
use vor.License.Payload.{
  elements, items, payload_value, payload_of_value, parse_payload_json, payload_to_canonical,
}

-- The metadata is written as it is: absent, or a text that is not empty.
abbrev pub IsKept : Metadata → Type 0
IsKept undefined = Unit
IsKept no_metadata = ⊥
IsKept (text []) = ⊥
IsKept (text (c ∷ s)) = Unit

abbrev with_metadata : LicensePayload → Metadata → LicensePayload
with_metadata p m = record p { metadata = m }

abbrev read_list : List JsonValue → List JsonValue
read_list vs = elements (normal_items (items vs))

abbrev with_lists : LicensePayload → List JsonValue → List JsonValue → LicensePayload
with_lists p es hs =
    let d = p.device_policy in
    record p { entitlements = es; device_policy = record d { bound_hwids = hs } }

read_back :
    (p : LicensePayload) (m : Metadata)
    → IsKept m
    → payload_of_value (normal (payload_value (with_metadata p m)))
      ≡ ok (
          with_lists
            (with_metadata p m)
            (read_list p.entitlements)
            (read_list p.device_policy.bound_hwids))
unfolding payload_value normal vor.License.Payload.payload_of vor.Common.text_eq
read_back p undefined h = refl
read_back p no_metadata h = absurd h
read_back p (text []) h = absurd h
read_back p (text (c ∷ s)) h = refl

-- Lists of texts are read as they are.
read_texts : (ts : List Text) → read_list (map string ts) ≡ map string ts
unfolding normal
read_texts [] = refl
read_texts (t ∷ ts) = ap (λ vs. string t ∷ vs) (read_texts ts)

-- The canonical text of a payload whose texts have no surrogates, whose lists hold texts and whose
-- metadata is absent or not empty, is parsed as that payload.
pub parse_payload_json-payload_to_canonical :
    (p : LicensePayload) (t : Text) (es hs : List Text)
    → IsPlain (payload_value p)
    → IsKept p.metadata
    → p.entitlements ≡ map string es
    → p.device_policy.bound_hwids ≡ map string hs
    → payload_to_canonical p ≡ ok t
    → parse_payload_json t ≡ ok p
unfolding parse_payload_json payload_to_canonical
parse_payload_json-payload_to_canonical p t es hs plain kept entitled bound written =
    let canonical = from_option_sound (canonical_json (payload_value p)) exception written in
    let read = parse_json-canonical_json (payload_value p) t plain canonical in
    ap (λ o. from_option o (license_error malformed) >>= payload_of_value) read
    ∙ read_back p p.metadata kept
    ∙ ap (λ vs. ok (with_lists p (read_list vs) (read_list p.device_policy.bound_hwids))) entitled
    ∙ ap (λ vs. ok (with_lists p vs (read_list p.device_policy.bound_hwids)))
        (read_texts es ∙ sym entitled)
    ∙ ap (λ vs. ok (with_lists p p.entitlements (read_list vs))) bound
    ∙ ap (λ vs. ok (with_lists p p.entitlements vs)) (read_texts hs ∙ sym bound)
