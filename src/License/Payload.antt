-- ===== src/License/Payload.antt =====
-- `parsePayloadJson` and `payloadToCanonical` of license.ts.
pub mod ReadBack
use vor.Common.{Option, none, some, List, [], ◌∷◌, Text, codes, Number, nan, nat}
use vor.Canonical.{
  JsonValue, number, string, array, object, Items, nil, item, Members, end, member, canonical_json,
}
use vor.Canonical.Parse.{get, parse_json}
use vor.License.{LicensePayload, DevicePolicy, Metadata, undefined, no_metadata, text}
use vor.License.Errors.{malformed, license_error, exception, Result, ok, err, ◌>>=◌, from_option}

-- The reads of `parsePayloadJson`, each with its default.
abbrev pub str_of : Option JsonValue → Text
str_of (some (string s)) = s
str_of _ = []

abbrev pub num_of : Option JsonValue → Number
num_of (some (number x)) = x
num_of _ = nan

abbrev pub elements : Items → List JsonValue
elements nil = []
elements (item v vs) = v ∷ elements vs

abbrev pub list_of : Option JsonValue → List JsonValue
list_of (some (array vs)) = elements vs
list_of _ = []

abbrev pub max_of : Option JsonValue → Number
max_of (some (number x)) = x
max_of _ = nat 0

-- An array has neither field.
abbrev pub policy_of : Option JsonValue → DevicePolicy
policy_of (some (object ms)) = record {
  max_devices = max_of (get (codes "max_devices") ms);
  bound_hwids = list_of (get (codes "bound_hwids") ms);
}
policy_of _ = record { max_devices = nat 0; bound_hwids = [] }

abbrev pub metadata_of : Option JsonValue → Metadata
metadata_of none = undefined
metadata_of (some (string s)) = text s
metadata_of (some _) = no_metadata

unfoldable pub payload_of : Members → LicensePayload
unfolding get
payload_of o = record {
  license_version = num_of (get (codes "license_version") o);
  license_id = str_of (get (codes "license_id") o);
  product = str_of (get (codes "product") o);
  key_id = str_of (get (codes "key_id") o);
  issued_at = num_of (get (codes "issued_at") o);
  not_before = num_of (get (codes "not_before") o);
  expires_at = num_of (get (codes "expires_at") o);
  license_tier = str_of (get (codes "license_tier") o);
  entitlements = list_of (get (codes "entitlements") o);
  device_policy = policy_of (get (codes "device_policy") o);
  metadata = metadata_of (get (codes "metadata") o);
}

abbrev pub payload_of_value : JsonValue → Result LicensePayload
payload_of_value (object ms) = ok (payload_of ms)
payload_of_value _ = err (license_error malformed)

unfoldable pub parse_payload_json : Text → Result LicensePayload
unfolding parse_json payload_of
parse_payload_json json =
    from_option (parse_json json) (license_error malformed) >>= payload_of_value

abbrev pub items : List JsonValue → Items
items [] = nil
items (v ∷ vs) = item v (items vs)

-- The metadata is written unless it is absent, null or empty.
abbrev pub metadata_member : Metadata → Members
metadata_member (text (c ∷ s)) = member (codes "metadata") (string (c ∷ s)) end
metadata_member _ = end

unfoldable pub payload_members : LicensePayload → Members
payload_members p = member (codes "license_version") (number p.license_version) (
    member (codes "license_id") (string p.license_id) (
      member (codes "product") (string p.product) (
        member (codes "key_id") (string p.key_id) (
          member (codes "issued_at") (number p.issued_at) (
            member (codes "not_before") (number p.not_before) (
              member (codes "expires_at") (number p.expires_at) (
                member (codes "license_tier") (string p.license_tier) (
                  member (codes "entitlements") (array (items p.entitlements)) (
                    member (codes "device_policy")
                      (object (
                        member (codes "max_devices") (number p.device_policy.max_devices) (
                          member (codes "bound_hwids") (array (items p.device_policy.bound_hwids))
                            end)))
                      (metadata_member p.metadata))))))))))

unfoldable pub payload_value : LicensePayload → JsonValue
unfolding payload_members
payload_value p = object (payload_members p)

-- `payloadToCanonical`; the error is the exception of `canonicalJson`.
unfoldable pub payload_to_canonical : LicensePayload → Result Text
unfolding payload_value canonical_json
payload_to_canonical p = from_option (canonical_json (payload_value p)) exception
