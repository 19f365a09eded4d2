-- ===== src/License/Schema.antt =====
-- `validateSchema` of license.ts.
pub mod Accepts
use vor.Common.{
  ℕ, Bool, true, false, ◌&&◌, ◌||◌, not, List, [], ◌∷◌, leb, ◌==◌, if◌then◌else◌, length, drop, all,
  Text, codes, text_eq, includes, starts_with, trim, to_lower, nat, num_eq, num_lt, num_le,
}
use vor.Canonical.{JsonValue, string}
use vor.License.{LicensePayload, product_id, format_version, all_entitlements, license_tiers}
use vor.License.Errors.{
  schema, missing_field, product_mismatch, invalid_field, unknown_entitlement, license_error,
  exception, Result, ok, err, ◌>>◌, guard,
}

-- `!s || !s.trim()`
abbrev pub is_blank : Text → Bool
is_blank s = elim (trim s) [ [] ↦ true | c ∷ t ↦ false ]

unfoldable pub check_entitlements : List JsonValue → Result (Unit {0})
unfolding includes
check_entitlements [] = ok tt
check_entitlements (string e ∷ es) = do
  guard (includes all_entitlements e) (license_error unknown_entitlement)
  check_entitlements es
check_entitlements (_ ∷ es) = err (license_error unknown_entitlement)

abbrev pub is_hex : ℕ → Bool
is_hex c = leb 48 c && leb c 57 || leb 97 c && leb c 102 || leb 65 c && leb c 70

-- `clean.slice('hwid-sha256-'.length)` if it has that prefix
abbrev pub hex_part : Text → Text
hex_part clean = if starts_with clean (codes "hwid-sha256-") then drop 12 clean else clean

unfoldable pub is_valid_hwid : Text → Bool
unfolding starts_with to_lower trim
is_valid_hwid hw =
    let hexpart = hex_part (to_lower (trim hw)) in length hexpart == 64 && all is_hex hexpart

-- `hw.trim()` throws a TypeError at a value that is no string.
unfoldable pub check_hwids : List JsonValue → Result (Unit {0})
unfolding is_valid_hwid
check_hwids [] = ok tt
check_hwids (string hw ∷ hws) = do
  guard (is_valid_hwid hw) (license_error invalid_field)
  check_hwids hws
check_hwids (_ ∷ hws) = err exception

abbrev pub is_empty {ℓ} : {A : Type ℓ} → List A → Bool
is_empty [] = true
is_empty (x ∷ xs) = false

unfoldable pub validate_schema : LicensePayload → Result (Unit {0})
unfolding check_entitlements check_hwids text_eq includes trim
validate_schema p = do
  guard (num_eq p.license_version (nat format_version)) (license_error schema)
  guard (not (is_blank p.license_id)) (license_error missing_field)
  guard (not (is_blank p.key_id)) (license_error missing_field)
  guard (text_eq p.product product_id) (license_error product_mismatch)
  guard (not (num_le p.expires_at p.not_before)) (license_error invalid_field)
  guard (not (num_lt p.expires_at p.issued_at)) (license_error invalid_field)
  guard (not (is_empty p.entitlements)) (license_error missing_field)
  check_entitlements p.entitlements
  guard (includes license_tiers p.license_tier) (license_error invalid_field)
  check_hwids p.device_policy.bound_hwids
