-- ===== src/License/Schema/Accepts.antt =====
-- What `validateSchema` accepts, in words.
use vor.Common.{
  ℕ, ◌≡◌, refl, ◌≢◌, ◌↔◌, true, false, not, List, [], ◌∷◌, arith, All, Any, Text, text_eq_iff,
  text_eq_sound, includes_iff, trim, Number, nan, int, nat, num_eq, num_lt, num_le, pos, negsuc,
  not-true,
}
use vor.Canonical.{JsonValue, null, boolean, number, string, array, object}
use vor.License.{LicensePayload, product_id, format_version, all_entitlements, license_tiers}
use vor.License.Errors.{ok, guard-eq-ok, >>-eq-ok}
use vor.License.Schema.{
  is_blank, is_empty, check_entitlements, check_hwids, is_valid_hwid, validate_schema,
}

-- A known entitlement.
abbrev pub IsEntitlement : JsonValue → Type 0
IsEntitlement v = (e : Text) × (v ≡ string e) × Any (λ t. t ≡ e) all_entitlements

-- A text that is an HWID: 64 hexadecimal digits, with the prefix or without.
abbrev pub IsHwid : JsonValue → Type 0
IsHwid v = (h : Text) × (v ≡ string h) × (is_valid_hwid h ≡ true)

pub record IsValidPayload (p : LicensePayload) : Type 0 where
  pub version : p.license_version ≡ nat format_version
  pub id_given : trim p.license_id ≢ []
  pub key_given : trim p.key_id ≢ []
  pub product : p.product ≡ product_id
  pub ends_after : num_le p.expires_at p.not_before ≡ false
  pub issued_before : num_lt p.expires_at p.issued_at ≡ false
  pub entitled : p.entitlements ≢ []
  pub entitlements : All IsEntitlement p.entitlements
  pub tier : Any (λ t. t ≡ p.license_tier) license_tiers
  pub hwids : All IsHwid p.device_policy.bound_hwids

num_eq_iff : (a : Number) (b : ℕ) → (num_eq a (nat b) ≡ true) ↔ (a ≡ nat b)
num_eq_iff nan b = ground arith
num_eq_iff (int (pos a)) b = ground arith
num_eq_iff (int (negsuc a)) b = ground arith

not_blank_iff : (s : Text) → (not (is_blank s) ≡ true) ↔ (trim s ≢ [])
not_blank_iff s = ground arith

not_empty_iff {ℓ} : {A : Type ℓ} (xs : List A) → (not (is_empty xs) ≡ true) ↔ (xs ≢ [])
not_empty_iff [] = (λ h. cc, λ h. absurd (h refl))
not_empty_iff (x ∷ xs) = (λ h e. cc, λ h. refl)

check_entitlements_sound :
    (vs : List JsonValue) → check_entitlements vs ≡ ok tt → All IsEntitlement vs
unfolding check_entitlements
check_entitlements_sound [] h = tt
check_entitlements_sound (string e ∷ vs) h =
    let (known, h1) = guard-eq-ok _ _ _ h in
    ((e, refl, (includes_iff all_entitlements e).0 known), check_entitlements_sound vs h1)
check_entitlements_sound (null ∷ vs) h = cc
check_entitlements_sound (boolean b ∷ vs) h = cc
check_entitlements_sound (number x ∷ vs) h = cc
check_entitlements_sound (array x ∷ vs) h = cc
check_entitlements_sound (object x ∷ vs) h = cc

check_entitlements_complete :
    (vs : List JsonValue) → All IsEntitlement vs → check_entitlements vs ≡ ok tt
unfolding check_entitlements
check_entitlements_complete [] h = refl
check_entitlements_complete (v ∷ vs) ((e, same, known), h) =
    rw (same, check_entitlements)
      (rw ((includes_iff all_entitlements e).1 known) (check_entitlements_complete vs h))

check_hwids_sound : (vs : List JsonValue) → check_hwids vs ≡ ok tt → All IsHwid vs
unfolding check_hwids
check_hwids_sound [] h = tt
check_hwids_sound (string e ∷ vs) h =
    let (good, h1) = guard-eq-ok _ _ _ h in ((e, refl, good), check_hwids_sound vs h1)
check_hwids_sound (null ∷ vs) h = cc
check_hwids_sound (boolean b ∷ vs) h = cc
check_hwids_sound (number x ∷ vs) h = cc
check_hwids_sound (array x ∷ vs) h = cc
check_hwids_sound (object x ∷ vs) h = cc

check_hwids_complete : (vs : List JsonValue) → All IsHwid vs → check_hwids vs ≡ ok tt
unfolding check_hwids
check_hwids_complete [] h = refl
check_hwids_complete (v ∷ vs) ((e, same, good), h) =
    rw (same, check_hwids) (rw good (check_hwids_complete vs h))

validate_schema_sound : (p : LicensePayload) → validate_schema p ≡ ok tt → IsValidPayload p
unfolding validate_schema
validate_schema_sound p h =
    let (version, h1) = guard-eq-ok _ _ _ h in
    let (id_given, h2) = guard-eq-ok _ _ _ h1 in
    let (key_given, h3) = guard-eq-ok _ _ _ h2 in
    let (product, h4) = guard-eq-ok _ _ _ h3 in
    let (ends_after, h5) = guard-eq-ok _ _ _ h4 in
    let (issued_before, h6) = guard-eq-ok _ _ _ h5 in
    let (entitled, h7) = guard-eq-ok _ _ _ h6 in
    let (entitlements, h8) = >>-eq-ok (check_entitlements p.entitlements) _ h7 in
    let (tier, hwids) = guard-eq-ok _ _ _ h8 in
    record {
      version = (num_eq_iff p.license_version format_version).0 version;
      id_given = (not_blank_iff p.license_id).0 id_given;
      key_given = (not_blank_iff p.key_id).0 key_given;
      product = text_eq_sound _ _ product;
      ends_after = not-true ends_after;
      issued_before = not-true issued_before;
      entitled = (not_empty_iff p.entitlements).0 entitled;
      entitlements = check_entitlements_sound p.entitlements entitlements;
      tier = (includes_iff license_tiers p.license_tier).0 tier;
      hwids = check_hwids_sound p.device_policy.bound_hwids hwids;
    }

validate_schema_complete : (p : LicensePayload) → IsValidPayload p → validate_schema p ≡ ok tt
unfolding validate_schema
validate_schema_complete p v =
    rw
      (
        (num_eq_iff p.license_version format_version).1 v.version,
        (not_blank_iff p.license_id).1 v.id_given,
        (not_blank_iff p.key_id).1 v.key_given,
        (text_eq_iff p.product product_id).1 v.product,
        v.ends_after,
        v.issued_before,
        (not_empty_iff p.entitlements).1 v.entitled,
        check_entitlements_complete p.entitlements v.entitlements,
        (includes_iff license_tiers p.license_tier).1 v.tier,
      )
      (check_hwids_complete p.device_policy.bound_hwids v.hwids)

-- `validateSchema` accepts a payload exactly when its version is 2, its ids are not blank, the
-- product is VOR, neither comparison refuses its times, it has entitlements and all are known, the
-- tier is one of the three and every bound HWID is 64 hexadecimal digits.
pub validate_schema_iff : (p : LicensePayload) → (validate_schema p ≡ ok tt) ↔ IsValidPayload p
validate_schema_iff p = (validate_schema_sound p, validate_schema_complete p)
