-- ===== src/License/Errors.antt =====
-- Typed errors, and results that may be a thrown error: `LicenseError` of license.ts, or any other
-- exception, such as a TypeError.
use vor.Common.{◌≡◌, refl, Bool, true, false, Option, none, some}

-- The codes of `LicenseError`, E_MALFORMED and so on.
pub data ErrorCode : Type 0 where
  malformed schema missing_field product_mismatch invalid_field unknown_entitlement : ErrorCode
  untrusted_key signature not_yet_valid expired device revoked : ErrorCode

pub data Thrown : Type 0 where
  license_error : ErrorCode → Thrown
  exception : Thrown

pub data Result {ℓ} (A : Type ℓ) : Type ℓ where
  ok : A → Result A
  err : Thrown → Result A

infixl 5 ◌>>=◌ ◌>>◌
abbrev pub ◌>>=◌ {κ ℓ} : {T : Type κ} {U : Type ℓ} → Result T → (T → Result U) → Result U
err thrown >>= later = err thrown
ok t >>= later = later t

-- A check that throws, before what follows.
abbrev pub ◌>>◌ {ℓ} : {U : Type ℓ} → Result (Unit {0}) → Result U → Result U
check >> rest = check >>= λ _. rest

-- Throws unless the test holds.
abbrev pub guard : Bool → Thrown → Result (Unit {0})
guard true e = ok tt
guard false e = err e

abbrev pub from_option {ℓ} : {A : Type ℓ} → Option A → Thrown → Result A
from_option none e = err e
from_option (some a) e = ok a

pub ok-injective {ℓ} : {A : Type ℓ} {a b : A} → ok a ≡ ok b → a ≡ b
ok-injective h = cc

-- A chain that ended well got a value from its first step.
pub >>=-eq-ok {κ ℓ} :
    {T : Type κ} {U : Type ℓ} (first : Result T) (later : T → Result U) {u : U}
    → (first >>= later) ≡ ok u
    → (t : T) × (first ≡ ok t) × (later t ≡ ok u)
>>=-eq-ok (err thrown) later same = cc
>>=-eq-ok (ok t) later same = (t, refl, same)

-- A guard that let the rest run held.
pub guard-eq-ok {ℓ} :
    {B : Type ℓ} (b : Bool) (e : Thrown) (k : Result B) {r : B}
    → (guard b e >> k) ≡ ok r
    → (b ≡ true) × (k ≡ ok r)
guard-eq-ok true e k h = (refl, h)
guard-eq-ok false e k h = cc

pub guard_sound : (b : Bool) (e : Thrown) → guard b e ≡ ok tt → b ≡ true
guard_sound true e h = refl
guard_sound false e h = cc

pub >>-eq-ok {ℓ} :
    {B : Type ℓ} (m : Result (Unit {0})) (k : Result B) {r : B}
    → (m >> k) ≡ ok r
    → (m ≡ ok tt) × (k ≡ ok r)
>>-eq-ok (ok tt) k h = (refl, h)
>>-eq-ok (err e) k h = cc

pub from_option-eq-ok {ℓ κ} :
    {A : Type ℓ} {B : Type κ} (o : Option A) (e : Thrown) (f : A → Result B) {b : B}
    → (from_option o e >>= f) ≡ ok b
    → (a : A) × (o ≡ some a) × (f a ≡ ok b)
from_option-eq-ok none e f h = cc
from_option-eq-ok (some a) e f h = (a, refl, h)

pub from_option_sound {ℓ} :
    {A : Type ℓ} (o : Option A) (e : Thrown) {a : A} → from_option o e ≡ ok a → o ≡ some a
from_option_sound none e h = cc
from_option_sound (some b) e h = cc
