-- ===== src/Keystore/Verify/Report.antt =====
-- The report on a licence: the days that remain, and why an envelope is refused.
use vor.Common.{
  ℕ, ◌+◌, ◌*◌, ◌/◌, ◌≤◌, ◌<◌, ◌≡◌, refl, sym, subst, Option, arith, Text, ℤ, pos, negsuc, ◌-ℤ◌,
  pos_part, int, nan, nat, Number, num_sub,
}
use vor.Crypto.{Noble}
use vor.License.{LicensePayload}
use vor.License.Errors.{Result, ok, err, license_error, exception}
use vor.Keystore.{TrustedKeys}
use vor.Keystore.Verify.{
  VerifyOptions, accepted, days_of, report_of, verify_license, verify_to_report,
}

-- Whole days below a span of seconds, none if it is negative.
days-floor :
    (z : ℤ)
    → (k : ℕ) × (days_of (int z) ≡ nat k)
      × (k * 86400 ≤ pos_part z)
      × (pos_part z < (k + 1) * 86400)
days-floor (pos s) = (s / 86400, refl, omega arith, omega arith)
days-floor (negsuc s) = (0, refl, omega arith, omega arith)

accepted_of_report :
    (now : Number) (r : Result LicensePayload) (p : LicensePayload) (d : Number)
    → report_of now r ≡ accepted p d
    → (r ≡ ok p) × (d ≡ days_of (num_sub p.expires_at now))
accepted_of_report now (ok q) p d h = ground arith
accepted_of_report now (err (license_error c)) p d h = cc
accepted_of_report now (err exception) p d h = cc

-- The days of a report at a time: the whole days of the seconds that remain until an expiry, 0 if
-- none remain, and NaN if one of the two is no number.
abbrev pub AreDaysLeft : Number → Number → Number → Type 0
AreDaysLeft (int t) (int e) d =
    (k : ℕ) × (d ≡ nat k) × (k * 86400 ≤ pos_part (e -ℤ t)) × (pos_part (e -ℤ t) < (k + 1) * 86400)
AreDaysLeft (int t) nan d = d ≡ nan
AreDaysLeft nan e d = d ≡ nan

days_of-AreDaysLeft : (t e : Number) → AreDaysLeft t e (days_of (num_sub e t))
days_of-AreDaysLeft (int t) (int e) = days-floor (e -ℤ t)
days_of-AreDaysLeft (int t) nan = refl
days_of-AreDaysLeft nan nan = refl
days_of-AreDaysLeft nan (int e) = refl

-- A report accepts only what `verifyLicense` returns, and its days are the whole days of the seconds
-- that remain, 0 if none remain, and NaN if the current time or the expiry is NaN.
pub verify_to_report-days :
    (n : Noble) (envelope : Text) (trusted : Option TrustedKeys) (opts : VerifyOptions)
    (p : LicensePayload) (d : Number)
    → verify_to_report n envelope trusted opts ≡ accepted p d
    → (verify_license n envelope trusted opts ≡ ok p) × AreDaysLeft opts.now p.expires_at d
unfolding verify_to_report
verify_to_report-days n envelope trusted opts p d h =
    let (verified, days) = accepted_of_report opts.now _ p d h in
    (
      verified,
      subst (AreDaysLeft opts.now p.expires_at) (sym days)
          (days_of-AreDaysLeft opts.now p.expires_at),
    )
