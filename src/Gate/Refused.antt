-- ===== src/Gate/Refused.antt =====
-- What the gate refuses: files that hold no licence.
use vor.Common.{ℕ, ◌≡◌, refl, ap, ◌∙◌, false, Option, none, some, Text}
use vor.Crypto.{Noble}
use vor.License.{parse_license_file_text}
use vor.License.Errors.{Thrown, malformed, license_error, err}
use vor.Keystore.{TrustedKeys}
use vor.Keystore.Verify.{VerifyOptions, verify_license, rejected}
use vor.Store.{World}
use vor.Store.License.{settle, verify_options, verify_and_activate}
use vor.Gate.{GateState, broken_envelope, take_file, on_file}

broken_fails :
    (n : Noble) (trusted : Option TrustedKeys) (opts : VerifyOptions)
    → verify_license n broken_envelope trusted opts ≡ err (license_error malformed)
unfolding verify_license vor.License.envelope_decode vor.Common.text_eq vor.Crypto.b64url_decode
broken_fails n trusted opts = refl

module _ {F : Type 0} (n : Noble) where
  broken-settled :
      (now : ℕ) (w : World F)
      → verify_and_activate n now false broken_envelope w
        ≡ settle now false broken_envelope (err (license_error malformed)) w
  unfolding verify_and_activate
  broken-settled now w =
      ap (λ r. settle now false broken_envelope r w)
        (broken_fails n w.storage.trusted (verify_options now w.storage))

  -- A file from which no envelope can be read leaves the gate's field and state as they are; the
  -- report says that the licence is malformed, and no licence is active.
  pub on_file-refuses :
      (now : ℕ) (content : Text) (e : Thrown) (g : GateState) (w : World F)
      → parse_license_file_text content ≡ err e
      → ((on_file n now content (g, w)).0 ≡ g)
        × ((on_file n now content (g, w)).1.store.last_report ≡ some (rejected malformed))
        × ((on_file n now content (g, w)).1.store.activated ≡ none)
  unfolding on_file settle take_file
  on_file-refuses now content e g w unread = (
    ap (λ r. (take_file n now r (g, w)).0) unread,
    ap (λ r. (take_file n now r (g, w)).1.store.last_report) unread
        ∙ ap (λ v. v.store.last_report) (broken-settled now w),
    ap (λ r. (take_file n now r (g, w)).1.store.activated) unread
        ∙ ap (λ v. v.store.activated) (broken-settled now w),
  )
