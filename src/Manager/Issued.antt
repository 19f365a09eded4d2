-- ===== src/Manager/Issued.antt =====
-- What the console's form issues, and what binding a device re-signs.
use vor.Common.{
  ℕ, suc, ◌+◌, ◌≡◌, refl, sym, ap, ◌∙◌, inl, inr, subst, Bool-cases, true, false, ◌||◌, some, List,
  [], ◌∷◌, ◌++◌, map, arith, Text, text_eq, text_eq_iff, includes, trim, ℤ, pos, negsuc, ◌+ℤ◌, ◌-ℤ◌,
  ◌≤ℤ◌, int, nat, num_sub, zero,
}
use vor.Crypto.{Noble}
use vor.Crypto.{from_hex}
use vor.Hwid.{normalize_hwid}
use vor.Hwid.Normal.{normalize_hwid-idempotent}
use vor.Canonical.{string}
use vor.License.{LicensePayload}
use vor.License.Schema.{validate_schema}
use vor.License.Payload.{payload_to_canonical}
use vor.License.Errors.{
  Result, ok, err, exception, guard, from_option, ok-injective, >>=-eq-ok, >>-eq-ok,
}
use vor.Keystore.{KeyStore, active_key_of}
use vor.Keystore.Issue.{build_payload, IssuedLicense, issue_license, sign_canonical, public_of}
use vor.Keystore.Issue.Expired.{issue_expired_fails}
use vor.Keystore.Verify.{hwid_texts, is_bound}
use vor.Store.License.{now_secs}
use vor.Store.Actions.{distinct}
use vor.Manager.{StoredLicense, Desk, push_audit}
use vor.Store.{log_event}
use vor.Manager.Operations.{bind_options, whole}
use vor.Manager.Form.{
  IssueForm, issued, is_empty_text, is_bad_duration, hwid_lines, form_options, submitted,
  summary_of, submit, submit_form, settle_submit, on_issued, Duration, not_finite, zero_days, lasts,
  duration_seconds,
}

-- The licence that is issued carries the payload that was given.
issue_license-payload :
    (n : Noble) (ks : KeyStore) (p : LicensePayload) (i : IssuedLicense)
    → issue_license n ks p ≡ ok i
    → i.payload ≡ p
unfolding issue_license
issue_license-payload n ks p i h =
    let (_, h1) = >>-eq-ok (validate_schema p) _ h in
    let (_, h2) = >>-eq-ok (guard (text_eq p.key_id ks.active_key_id) _) _ h1 in
    let (canonical, _, h3) = >>=-eq-ok (payload_to_canonical p) _ h2 in
    let (sig, _, h4) = >>=-eq-ok (sign_canonical n ks canonical) _ h3 in
    let (pk, _, h5) =
      >>=-eq-ok (from_option (from_hex n (public_of (active_key_of (some ks)))) exception) _ h4 in
    sym (ap (λ j. j.payload) (ok-injective h5))

module _ (g : Text → Text) where
  includes-map :
      (xs : List Text) (x : Text) → includes xs x ≡ true → includes (map g xs) (g x) ≡ true
  unfolding includes
  includes-map [] x h = cc
  includes-map (y ∷ xs) x h =
      ground (arith, includes-map xs x, text_eq_iff y x, text_eq_iff (g y) (g x), ap g)

  -- Dropping repetitions changes no test, whatever is done to the elements.
  includes-map-distinct :
      (seen xs : List Text) (t : Text)
      → (includes (map g (distinct seen xs)) t || includes (map g seen) t)
        ≡ (includes (map g xs) t || includes (map g seen) t)
  unfolding distinct includes
  includes-map-distinct seen [] t = refl
  includes-map-distinct seen (x ∷ xs) t = elim (Bool-cases (includes seen x)) [
    | inl old ↦
        rw (old, distinct, ◌||◌)
          (ground
            (arith, includes-map-distinct seen xs t, includes-map seen x old, text_eq_iff (g x) t))
    | inr new ↦ rw (new, distinct, ◌||◌) (ground (arith, includes-map-distinct (x ∷ seen) xs t))
  ]

  includes-map-append :
      (xs : List Text) (x t : Text)
      → includes (map g (xs ++ x ∷ [])) t ≡ (includes (map g xs) t || text_eq (g x) t)
  unfolding includes
  includes-map-append [] x t = ground arith
  includes-map-append (y ∷ xs) x t = ground (arith, includes-map-append xs x t)

hwid_texts-map : (hs : List Text) → hwid_texts (map string hs) ≡ hs
hwid_texts-map [] = refl
hwid_texts-map (h ∷ hs) = ap (h ∷◌) (hwid_texts-map hs)

map-map : (f g : Text → Text) (xs : List Text) → map f (map g xs) ≡ map (λ x. f (g x)) xs
map-map f g [] = refl
map-map f g (x ∷ xs) = ap (f (g x) ∷◌) (map-map f g xs)

map_ext : (f g : Text → Text) (xs : List Text) → ((x : Text) → f x ≡ g x) → map f xs ≡ map g xs
map_ext f g [] h = refl
map_ext f g (x ∷ xs) h = rw (h x, map_ext f g xs h) refl

bound_texts :
    (hs : List Text) → hwid_texts (map (λ h. string (normalize_hwid h)) hs) ≡ map normalize_hwid hs
bound_texts [] = refl
bound_texts (h ∷ hs) = ap (normalize_hwid h ∷◌) (bound_texts hs)

-- Which device the bound HWIDs of a payload allow.
is_bound-payload :
    (hs : List Text) (c : ℕ) (device : Text)
    → is_bound (map (λ h. string (normalize_hwid h)) hs) (some (c ∷ device))
      ≡ includes (map normalize_hwid hs) (normalize_hwid (c ∷ device))
unfolding is_bound
is_bound-payload hs c device =
    ap (λ ts. includes (map normalize_hwid ts) (normalize_hwid (c ∷ device))) (bound_texts hs)
    ∙ ap (λ ts. includes ts (normalize_hwid (c ∷ device)))
        (map-map normalize_hwid normalize_hwid hs
          ∙ map_ext (λ x. normalize_hwid (normalize_hwid x)) normalize_hwid hs
              normalize_hwid-idempotent)

includes-distinct :
    (g : Text → Text) (xs : List Text) (t : Text)
    → includes (map g (distinct [] xs)) t ≡ includes (map g xs) t
unfolding includes
includes-distinct g xs t = ground (arith, includes-map-distinct g [] xs t)

-- A licence that has a number as its expiry and that binding has re-signed keeps its id, expires
-- after the first reading of the clock by what was left of its time at the second reading, and its
-- device policy allows a device exactly if it is the one that was entered or one of those bound
-- before, up to the normal form of HWIDs.
pub bind-rebinds :
    (n : Noble) (now second_now : ℕ) (ks : KeyStore) (l : StoredLicense) (hwid : Text)
    (i : IssuedLicense) (e : ℤ) (c : ℕ) (device : Text)
    → l.expires_at ≡ int e
    → issue_license n ks (build_payload (bind_options now second_now ks l hwid) []) ≡ ok i
    → (i.payload.license_id ≡ l.license_id)
      × (i.payload.expires_at ≡ int (pos (now_secs now) +ℤ (e -ℤ pos (now_secs second_now))))
      × (is_bound i.payload.device_policy.bound_hwids (some (c ∷ device)) ≡ (
          includes (map normalize_hwid l.bound_hwids) (normalize_hwid (c ∷ device))
          || text_eq (normalize_hwid hwid) (normalize_hwid (c ∷ device))))
unfolding build_payload bind_options
bind-rebinds n now second_now ks l hwid i e c device ends issued_ok =
    let same =
      issue_license-payload n ks (build_payload (bind_options now second_now ks l hwid) []) i
        issued_ok in
    let d = normalize_hwid (c ∷ device) in
    let norm = normalize_hwid hwid in
    let shifted : i.payload.expires_at
        ≡ int (pos (now_secs now) +ℤ (e -ℤ pos (now_secs second_now))) =
      ap (λ p. p.expires_at) same
      ∙ ap (λ x. int (pos (now_secs now) +ℤ whole (num_sub x (nat (now_secs second_now))))) ends in
    (
      ap (λ p. p.license_id) same,
      shifted,
      ap (λ p. is_bound p.device_policy.bound_hwids (some (c ∷ device))) same
          ∙ is_bound-payload (distinct [] (l.bound_hwids ++ norm ∷ [])) c device
          ∙ includes-distinct normalize_hwid (l.bound_hwids ++ norm ∷ []) d
          ∙ includes-map-append normalize_hwid l.bound_hwids norm d
          ∙ ap (λ t. includes (map normalize_hwid l.bound_hwids) d || text_eq t d)
              (normalize_hwid-idempotent hwid),
    )

submitted-issued :
    (form : IssueForm) (p : LicensePayload) (r : Result IssuedLicense) (i : IssuedLicense)
    (s : StoredLicense)
    → submitted form p r ≡ issued i s
    → (r ≡ ok i) × (s ≡ summary_of form p i)
submitted-issued form p (ok j) i s h = (cc, cc)
submitted-issued form p (err x) i s h = cc

pos_sum : (a b : ℕ) → pos a +ℤ pos b ≡ pos (a + b)
unfolding ◌+ℤ◌
pos_sum a b = ground arith

module _ (n : Noble) (now : ℕ) (uuid : Text) (ks : KeyStore) (form : IssueForm) where
  abbrev form_payload : LicensePayload
  form_payload = build_payload (form_options now ks form) uuid

  submit-passes :
      (i : IssuedLicense) (s : StoredLicense)
      → submit n now uuid ks form ≡ issued i s
      → (is_empty_text (trim form.org) ≡ false)
        × (is_bad_duration form.days ≡ false)
        × (issue_license n ks form_payload ≡ ok i)
        × (s ≡ summary_of form form_payload i)
  unfolding submit
  submit-passes i s h = elim (Bool-cases (is_empty_text (trim form.org))) [
    | inl blank ↦ cc (rw blank at h)
    | inr named ↦ elim (Bool-cases (is_bad_duration form.days)) [
      | inl bad ↦ cc (rw (named, bad) at h)
      | inr good ↦
          let (issues, same) =
            submitted-issued form form_payload (issue_license n ks form_payload) i s
              (rw (named, good) at h) in
          (named, good, issues, same)
    ]
  ]

  -- A duration that the form accepts and that a licence is issued for is a positive span.
  positive_span :
      (days : Duration)
      → form.days ≡ days
      → (i : IssuedLicense) → is_bad_duration days ≡ false
      → issue_license n ks form_payload ≡ ok i
      → (k : ℕ) × (days ≡ lasts (pos (suc k)))
  unfolding form_options
  positive_span not_finite e i good h = cc
  positive_span zero_days e i good h = cc
  positive_span (lasts (pos (suc k))) e i good h = (k, refl)
  positive_span (lasts (pos zero)) e i good h = absurd (
      issue_expired_fails n ks (form_options now ks form) uuid i
        (subst (λ x. duration_seconds x ≤ℤ pos 0) (sym e) (omega arith)) h)
  positive_span (lasts (negsuc k)) e i good h = absurd (
      issue_expired_fails n ks (form_options now ks form) uuid i
        (subst (λ x. duration_seconds x ≤ℤ pos 0) (sym e) (omega arith)) h)

  -- Where the form issues a licence, an organisation was given and the duration comes to a positive
  -- number of seconds; the licence carries the new id, the end of that span from now and, as its
  -- bound devices, the normal forms of those listed; its row has the same id, end and devices and
  -- the envelope, is not revoked, and is the last of the list that the console shows and saves.
  pub submit-issued :
      {F : Type 0} (i : IssuedLicense) (s : StoredLicense) (desk : Desk F)
      → submit n now uuid ks form ≡ issued i s
      → (is_empty_text (trim form.org) ≡ false)
        × ((k : ℕ) × (form.days ≡ lasts (pos (suc k)))
            × (i.payload.expires_at ≡ nat (now_secs now + suc k)))
        × (i.payload.license_id ≡ uuid)
        × (i.payload.device_policy.bound_hwids
            ≡ map (λ h. string (normalize_hwid h)) (hwid_lines form.hwids))
        × (s.license_id ≡ uuid)
        × (s.expires_at ≡ i.payload.expires_at)
        × (s.envelope ≡ i.envelope)
        × (s.bound_hwids ≡ map normalize_hwid (hwid_lines form.hwids))
        × (s.revoked ≡ false)
        × ((submit_form n now uuid ks form desk).licenses ≡ desk.licenses ++ s ∷ [])
        × ((submit_form n now uuid ks form desk).saved_licenses ≡ some (desk.licenses ++ s ∷ []))
  unfolding build_payload form_options submit_form on_issued push_audit log_event
  submit-issued i s desk h =
      let (named, good, issues, row) = submit-passes i s h in
      let (k, span) = positive_span form.days refl i good issues in
      let same = issue_license-payload n ks form_payload i issues in
      let ends : form_payload.expires_at ≡ nat (now_secs now + suc k) =
        ap (λ x. int (pos (now_secs now) +ℤ duration_seconds x)) span
        ∙ ap int (pos_sum (now_secs now) (suc k)) in
      (
        named,
        (k, span, ap (λ p. p.expires_at) same ∙ ends),
        ap (λ p. p.license_id) same,
        ap (λ p. p.device_policy.bound_hwids) same,
        ap (λ r. r.license_id) row,
        ap (λ r. r.expires_at) row ∙ sym (ap (λ p. p.expires_at) same),
        ap (λ r. r.envelope) row,
        ap (λ r. r.bound_hwids) row ∙ bound_texts (hwid_lines form.hwids),
        ap (λ r. r.revoked) row,
        ap (λ x. (settle_submit n now ks x desk).licenses) h,
        ap (λ x. (settle_submit n now ks x desk).saved_licenses) h,
      )
