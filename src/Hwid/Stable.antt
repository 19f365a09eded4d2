-- ===== src/Hwid/Stable.antt =====
-- The device's HWID stays the same once it is stored.
use vor.Common.{
  ◌≡◌, true, Option, none, some, ◌++◌, length, all, Text, codes, starts_with, Bytes, Bool-cases,
  inl, inr,
}
use vor.Crypto.{Noble, to_hex}
use vor.Hwid.{Browser, is_lower_hex, is_saved_hwid, hwid_of, machine_hwid}

-- The package writes a digest as 64 lower-case hexadecimal digits.
abbrev pub WritesDigests : Noble → Type 0
WritesDigests n =
    (message : Bytes)
    → (length (n.bytes_to_hex (n.sha256 message)) ≡ 64)
      × (all is_lower_hex (n.bytes_to_hex (n.sha256 message)) ≡ true)

saved_of_digest :
    (hex : Text)
    → length hex ≡ 64
    → all is_lower_hex hex ≡ true
    → is_saved_hwid (codes "HWID-SHA256-" ++ hex) ≡ true
unfolding is_saved_hwid starts_with
saved_of_digest hex h k = rw (h, k)

is_saved_hwid-hwid_of :
    (n : Noble) (b : Browser) → WritesDigests n → is_saved_hwid (hwid_of n b) ≡ true
unfolding to_hex
is_saved_hwid-hwid_of n b digests = let (h, k) = digests _ in saved_of_digest _ h k

keeps_saved :
    (n : Noble) (b : Browser) (hwid : Text)
    → is_saved_hwid hwid ≡ true
    → machine_hwid n b (some hwid) ≡ (hwid, some hwid)
unfolding machine_hwid
keeps_saved n b hwid h = rw (h, machine_hwid)

-- Where the storage can be written and the package writes digests as 64 digits, the HWID of a call
-- has the stored form, and a later call returns it again, whatever the browser's attributes are then.
pub machine_hwid-stable :
    (n : Noble) (before after : Browser) (saved : Option Text)
    → WritesDigests n
    → (is_saved_hwid (machine_hwid n before saved).0 ≡ true)
      × (machine_hwid n after (machine_hwid n before saved).1 ≡ machine_hwid n before saved)
unfolding machine_hwid
machine_hwid-stable n before after none digests =
    let fits = is_saved_hwid-hwid_of n before digests in
    (fits, keeps_saved n after (hwid_of n before) fits)
machine_hwid-stable n before after (some hwid) digests = elim (Bool-cases (is_saved_hwid hwid)) [
  | inl kept ↦ rw (kept, machine_hwid) (kept, keeps_saved n after hwid kept)
  | inr other ↦
      let fits = is_saved_hwid-hwid_of n before digests in
      rw (other, machine_hwid) (fits, keeps_saved n after (hwid_of n before) fits)
]
