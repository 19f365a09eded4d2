-- ===== src/Keystore/Rotation.antt =====
-- Key generation and rotation: which keys are trusted afterwards, and what the keystore keeps true.
use vor.Common.{
  ◌≡◌, refl, Bool, false, ◌||◌, Option, none, some, arith, Text, text_eq, text_eq_refl, ℤ,
  if◌then◌else◌, Bool-cases, inl, inr, codes, Bytes,
}
use vor.Crypto.{Noble, to_hex}
use vor.Keystore.{
  active, KeyRecord, KeyStore, retire, active_key_of, trusted_from_keystore, has_active, is_trusted,
  derive_key_id, new_record, generate_keystore, rotate_keystore,
}
use vor.Keystore.Dictionary.{find, map_values, map_option, find-put, find-map_values}

-- Whether the retired-or-not copy of a record is active.
has_active-retire :
    (now : ℤ) (retire_old : Bool) (o : Option KeyRecord)
    → has_active (map_option (retire now retire_old) o)
      ≡ (if retire_old then false else has_active o)
has_active-retire now retire_old none = ground arith
has_active-retire now retire_old (some r) = ground arith

module _ (n : Noble) (ks : KeyStore) (now : ℤ) (secret : Bytes) where
  -- After a rotation the trusted snapshot trusts the new key, and of the others exactly those that
  -- it trusted before if the old keys are kept, none if they are retired.
  pub is_trusted-rotate_keystore :
      (retire_old : Bool) (id : Text)
      → is_trusted (some (trusted_from_keystore (rotate_keystore n ks now retire_old secret))) id
        ≡ (text_eq (derive_key_id n (n.public_key secret)) id
            || (if retire_old then false else is_trusted (some (trusted_from_keystore ks)) id))
  unfolding is_trusted trusted_from_keystore rotate_keystore
  is_trusted-rotate_keystore retire_old id =
      rw
        (find-put id (derive_key_id n (n.public_key secret))
          (new_record n secret now (codes "rotated master key"))
          (map_values (retire now retire_old) ks.keys))
        (elim (Bool-cases (text_eq (derive_key_id n (n.public_key secret)) id)) [
          | inl same ↦ rw same
          | inr other ↦
              rw (other, find-map_values id (retire now retire_old) ks.keys)
                (has_active-retire now retire_old (find id ks.keys))
        ])

-- The active key of a keystore is listed and active, its hash is its id, and it is the public key
-- of the signing key.
pub record IsConsistent (n : Noble) (ks : KeyStore) : Type 0 where
  pub secret : Bytes
  pub entry : KeyRecord
  pub listed : active_key_of (some ks) ≡ some entry
  pub in_use : entry.status ≡ active
  pub named : entry.key_id ≡ ks.active_key_id
  pub signing : ks.signing_key ≡ to_hex n secret
  pub public : entry.public ≡ to_hex n (n.public_key secret)
  pub derived : ks.active_key_id ≡ derive_key_id n (n.public_key secret)

generate_keystore-IsConsistent :
    (n : Noble) (now : ℤ) (secret : Bytes) → IsConsistent n (generate_keystore n now secret)
unfolding generate_keystore active_key_of find
generate_keystore-IsConsistent n now secret = record {
  secret = secret;
  entry = new_record n secret now (codes "master key");
  listed = rw (text_eq_refl (derive_key_id n (n.public_key secret)));
  in_use = refl;
  named = refl;
  signing = refl;
  public = refl;
  derived = refl;
}

rotate_keystore-IsConsistent :
    (n : Noble) (ks : KeyStore) (now : ℤ) (retire_old : Bool) (secret : Bytes)
    → IsConsistent n (rotate_keystore n ks now retire_old secret)
unfolding rotate_keystore active_key_of
rotate_keystore-IsConsistent n ks now retire_old secret = record {
  secret = secret;
  entry = new_record n secret now (codes "rotated master key");
  listed = rw (
    find-put (derive_key_id n (n.public_key secret)) (derive_key_id n (n.public_key secret))
        (new_record n secret now (codes "rotated master key"))
        (map_values (retire now retire_old) ks.keys),
    text_eq_refl (derive_key_id n (n.public_key secret)),
  );
  in_use = refl;
  named = refl;
  signing = refl;
  public = refl;
  derived = refl;
}

-- The keystores that the manager can reach: one that was generated, then rotated any number of times.
pub data Reachable (n : Noble) : KeyStore → Type 0 where
  generated : (now : ℤ) (secret : Bytes) → Reachable n (generate_keystore n now secret)
  rotated :
      {ks : KeyStore} (now : ℤ) (retire_old : Bool) (secret : Bytes)
      → Reachable n ks
      → Reachable n (rotate_keystore n ks now retire_old secret)

-- Every keystore that the manager can reach is consistent.
pub Reachable-IsConsistent : (n : Noble) {ks : KeyStore} → Reachable n ks → IsConsistent n ks
Reachable-IsConsistent n (generated now secret) = generate_keystore-IsConsistent n now secret
Reachable-IsConsistent n (rotated {ks} now retire_old secret r) =
    rotate_keystore-IsConsistent n ks now retire_old secret
