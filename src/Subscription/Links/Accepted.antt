-- ===== src/Subscription/Links/Accepted.antt =====
-- What an accepted link has: itself as its share link, and a port in range. A vmess link is excepted
-- there, whose document may give the port as a fraction, which the model of `JSON.parse` refuses.
use vor.Common.{
  ℕ, suc, ◌≤◌, ◌≡◌, refl, subst, ◌-◌, split, true, false, Option, none, some, [], ◌∷◌, ◌++◌, arith,
  length, drop, take, Text, codes, starts_with, trim, index_of, Number, nan, int, nat, pos, negsuc,
  ◌⊎◌, Bool-cases, inl, inr, ==_iff, decode_lossy, Bytes,
}
use vor.Crypto.{b64_decode_forgiving}
use vor.Subscription.{
  ParsedProfile, parsed, is_bad_port, parse_host_port, first_piece, second_piece,
}
use vor.Subscription.Links.{
  ss_profile, ss_cred, ss_plain, ss_whole_cred, ss_whole_at, ss_whole, ss_at, parse_ss, by_scheme,
  parse_link, compose_share_link,
}
use vor.Subscription.Links.Profiles.{
  IsFor, parsed-injective, failed-parsed, parse_host_port-good, parse_vless-IsFor,
  parse_trojan-IsFor, parse_vmess-IsFor,
}

ss_profile-IsFor :
    (rest : Text) (tag : Option Text) (encryption password hostport : Text)
    (o : Option (Text × Number)) (p : ParsedProfile)
    → parse_host_port hostport ≡ o
    → ss_profile rest tag encryption password o ≡ parsed p
    → IsFor (codes "ss://" ++ rest) p
ss_profile-IsFor rest tag encryption password hostport none p found e = cc
ss_profile-IsFor rest tag encryption password hostport (some (host, port)) p found e =
    let good = parse_host_port-good hostport host port found in
    subst (IsFor (codes "ss://" ++ rest)) (parsed-injective e) (refl, good)

ss_cred-IsFor :
    (rest : Text) (tag : Option Text) (cred hostport : Text) (o : Option ℕ) (p : ParsedProfile)
    → ss_cred rest tag cred hostport o ≡ parsed p
    → IsFor (codes "ss://" ++ rest) p
ss_cred-IsFor rest tag cred hostport none p e = cc
ss_cred-IsFor rest tag cred hostport (some ci) p e =
    ss_profile-IsFor rest tag (take ci cred) (drop (suc ci) cred) hostport _ p refl e

ss_whole_cred-IsFor :
    (rest : Text) (tag : Option Text) (all : Text) (ai : ℕ) (o : Option ℕ) (p : ParsedProfile)
    → ss_whole_cred rest tag all ai o ≡ parsed p
    → IsFor (codes "ss://" ++ rest) p
ss_whole_cred-IsFor rest tag all ai none p e = cc
ss_whole_cred-IsFor rest tag all ai (some ci) p e =
    ss_profile-IsFor rest tag (take ci all) (take (ai - suc ci) (drop (suc ci) all))
      (drop (suc ai) all) _ p refl e

ss_whole_at-IsFor :
    (rest : Text) (tag : Option Text) (all : Text) (o : Option ℕ) (p : ParsedProfile)
    → ss_whole_at rest tag all o ≡ parsed p
    → IsFor (codes "ss://" ++ rest) p
ss_whole_at-IsFor rest tag all none p e = cc
ss_whole_at-IsFor rest tag all (some ai) p e =
    ss_whole_cred-IsFor rest tag all ai (index_of 58 all) p e

ss_whole-IsFor :
    (rest : Text) (tag : Option Text) (o : Option Bytes) (p : ParsedProfile)
    → ss_whole rest tag o ≡ parsed p
    → IsFor (codes "ss://" ++ rest) p
ss_whole-IsFor rest tag none p e = cc
ss_whole-IsFor rest tag (some bytes) p e = ss_whole_at-IsFor rest tag (decode_lossy bytes) _ p e

ss_plain-IsFor :
    (rest : Text) (tag : Option Text) (hostport : Text) (o : Option Bytes) (p : ParsedProfile)
    → ss_plain rest tag hostport o ≡ parsed p
    → IsFor (codes "ss://" ++ rest) p
ss_plain-IsFor rest tag hostport none p e = cc
ss_plain-IsFor rest tag hostport (some bytes) p e =
    ss_cred-IsFor rest tag (decode_lossy bytes) hostport _ p e

ss_at-IsFor :
    (rest : Text) (tag : Option Text) (main : Text) (o : Option ℕ) (p : ParsedProfile)
    → ss_at rest tag main o ≡ parsed p
    → IsFor (codes "ss://" ++ rest) p
ss_at-IsFor rest tag main none p e = ss_whole-IsFor rest tag (b64_decode_forgiving main) p e
ss_at-IsFor rest tag main (some at) p e =
    ss_plain-IsFor rest tag (drop (suc at) main) (b64_decode_forgiving (take at main)) p e

parse_ss-IsFor :
    (rest : Text) (p : ParsedProfile) → parse_ss rest ≡ parsed p → IsFor (codes "ss://" ++ rest) p
unfolding parse_ss
parse_ss-IsFor rest p e =
    ss_at-IsFor rest (second_piece (split 35 rest)) (first_piece (split 35 rest)) _ p e

starts_with-drop :
    (s prefix : Text) → starts_with s prefix ≡ true → prefix ++ drop (length prefix) s ≡ s
unfolding starts_with
starts_with-drop s [] h = refl
starts_with-drop [] (c ∷ prefix) h = cc
starts_with-drop (d ∷ s) (c ∷ prefix) h = ground (arith, starts_with-drop s prefix, ==_iff d c)

of_prefix :
    (l prefix : Text) (p : ParsedProfile)
    → starts_with l prefix ≡ true
    → IsFor (prefix ++ drop (length prefix) l) p
    → IsFor l p
of_prefix l prefix p h k = subst (λ t. IsFor t p) (starts_with-drop l prefix h) k

by_scheme-IsFor : (l : Text) (p : ParsedProfile) → by_scheme l ≡ parsed p → IsFor l p
by_scheme-IsFor [] p e = cc
by_scheme-IsFor (c ∷ l) p e = elim (Bool-cases (starts_with (c ∷ l) (codes "vless://"))) [
  | inl vless ↦
      of_prefix (c ∷ l) (codes "vless://") p vless
        (parse_vless-IsFor (drop 8 (c ∷ l)) p (rw vless at e))
  | inr other ↦
      let e1 = rw other at e in
      elim (Bool-cases (starts_with (c ∷ l) (codes "vmess://"))) [
        | inl vmess ↦
            of_prefix (c ∷ l) (codes "vmess://") p vmess
              (parse_vmess-IsFor (drop 8 (c ∷ l)) p (rw vmess at e1))
        | inr other2 ↦
            let e2 = rw other2 at e1 in
            elim (Bool-cases (starts_with (c ∷ l) (codes "trojan://"))) [
              | inl trojan ↦
                  of_prefix (c ∷ l) (codes "trojan://") p trojan
                    (parse_trojan-IsFor (drop 9 (c ∷ l)) p (rw trojan at e2))
              | inr other3 ↦
                  let e3 = rw other3 at e2 in
                  elim (Bool-cases (starts_with (c ∷ l) (codes "ss://"))) [
                    | inl ss ↦
                        of_prefix (c ∷ l) (codes "ss://") p ss
                          (parse_ss-IsFor (drop 5 (c ∷ l)) p (rw ss at e3))
                    | inr none_of_them ↦ absurd (failed-parsed (rw none_of_them at e3))
                  ]
            ]
      ]
]

good_port : (x : Number) → is_bad_port x ≡ false → (k : ℕ) × (x ≡ nat k) × (1 ≤ k) × (k ≤ 65535)
good_port nan h = cc
good_port (int (pos k)) h = (k, refl, ground arith, ground arith)
good_port (int (negsuc k)) h = absurd (ground arith)

-- A link that is accepted has its trimmed text as its share link, and unless it is a vmess link, a
-- whole port from 1 to 65535.
pub parse_link-accepted :
    (link : Text) (p : ParsedProfile)
    → parse_link link ≡ parsed p
    → (compose_share_link p ≡ trim link)
      × ((starts_with (trim link) (codes "vmess://") ≡ true)
          ⊎ ((k : ℕ) × (p.endpoint.port ≡ nat k) × (1 ≤ k) × (k ≤ 65535)))
unfolding parse_link
parse_link-accepted link p e =
    let (raw, good) = by_scheme-IsFor (trim link) p e in
    (
      raw,
      elim (Bool-cases (starts_with (trim link) (codes "vmess://"))) [
        | inl vmess ↦ inl vmess
        | inr other ↦ inr (good_port p.endpoint.port good)
      ],
    )
