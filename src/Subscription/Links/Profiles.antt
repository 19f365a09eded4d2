-- ===== src/Subscription/Links/Profiles.antt =====
-- What an accepted vless, trojan or vmess link has: a port that passes the test, and itself as its
-- share link.
use vor.Common.{
  ℕ, suc, ◌≡◌, refl, subst, false, Option, none, some, [], ◌∷◌, ◌++◌, arith, drop, take, Text,
  codes, last_index_of, Number, Bool-cases, inl, inr, decode_lossy, Bytes,
}
use vor.Crypto.{b64_decode_forgiving}
use vor.Canonical.{JsonValue, null, boolean, number, string, array, object, Members}
use vor.Canonical.Parse.{get, parse_json}
use vor.Subscription.Uri.{parse_int}
use vor.Subscription.{
  ParsedProfile, ParseError, failed, parsed, Query, is_bad_port, checked_port, host_port_at,
  parse_host_port, strip_slashes, vless_profile, vless_at, parse_vless, trojan_profile, trojan_at,
  parse_trojan, split_query,
}
use vor.Subscription.Links.{
  text_of, port_of, vmess_profile, vmess_add, vmess_value, vmess_bytes, parse_vmess,
}

-- A profile that stands for a link, with a port that passes the test.
abbrev pub IsFor : Text → ParsedProfile → Type 0
IsFor link p = (p.raw ≡ link) × (is_bad_port p.endpoint.port ≡ false)

pub parsed-injective : {p q : ParsedProfile} → parsed p ≡ parsed q → p ≡ q
parsed-injective e = cc

pub failed-parsed : {x : ParseError} {p : ParsedProfile} → failed x ≡ parsed p → ⊥
failed-parsed e = cc

checked_port-good :
    (host h : Text) (port q : Number) → checked_port host port ≡ some (h, q) → is_bad_port q ≡ false
checked_port-good host h port q e = ground arith

host_port_at-good :
    (t h : Text) (o : Option ℕ) (q : Number)
    → host_port_at t o ≡ some (h, q)
    → is_bad_port q ≡ false
host_port_at-good t h none q e = cc
host_port_at-good t h (some idx) q e =
    checked_port-good (take idx t) h (parse_int (drop (suc idx) t)) q e

pub parse_host_port-good :
    (s h : Text) (q : Number) → parse_host_port s ≡ some (h, q) → is_bad_port q ≡ false
unfolding parse_host_port
parse_host_port-good s h q e =
    host_port_at-good (strip_slashes s) h (last_index_of 58 (strip_slashes s)) q e

-- What a protocol makes of a host and port is a profile for its link.
vless_profile-IsFor :
    (rest : Text) (q : Query) (userinfo hostport : Text) (o : Option (Text × Number))
    (p : ParsedProfile)
    → parse_host_port hostport ≡ o
    → vless_profile rest q userinfo o ≡ parsed p
    → IsFor (codes "vless://" ++ rest) p
vless_profile-IsFor rest q userinfo hostport none p found e = cc
vless_profile-IsFor rest q userinfo hostport (some (host, port)) p found e =
    let good = parse_host_port-good hostport host port found in
    subst (IsFor (codes "vless://" ++ rest)) (parsed-injective e) (refl, good)

vless_at-IsFor :
    (rest : Text) (q : Query) (o : Option ℕ) (p : ParsedProfile)
    → vless_at rest q o ≡ parsed p
    → IsFor (codes "vless://" ++ rest) p
vless_at-IsFor rest q none p e = cc
vless_at-IsFor rest q (some at) p e =
    vless_profile-IsFor rest q (take at q.authority) (drop (suc at) q.authority) _ p refl e

pub parse_vless-IsFor :
    (rest : Text) (p : ParsedProfile)
    → parse_vless rest ≡ parsed p
    → IsFor (codes "vless://" ++ rest) p
unfolding parse_vless
parse_vless-IsFor rest p e = vless_at-IsFor rest (split_query rest) _ p e

trojan_profile-IsFor :
    (rest : Text) (q : Query) (userinfo hostport : Text) (o : Option (Text × Number))
    (p : ParsedProfile)
    → parse_host_port hostport ≡ o
    → trojan_profile rest q userinfo o ≡ parsed p
    → IsFor (codes "trojan://" ++ rest) p
trojan_profile-IsFor rest q userinfo hostport none p found e = cc
trojan_profile-IsFor rest q userinfo hostport (some (host, port)) p found e =
    let good = parse_host_port-good hostport host port found in
    subst (IsFor (codes "trojan://" ++ rest)) (parsed-injective e) (refl, good)

trojan_at-IsFor :
    (rest : Text) (q : Query) (o : Option ℕ) (p : ParsedProfile)
    → trojan_at rest q o ≡ parsed p
    → IsFor (codes "trojan://" ++ rest) p
trojan_at-IsFor rest q none p e = cc
trojan_at-IsFor rest q (some at) p e =
    trojan_profile-IsFor rest q (take at q.authority) (drop (suc at) q.authority) _ p refl e

pub parse_trojan-IsFor :
    (rest : Text) (p : ParsedProfile)
    → parse_trojan rest ≡ parsed p
    → IsFor (codes "trojan://" ++ rest) p
unfolding parse_trojan
parse_trojan-IsFor rest p e = trojan_at-IsFor rest (split_query rest) _ p e

vmess_profile-IsFor :
    (rest : Text) (v : Members) (add : Text) (port : Number) (p : ParsedProfile)
    → vmess_profile rest v add port ≡ parsed p
    → IsFor (codes "vmess://" ++ rest) p
vmess_profile-IsFor rest v add port p e = elim (Bool-cases (is_bad_port port)) [
  | inl bad ↦ absurd (failed-parsed (rw bad at e))
  | inr good ↦
      subst (IsFor (codes "vmess://" ++ rest)) (parsed-injective (rw good at e)) (refl, good)
]

vmess_add-IsFor :
    (rest : Text) (v : Members) (o : Option Text) (p : ParsedProfile)
    → vmess_add rest v o ≡ parsed p
    → IsFor (codes "vmess://" ++ rest) p
vmess_add-IsFor rest v none p e = cc
vmess_add-IsFor rest v (some []) p e = cc
vmess_add-IsFor rest v (some (c ∷ add)) p e =
    vmess_profile-IsFor rest v (c ∷ add) (port_of (get (codes "port") v)) p e

vmess_value-IsFor :
    (rest : Text) (o : Option JsonValue) (p : ParsedProfile)
    → vmess_value rest o ≡ parsed p
    → IsFor (codes "vmess://" ++ rest) p
vmess_value-IsFor rest none p e = cc
vmess_value-IsFor rest (some null) p e = cc
vmess_value-IsFor rest (some (object v)) p e =
    vmess_add-IsFor rest v (text_of (get (codes "add") v)) p e
vmess_value-IsFor rest (some (boolean b)) p e = cc
vmess_value-IsFor rest (some (number x)) p e = cc
vmess_value-IsFor rest (some (string t)) p e = cc
vmess_value-IsFor rest (some (array vs)) p e = cc

vmess_bytes-IsFor :
    (rest : Text) (o : Option Bytes) (p : ParsedProfile)
    → vmess_bytes rest o ≡ parsed p
    → IsFor (codes "vmess://" ++ rest) p
vmess_bytes-IsFor rest none p e = cc
vmess_bytes-IsFor rest (some bytes) p e =
    vmess_value-IsFor rest (parse_json (decode_lossy bytes)) p e

pub parse_vmess-IsFor :
    (rest : Text) (p : ParsedProfile)
    → parse_vmess rest ≡ parsed p
    → IsFor (codes "vmess://" ++ rest) p
unfolding parse_vmess
parse_vmess-IsFor rest p e = vmess_bytes-IsFor rest (b64_decode_forgiving rest) p e
