-- ===== src/Subscription/Links.antt =====
-- The vmess and shadowsocks links, the choice of the scheme, and whole subscriptions.
pub mod Profiles
pub mod Accepted
use vor.Common.{
  ℕ, suc, Bool, true, false, Option, none, some, List, [], ◌∷◌, ◌++◌, map, filter, length, take,
  drop, if◌then◌else◌, ◌-◌, Text, codes, starts_with, trim, split, index_of, last_index_of, Number,
  nan, int, decode_lossy, Bytes, not,
}
use vor.Crypto.{b64_decode_forgiving}
use vor.Canonical.{JsonValue, null, boolean, number, string, array, object, Members, end, member}
use vor.Canonical.Parse.{get, parse_json}
use vor.Subscription.Uri.{parse_int}
use vor.Subscription.{
  ProfileEndpoint, ParsedProfile, ParseError, empty, unsupported_scheme, malformed, ParseResult,
  parsed, failed, throws, first_piece, second_piece, or_text, is_bad_port, parse_host_port,
  bare_endpoint, host_port_error, base64_error, parse_vless, parse_trojan,
}

-- `typeof v === 'string' ? v : undefined`
abbrev pub text_of : Option JsonValue → Option Text
text_of (some (string t)) = some t
text_of _ = none

-- A number, or the number in front of a text; NaN stands for `undefined`, which fails the same test. A
-- document with a fraction or an exponent, in the port as well, is refused by the model's parser.
abbrev pub port_of : Option JsonValue → Number
port_of (some (number x)) = x
port_of (some (string t)) = parse_int t
port_of _ = nan

abbrev pub vmess_profile : Text → Members → Text → Number → ParseResult
vmess_profile rest v add port =
    if is_bad_port port
    then failed (malformed (codes "vmess port"))
    else parsed (record {
      protocol = codes "vmess";
      endpoint =
          record (bare_endpoint (or_text (text_of (get (codes "ps") v)) (codes "vmess")) add port) {
            uuid = or_text (text_of (get (codes "id") v)) [];
            sni = text_of (get (codes "sni") v);
            path = text_of (get (codes "path") v);
            host = text_of (get (codes "host") v);
            encryption = text_of (get (codes "scy") v);
            net = text_of (get (codes "net") v);
          };
      raw = codes "vmess://" ++ rest;
    })

abbrev pub add_error : ParseResult
add_error = failed (malformed (codes "vmess add"))

abbrev pub vmess_add : Text → Members → Option Text → ParseResult
vmess_add rest v none = add_error
vmess_add rest v (some []) = add_error
vmess_add rest v (some (c ∷ add)) = vmess_profile rest v (c ∷ add) (port_of (get (codes "port") v))

-- The reads of `v.add` and the others: `null` throws, and no other value but an object has them.
abbrev pub vmess_value : Text → Option JsonValue → ParseResult
vmess_value rest none = failed (malformed (codes "vmess json"))
vmess_value rest (some null) = throws
vmess_value rest (some (object v)) = vmess_add rest v (text_of (get (codes "add") v))
vmess_value rest (some _) = add_error

abbrev pub vmess_bytes : Text → Option Bytes → ParseResult
vmess_bytes rest none = base64_error
vmess_bytes rest (some bytes) = vmess_value rest (parse_json (decode_lossy bytes))

unfoldable pub parse_vmess : Text → ParseResult
unfolding b64_decode_forgiving parse_json decode_lossy get parse_int
parse_vmess rest = vmess_bytes rest (b64_decode_forgiving rest)

abbrev pub ss_profile : Text → Option Text → Text → Text → Option (Text × Number) → ParseResult
ss_profile rest tag encryption password none = host_port_error
ss_profile rest tag encryption password (some (host, port)) = parsed (record {
  protocol = codes "shadowsocks";
  endpoint = record (bare_endpoint (or_text tag (codes "ss")) host port) {
    password = some password;
    encryption = some encryption;
  };
  raw = codes "ss://" ++ rest;
})

-- The credentials `cred`, and the host and port after them.
abbrev pub ss_cred : Text → Option Text → Text → Text → Option ℕ → ParseResult
ss_cred rest tag cred hostport none = failed (malformed (codes "ss cred"))
ss_cred rest tag cred hostport (some ci) =
    ss_profile rest tag (take ci cred) (drop (suc ci) cred) (parse_host_port hostport)

abbrev pub ss_plain : Text → Option Text → Text → Option Bytes → ParseResult
ss_plain rest tag hostport none = base64_error
ss_plain rest tag hostport (some bytes) =
    let cred = decode_lossy bytes in ss_cred rest tag cred hostport (index_of 58 cred)

-- `all.slice(ci + 1, ai)` of a link that is encoded as a whole
abbrev pub ss_whole_cred : Text → Option Text → Text → ℕ → Option ℕ → ParseResult
ss_whole_cred rest tag all ai none = failed (malformed (codes "ss cred"))
ss_whole_cred rest tag all ai (some ci) =
    ss_profile rest tag (take ci all) (take (ai - suc ci) (drop (suc ci) all))
      (parse_host_port (drop (suc ai) all))

abbrev pub ss_whole_at : Text → Option Text → Text → Option ℕ → ParseResult
ss_whole_at rest tag all none = failed (malformed (codes "ss missing @"))
ss_whole_at rest tag all (some ai) = ss_whole_cred rest tag all ai (index_of 58 all)

abbrev pub ss_whole : Text → Option Text → Option Bytes → ParseResult
ss_whole rest tag none = base64_error
ss_whole rest tag (some bytes) =
    let all = decode_lossy bytes in ss_whole_at rest tag all (last_index_of 64 all)

abbrev pub ss_at : Text → Option Text → Text → Option ℕ → ParseResult
ss_at rest tag main none = ss_whole rest tag (b64_decode_forgiving main)
ss_at rest tag main (some at) =
    ss_plain rest tag (drop (suc at) main) (b64_decode_forgiving (take at main))

unfoldable pub parse_ss : Text → ParseResult
unfolding split index_of last_index_of b64_decode_forgiving decode_lossy parse_host_port
parse_ss rest =
    let pieces = split 35 rest in
    let main = first_piece pieces in ss_at rest (second_piece pieces) main (index_of 64 main)

-- `l.split('://')[0]`
unfoldable pub before_scheme : Text → Text
unfolding starts_with
before_scheme [] = []
before_scheme (c ∷ s) =
    let later = before_scheme s in if starts_with (c ∷ s) (codes "://") then [] else c ∷ later

abbrev pub by_scheme : Text → ParseResult
by_scheme [] = failed empty
by_scheme (c ∷ l) =
    if starts_with (c ∷ l) (codes "vless://")
    then parse_vless (drop 8 (c ∷ l))
    else if starts_with (c ∷ l) (codes "vmess://")
    then parse_vmess (drop 8 (c ∷ l))
    else if starts_with (c ∷ l) (codes "trojan://")
    then parse_trojan (drop 9 (c ∷ l))
    else if starts_with (c ∷ l) (codes "ss://")
    then parse_ss (drop 5 (c ∷ l))
    else failed (unsupported_scheme (before_scheme (c ∷ l)))

unfoldable pub parse_link : Text → ParseResult
unfolding trim starts_with parse_vless parse_vmess parse_trojan parse_ss before_scheme
parse_link link = by_scheme (trim link)

-- `text.includes('://')`
unfoldable pub has_scheme : Text → Bool
unfolding starts_with
has_scheme [] = false
has_scheme (c ∷ s) =
    let later = has_scheme s in if starts_with (c ∷ s) (codes "://") then true else later

abbrev pub is_filled : Text → Bool
is_filled [] = false
is_filled (c ∷ s) = true

abbrev pub parse_lines : Text → List ParseResult
parse_lines text = map parse_link (filter is_filled (map trim (split 10 text)))

abbrev pub decoded_lines : Option Bytes → List ParseResult
decoded_lines none = base64_error ∷ []
decoded_lines (some bytes) = parse_lines (decode_lossy bytes)

abbrev pub subscription_of : Text → List ParseResult
subscription_of [] = failed empty ∷ []
subscription_of (c ∷ s) =
    if has_scheme (c ∷ s) then parse_lines (c ∷ s) else decoded_lines (b64_decode_forgiving (c ∷ s))

-- A link that throws makes the whole call throw: the list then has a `throws`.
unfoldable pub parse_subscription : Text → List ParseResult
unfolding trim split has_scheme parse_link b64_decode_forgiving decode_lossy
parse_subscription payload = subscription_of (trim payload)

abbrev pub compose_share_link : ParsedProfile → Text
compose_share_link p = p.raw
