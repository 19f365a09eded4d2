-- ===== src/Subscription.antt =====
-- The share-link parser, apps/preview/src/lib/vor/subscription.ts. The reason of a malformed vmess
-- document leaves out the text of the parser's error.
pub mod Uri
pub mod Links
use vor.Common.{
  ℕ, zero, suc, ◌+◌, ◌-◌, ◌*◌, Bool, true, false, ◌&&◌, ◌||◌, not, Option, none, some, List, [],
  ◌∷◌, ◌++◌, map, filter, ltb, leb, ◌==◌, if◌then◌else◌, length, take, drop, Text, codes, text_eq,
  includes, starts_with, trim, split, index_of, last_index_of, Number, nan, int, ℤ, pos, negsuc,
  num_le, num_lt, nat, decode_lossy, Bytes,
}
use vor.Crypto.{b64_decode_forgiving}
use vor.Canonical.{JsonValue, null, boolean, number, string, array, object, Members, end, member}
use vor.Canonical.Parse.{get, parse_json}
use vor.Subscription.Uri.{urldecode, parse_int}

pub record ProfileEndpoint : Type 0 where
  pub tag : Text
  pub address : Text
  pub port : Number
  pub uuid : Text
  pub sni : Option Text
  pub public_key : Option Text
  pub short_id : Option Text
  pub path : Option Text
  pub host : Option Text
  pub password : Option Text
  pub encryption : Option Text
  pub security : Option Text
  pub net : Option Text

pub record ParsedProfile : Type 0 where
  pub protocol : Text
  pub endpoint : ProfileEndpoint
  pub raw : Text

pub data ParseError : Type 0 where
  empty : ParseError
  unsupported_scheme : Text → ParseError
  malformed : Text → ParseError

-- `throws` is an exception that leaves the function, a TypeError.
pub data ParseResult : Type 0 where
  parsed : ParsedProfile → ParseResult
  failed : ParseError → ParseResult
  throws : ParseResult

-- The first piece of a split, and the second if there is one.
abbrev pub first_piece : List Text → Text
first_piece [] = []
first_piece (t ∷ ts) = t

abbrev pub second_piece : List Text → Option Text
second_piece [] = none
second_piece (t ∷ []) = none
second_piece (t ∷ u ∷ ts) = some u

abbrev pub or_text : Option Text → Text → Text
or_text none t = t
or_text (some s) t = s

-- `if (k) params.push([k, urldecode(v ?? '')])`
abbrev pub pair_of : List Text → List (Text × Text) → List (Text × Text)
pair_of ([] ∷ ts) later = later
pair_of [] later = later
pair_of ((c ∷ k) ∷ ts) later = (c ∷ k, urldecode (or_text (second_piece ((c ∷ k) ∷ ts)) [])) ∷ later

unfoldable pub query_pairs : List Text → List (Text × Text)
unfolding urldecode split
query_pairs [] = []
query_pairs (pair ∷ pairs) = pair_of (split 61 pair) (query_pairs pairs)

pub record Query : Type 0 where
  pub authority : Text
  pub tag : Option Text
  pub params : List (Text × Text)

abbrev pub params_of : Option Text → List (Text × Text)
params_of none = []
params_of (some []) = []
params_of (some (c ∷ qs)) = query_pairs (split 38 (c ∷ qs))

unfoldable pub split_query : Text → Query
unfolding split query_pairs
split_query fragment =
    let pieces = split 35 fragment in
    let parts = split 63 (first_piece pieces) in
    record {
      authority = first_piece parts;
      tag = second_piece pieces;
      params = params_of (second_piece parts);
    }

unfoldable pub query_get : List (Text × Text) → Text → Option Text
unfolding text_eq
query_get [] key = none
query_get ((k, v) ∷ ps) key = if text_eq k key then some v else query_get ps key

-- `replace(/\/+$/, '')`
abbrev pub keep_slash : ℕ → Text → Text
keep_slash c [] = if c == 47 then [] else c ∷ []
keep_slash c (d ∷ t) = c ∷ d ∷ t

unfoldable pub strip_slashes : Text → Text
strip_slashes [] = []
strip_slashes (c ∷ s) = keep_slash c (strip_slashes s)

-- `replace(/^\[|\]$/g, '')`
abbrev pub open_bracket : Text → Text
open_bracket [] = []
open_bracket (c ∷ s) = if c == 91 then s else c ∷ s

unfoldable pub close_bracket : Text → Text
close_bracket [] = []
close_bracket (c ∷ []) = if c == 93 then [] else c ∷ []
close_bracket (c ∷ d ∷ s) = c ∷ close_bracket (d ∷ s)

-- The test of a port: not finite, below 1 or above 65535.
abbrev pub is_bad_port : Number → Bool
is_bad_port nan = true
is_bad_port (int p) = num_le (int p) (nat 0) || num_lt (nat 65535) (int p)

abbrev pub checked_port : Text → Number → Option (Text × Number)
checked_port host port =
    if is_bad_port port then none else some (close_bracket (open_bracket host), port)

abbrev pub host_port_at : Text → Option ℕ → Option (Text × Number)
host_port_at t none = none
host_port_at t (some idx) = checked_port (take idx t) (parse_int (drop (suc idx) t))

unfoldable pub parse_host_port : Text → Option (Text × Number)
unfolding strip_slashes close_bracket last_index_of parse_int
parse_host_port s = let t = strip_slashes s in host_port_at t (last_index_of 58 t)

abbrev pub bare_endpoint : Text → Text → Number → ProfileEndpoint
bare_endpoint tag address port = record {
  tag = tag;
  address = address;
  port = port;
  uuid = [];
  sni = none;
  public_key = none;
  short_id = none;
  path = none;
  host = none;
  password = none;
  encryption = none;
  security = none;
  net = none;
}

abbrev pub host_port_error : ParseResult
host_port_error = failed (malformed (codes "host:port"))

abbrev pub base64_error : ParseResult
base64_error = failed (malformed (codes "base64"))

abbrev pub vless_profile : Text → Query → Text → Option (Text × Number) → ParseResult
vless_profile rest q userinfo none = host_port_error
vless_profile rest q userinfo (some (host, port)) = parsed (record {
  protocol = codes "vless";
  endpoint = record (bare_endpoint (or_text q.tag (codes "vless")) host port) {
    uuid = urldecode userinfo;
    sni = query_get q.params (codes "sni");
    public_key = query_get q.params (codes "pbk");
    short_id = query_get q.params (codes "sid");
    path = query_get q.params (codes "path");
    host = query_get q.params (codes "host");
    security = query_get q.params (codes "security");
    net = query_get q.params (codes "type");
  };
  raw = codes "vless://" ++ rest;
})

abbrev pub vless_at : Text → Query → Option ℕ → ParseResult
vless_at rest q none = failed (malformed (codes "vless missing @"))
vless_at rest q (some at) =
    vless_profile rest q (take at q.authority) (parse_host_port (drop (suc at) q.authority))

unfoldable pub parse_vless : Text → ParseResult
unfolding split_query index_of parse_host_port urldecode query_get
parse_vless rest = let q = split_query rest in vless_at rest q (index_of 64 q.authority)

abbrev pub trojan_profile : Text → Query → Text → Option (Text × Number) → ParseResult
trojan_profile rest q userinfo none = host_port_error
trojan_profile rest q userinfo (some (host, port)) = parsed (record {
  protocol = codes "trojan";
  endpoint = record (bare_endpoint (or_text q.tag (codes "trojan")) host port) {
    sni = query_get q.params (codes "sni");
    path = query_get q.params (codes "path");
    host = query_get q.params (codes "host");
    password = some (urldecode userinfo);
  };
  raw = codes "trojan://" ++ rest;
})

abbrev pub trojan_at : Text → Query → Option ℕ → ParseResult
trojan_at rest q none = failed (malformed (codes "trojan missing @"))
trojan_at rest q (some at) =
    trojan_profile rest q (take at q.authority) (parse_host_port (drop (suc at) q.authority))

unfoldable pub parse_trojan : Text → ParseResult
unfolding split_query index_of parse_host_port urldecode query_get
parse_trojan rest = let q = split_query rest in trojan_at rest q (index_of 64 q.authority)
