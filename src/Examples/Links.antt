-- ===== src/Examples/Links.antt =====
-- The share-link theorem at a concrete link, and runs of the parser.
use vor.Settings.{SettingsState, profile_of, activate}
use vor.Settings.Imported.{activate-imported}
use vor.Examples.Engines.{empty_world}
use vor.Common.{
  starts_with, true, ◌⊎◌, ℕ, ◌≤◌, ◌≡◌, refl, none, some, Any, inl, inr, ◌++◌, [], ◌∷◌, Text, codes,
  trim, nat, nan,
}
use vor.Subscription.{
  ParsedProfile, ParseResult, parsed, failed, throws, bare_endpoint, unsupported_scheme, malformed,
}
use vor.Subscription.Links.{parse_link, parse_subscription, compose_share_link}
use vor.Subscription.Links.Accepted.{parse_link-accepted}

abbrev profile_or : ParseResult → ParsedProfile
profile_or (parsed p) = p
profile_or _ = record { protocol = []; endpoint = bare_endpoint [] [] nan; raw = [] }

abbrev link : Text
link = codes " vless://id@[::1]:443?sni=a%C3%A9+b&type=ws#home "

abbrev profile : ParsedProfile
profile = profile_or (parse_link link)

link_parses : parse_link link ≡ parsed profile
unfolding parse_link
link_parses = refl

profile_fields :
    (profile.endpoint.port ≡ nat 443)
    × (profile.endpoint.address ≡ codes "::1")
    × (profile.endpoint.sni ≡ some (97 ∷ 233 ∷ codes " b"))
    × (profile.endpoint.net ≡ some (codes "ws"))
    × (profile.endpoint.tag ≡ codes "home")
unfolding parse_link
profile_fields = (refl, refl, refl, refl, refl)

parse_link-accepted_example :
    (compose_share_link profile ≡ trim link)
    × ((starts_with (trim link) (codes "vmess://") ≡ true)
        ⊎ ((k : ℕ) × (nat 443 ≡ nat k) × (1 ≤ k) × (k ≤ 65535)))
unfolding parse_link
parse_link-accepted_example = parse_link-accepted link profile link_parses

-- A vmess link whose document is `null` throws.
null_document_throws : parse_link (codes "vmess://bnVsbA==") ≡ throws
unfolding parse_link
null_document_throws = refl

-- The port of a link is read up to the first character that is no digit.
port_out_of_range :
    parse_link (codes "trojan://pw@host:65536") ≡ failed (malformed (codes "host:port"))
unfolding parse_link
port_out_of_range = refl

list_of_links :
    parse_subscription (codes "ss://x\n\nfoo://y")
    ≡ failed (malformed (codes "base64")) ∷ failed (unsupported_scheme (codes "foo")) ∷ []
unfolding parse_subscription parse_link
list_of_links = refl

abbrev list_text : Text
list_text = codes "foo://y\n" ++ link

abbrev no_settings : SettingsState
no_settings = record { results = none; active = none }

link_listed : Any (λ r. r ≡ parsed profile) (parse_subscription list_text)
unfolding parse_subscription parse_link
link_listed = inr (inl refl)

activate-imported_example :
    (activate 5 profile.raw (no_settings, empty_world)).0.active
    ≡ some (profile_of profile profile.raw)
activate-imported_example =
    activate-imported profile 5 list_text (no_settings, empty_world) link_listed
