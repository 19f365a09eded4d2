-- ===== src/Lib.antt =====
-- Vor, the web client of a VPN with offline licences and its licence manager: the engine in
-- apps/preview/src/lib/vor and the views in apps/preview/src/components/vor.
--
-- The parts, bottom up. Canonical (canonical.ts) is the byte form of JSON that is signed and
-- hashed: escape_json_string, canonical_json, and in Canonical/Parse the language's JSON.parse
-- as parse_json (its literals in Canonical/Parse/Literals); Canonical/Reads and
-- Canonical/RoundTrip read what canonical_json writes, where normal is the value with its
-- members in the order of the keys. Crypto (crypto.ts) has hex, base64 (b64url_encode,
-- b64url_decode, b64_decode_forgiving) and UUIDs; the packages @noble/ed25519 and @noble/hashes
-- are the record Noble, an argument of everything that signs or hashes. Hwid (hwid.ts) is the
-- device fingerprint (machine_hwid, normalize_hwid), Audit (audit.ts) the hash-chained log
-- (append_audit, verify_audit_chain).
--
-- License (license.ts) is the envelope codec (envelope_encode, envelope_decode), License/Schema
-- the function validateSchema as validate_schema, License/Payload the parser and writer of
-- payloads, and License/Errors the typed errors: Result holds a value, a LicenseError's code, or
-- another exception. Keystore (keystore.ts) has key generation, rotation and trust,
-- Keystore/Issue issueLicense and buildPayload, Keystore/Verify verifyLicense with its nine
-- checks in the order of the source. A Record<string, T> is the list of its entries
-- (Keystore/Dictionary).
--
-- Tunnel (tunnel.ts) has the transport ladder, the scoring of endpoints (Tunnel/Scoring), the
-- backoff and the telemetry step (Tunnel/Telemetry). Dpi (dpi.ts) has the clamp of the features,
-- the inference (Dpi/Model), the plans (Dpi/Plans) and the scenario trajectories (Dpi/Features).
--
-- Subscription (subscription.ts) is the share-link parser: parse_vless and parse_trojan, in
-- Subscription/Links parse_vmess, parse_ss, parse_link and parse_subscription, and in
-- Subscription/Uri the language's decodeURIComponent and parseInt.
--
-- Store (store.ts) is the state that the views share. World holds the store, the module's
-- connectToken and the browser's storage; each action is a function from World to World
-- (Store/License, Store/Actions), and the 1 Hz loop is Store/Engine. An asynchronous connection
-- run is cut at its waits: a Phase says where it waits and resume goes on from there, or stops
-- if its token is stale (Store/Connect). Store/Boot is boot, cut at its waits for the model and
-- for the saved licence. Store/System is the step relation in which actions, timers, the steps
-- of boot (Store/System/Booting), changes of the storage and resumptions of any run come in any
-- order. Store/System/Tunes says what they do to the tunnel, and Store/System/Shown compares its
-- state with the phase of the live run.
--
-- The views are their handlers, over the same World. Shell (VorShell.tsx) decides the screen
-- that is drawn and unlocks the manager. Gate (LicenseGate.tsx) checks a pasted or loaded
-- licence and has the demos. Settings (SettingsTab.tsx) imports a subscription and activates a
-- link. Tabs has the handlers of TunnelTab.tsx, DiagnosticsTab.tsx and DefenseTab.tsx. Manager
-- (ManagerView.tsx) is the console: the type Desk holds its React state and the page's World,
-- Manager/Operations its handlers, Manager/Form the form that issues, Manager/Session the step
-- relation of a session, in which the page may also be loaded anew or all data be reset. A
-- handler reads the clock once, but bindHwid twice. React runs the updater of pushAudit at once
-- or at the next render; where the handler reloads right after it, the argument eager of the
-- step says which. A write to the storage succeeds: what lsSet does with a full or forbidden
-- storage is not modelled.
--
-- A text is the list of its UTF-16 units (Common/Strings), utf8 and decode_fatal are TextEncoder
-- and the fatal TextDecoder (Common/Utf8). A number of JSON is an integer or NaN
-- (Common/Numbers): a literal with a fraction or an exponent is outside the model, whose parser
-- refuses it, so a vmess document with a fractional port, which the code accepts, is refused
-- too. Integers are exact and written digit by digit, as JavaScript has them up to 2^53; beyond
-- that its numbers round, and from 1e21 on it writes an exponent. A parsed object keeps the
-- order of its text, where JavaScript puts keys that are array indices first. The duration of
-- the form is read as Math.round(days * 86_400), whatever the fraction of a day. Doubles of the
-- engine are a parameter, the record Floats, with the laws of comparison in OrderLaws
-- (Common/Doubles). Random draws and the clock are arguments.
--
-- Most loops are structural. The padding loop of b64url_decode has fuel 4 and needs at most 3
-- rounds. The writer of decimal digits has one more than the number as its fuel, and the JSON
-- parser more than twice the length of the text: each round that nests or goes on to a next
-- element reads a unit at least. The runs need no fuel: resume_all-finished bounds their phases.
--
-- The theorem on issued licences takes what the packages of noble document as the record IsNoble
-- (Keystore/Issue/Verifies); Examples/Issued fills it with a toy implementation.
--
-- Not modelled: markup, statistics, downloads and QR codes of the views, the translations, the
-- drawing of the canvas and of the charts, fetching of the model, the texts of events and
-- errors, and the parts in other languages (Rust core, Flutter apps, OpenWrt package).
--
-- Examples has the parameters of the tests; Examples/Licenses, Examples/Issued,
-- Examples/Envelopes, Examples/Engines, Examples/Systems, Examples/Device, Examples/Links,
-- Examples/Manager and Examples/Gates apply the theorems.
pub mod Audit
pub mod Canonical
pub mod Common
pub mod Crypto
pub mod Dpi
pub mod Examples
pub mod Gate
pub mod Hwid
pub mod Keystore
pub mod License
pub mod Manager
pub mod Settings
pub mod Shell
pub mod Store
pub mod Subscription
pub mod Tabs
pub mod Tunnel
