-- ===== src/Hwid.antt =====
-- The machine fingerprint, apps/preview/src/lib/vor/hwid.ts. What the browser answers is an argument.
pub mod Stable
pub mod Normal
use vor.Common.{
  ℕ, zero, suc, ◌+◌, Bool, ◌&&◌, ◌||◌, Option, none, some, List, [], ◌∷◌, ◌++◌, leb, ◌==◌,
  if◌then◌else◌, length, take, drop, all, take_last, Text, codes, trim, to_lower, starts_with, utf8,
  decimal,
}
use vor.Crypto.{Noble, to_hex}

-- The attributes of `navigator`, with what `??` makes of a missing one.
pub record Navigator : Type 0 where
  pub user_agent : Option Text
  pub language : Option Text
  pub hardware_concurrency : Option ℕ
  -- as `String` writes it: it may be a fraction of a gigabyte
  pub device_memory : Option Text

pub record Screen : Type 0 where
  pub width : ℕ
  pub height : ℕ
  pub color_depth : ℕ

pub record Browser : Type 0 where
  pub navigator : Option Navigator
  pub screen : Option Screen
  pub time_zone : Option Text
  -- `String(new Date().getTimezoneOffset())`
  pub timezone_offset : Text
  -- the last 96 characters of the drawing, or `nocanvas`
  pub canvas : Text

abbrev pub or_text : Option Text → Text
or_text none = []
or_text (some t) = t

abbrev pub or_zero : Option ℕ → Text
or_zero none = codes "0"
or_zero (some n) = decimal n

abbrev pub or_zero_text : Option Text → Text
or_zero_text none = codes "0"
or_zero_text (some t) = t

-- The part and the unit separator after it.
abbrev pub feed : Text → List Text → List Text
feed s parts = s ∷ (0x1f ∷ []) ∷ parts

abbrev pub navigator_parts : Option Navigator → List Text → List Text
navigator_parts none rest = rest
navigator_parts (some nav) rest = feed (or_text nav.user_agent) (
    feed (or_text nav.language)
      (feed (or_zero nav.hardware_concurrency) (feed (or_zero_text nav.device_memory) rest)))

abbrev pub screen_parts : Option Screen → List Text → List Text
screen_parts none rest = rest
screen_parts (some s) rest =
    feed (decimal s.width ++ (120 ∷ (decimal s.height ++ (120 ∷ decimal s.color_depth)))) rest

unfoldable pub collect_attributes : Browser → List Text
collect_attributes b = feed (codes "vor.hwid.v2") (
    navigator_parts b.navigator (
      screen_parts b.screen
        (feed (or_text b.time_zone) (feed b.timezone_offset (feed b.canvas [])))))

-- `parts.join('')`
abbrev pub concat : List Text → Text
concat [] = []
concat (t ∷ ts) = t ++ concat ts

abbrev pub is_lower_hex : ℕ → Bool
is_lower_hex c = leb 48 c && leb c 57 || leb 97 c && leb c 102

-- `/^HWID-SHA256-[0-9a-f]{64}$/`
unfoldable pub is_saved_hwid : Text → Bool
unfolding starts_with
is_saved_hwid s =
    starts_with s (codes "HWID-SHA256-") && length (drop 12 s) == 64 && all is_lower_hex (drop 12 s)

abbrev pub hwid_of : Noble → Browser → Text
hwid_of n b = codes "HWID-SHA256-" ++ to_hex n (n.sha256 (utf8 (concat (collect_attributes b))))

-- The HWID and what the storage holds afterwards, if it can be written.
unfoldable pub machine_hwid : Noble → Browser → Option Text → Text × Option Text
unfolding is_saved_hwid
machine_hwid n b none = (hwid_of n b, some (hwid_of n b))
machine_hwid n b (some saved) =
    if is_saved_hwid saved then (saved, some saved) else (hwid_of n b, some (hwid_of n b))

abbrev pub hwid_prefix : Text
hwid_prefix = codes "hwid-sha256-"

-- `replace(/^0x/, '')`
unfoldable pub strip_0x : Text → Text
strip_0x (c ∷ d ∷ s) = if c == 48 && d == 120 then s else c ∷ d ∷ s
strip_0x s = s

-- `normalizeHwid` after the trimming and lower-casing
unfoldable pub prefixed : Text → Text
unfolding strip_0x starts_with
prefixed lower = if starts_with lower hwid_prefix then lower else hwid_prefix ++ strip_0x lower

unfoldable pub normalize_hwid : Text → Text
unfolding prefixed trim to_lower
normalize_hwid s = prefixed (to_lower (trim s))

-- `hex.slice(-tail)`, which is the whole text for 0
abbrev pub slice_end : ℕ → Text → Text
slice_end zero hex = hex
slice_end (suc tail) hex = take_last (suc tail) hex

unfoldable pub hwid_display : Text → ℕ → ℕ → Text
unfolding starts_with
hwid_display hwid head tail =
    let hex = if starts_with hwid (codes "HWID-SHA256-") then drop 12 hwid else hwid in
    if leb (length hex) (head + tail)
    then hwid
    else codes "HWID-SHA256-" ++ (take head hex ++ (0x2026 ∷ slice_end tail hex))
