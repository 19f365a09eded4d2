-- ===== src/Examples/Device.antt =====
-- The stability of the HWID at a concrete browser.
use vor.Common.{◌≡◌, refl, true, none, some, codes, replicate}
use vor.Crypto.{Noble}
use vor.Examples.{toy_noble}
use vor.Hwid.{Browser, is_saved_hwid, machine_hwid}
use vor.Hwid.Stable.{WritesDigests, machine_hwid-stable}

-- Every digest is written as 64 letters a.
abbrev hex_noble : Noble
hex_noble = record toy_noble { bytes_to_hex = λ b. replicate 64 97 }

hex_noble-WritesDigests : WritesDigests hex_noble
hex_noble-WritesDigests = λ message. (refl, refl)

abbrev pub browser : Browser
browser = record {
  navigator = none;
  screen = none;
  time_zone = some (codes "Asia/Tehran");
  timezone_offset = codes "-210";
  canvas = codes "nocanvas";
}

abbrev moved : Browser
moved = record browser { time_zone = some (codes "Europe/Berlin"); timezone_offset = codes "-60" }

machine_hwid-stable_example :
    (is_saved_hwid (machine_hwid hex_noble browser (some (codes "old"))).0 ≡ true)
    × (machine_hwid hex_noble moved (machine_hwid hex_noble browser (some (codes "old"))).1
        ≡ machine_hwid hex_noble browser (some (codes "old")))
machine_hwid-stable_example =
    machine_hwid-stable hex_noble browser moved (some (codes "old")) hex_noble-WritesDigests
