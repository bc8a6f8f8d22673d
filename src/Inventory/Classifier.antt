-- ===== src/Inventory/Classifier.antt =====
-- inventory/device_classifier.py: the type of a device from its name and vendor. A confidence is in
-- hundredths.
use sentinel_pi.Prelude.{
  ℕ, String, Bool, Option, none, some, List, [], ◌∷◌, eqb, string_key, if◌then◌else◌,
}
use sentinel_pi.Text.{lower, contains}

-- The rationale is left out.
pub record Classification : Type 0 where
  pub device_type : String
  pub confidence : ℕ

-- `_HOSTNAME_RULES`
unfoldable pub hostname_rules : List (String × String)
hostname_rules =
    ("iphone", "phone")
    ∷ ("ipad", "phone")
    ∷ ("android", "phone")
    ∷ ("pixel", "phone")
    ∷ ("galaxy", "phone")
    ∷ ("oneplus", "phone")
    ∷ ("macbook", "computer")
    ∷ ("imac", "computer")
    ∷ ("-mbp", "computer")
    ∷ ("desktop", "computer")
    ∷ ("laptop", "computer")
    ∷ ("thinkpad", "computer")
    ∷ ("printer", "printer")
    ∷ ("officejet", "printer")
    ∷ ("laserjet", "printer")
    ∷ ("ipcam", "camera")
    ∷ ("camera", "camera")
    ∷ ("doorbell", "camera")
    ∷ ("synology", "nas")
    ∷ ("diskstation", "nas")
    ∷ ("qnap", "nas")
    ∷ ("truenas", "nas")
    ∷ ("nas", "nas")
    ∷ ("echo", "voice_assistant")
    ∷ ("alexa", "voice_assistant")
    ∷ ("homepod", "voice_assistant")
    ∷ ("chromecast", "media_streamer")
    ∷ ("roku", "media_streamer")
    ∷ ("appletv", "media_streamer")
    ∷ ("apple-tv", "media_streamer")
    ∷ ("firetv", "media_streamer")
    ∷ ("shield", "media_streamer")
    ∷ ("xbox", "game_console")
    ∷ ("playstation", "game_console")
    ∷ ("ps4", "game_console")
    ∷ ("ps5", "game_console")
    ∷ ("nintendo", "game_console")
    ∷ ("raspberrypi", "single_board_computer")
    ∷ ("raspberry", "single_board_computer")
    ∷ ("rpi", "single_board_computer")
    ∷ ("router", "router")
    ∷ ("gateway", "router")
    ∷ ("openwrt", "router")
    ∷ ("tv", "tv")
    ∷ ("bravia", "tv")
    ∷ []

-- `_VENDOR_RULES`
unfoldable pub vendor_rules : List (String × String × ℕ)
vendor_rules =
    ("hikvision", "camera", 90)
    ∷ ("dahua", "camera", 90)
    ∷ ("axis communications", "camera", 90)
    ∷ ("reolink", "camera", 90)
    ∷ ("amcrest", "camera", 90)
    ∷ ("wyze", "camera", 80)
    ∷ ("canon", "printer", 70)
    ∷ ("epson", "printer", 70)
    ∷ ("brother", "printer", 80)
    ∷ ("lexmark", "printer", 85)
    ∷ ("xerox", "printer", 85)
    ∷ ("synology", "nas", 90)
    ∷ ("qnap", "nas", 90)
    ∷ ("western digital", "nas", 60)
    ∷ ("ubiquiti", "router", 70)
    ∷ ("netgear", "router", 60)
    ∷ ("tp-link", "router", 50)
    ∷ ("d-link", "router", 50)
    ∷ ("mikrotik", "router", 80)
    ∷ ("aruba", "router", 70)
    ∷ ("cisco", "router", 60)
    ∷ ("juniper", "router", 70)
    ∷ ("sonos", "voice_assistant", 70)
    ∷ ("roku", "media_streamer", 90)
    ∷ ("vizio", "tv", 80)
    ∷ ("lg electronics", "tv", 50)
    ∷ ("nintendo", "game_console", 90)
    ∷ ("sony interactive", "game_console", 90)
    ∷ ("raspberry pi", "single_board_computer", 90)
    ∷ ("espressif", "iot", 80)
    ∷ ("tuya", "iot", 85)
    ∷ ("shelly", "iot", 85)
    ∷ ("sonoff", "iot", 85)
    ∷ ("signify", "iot", 70)
    ∷ ("philips lighting", "iot", 70)
    ∷ ("ring", "camera", 70)
    ∷ ("nest", "iot", 60)
    ∷ ("amazon", "iot", 50)
    ∷ ("apple", "apple_device", 50)
    ∷ ("samsung", "phone", 35)
    ∷ ("google", "phone", 35)
    ∷ ("xiaomi", "phone", 40)
    ∷ ("huawei", "phone", 40)
    ∷ ("intel", "computer", 40)
    ∷ ("dell", "computer", 50)
    ∷ ("hewlett", "computer", 35)
    ∷ []

unfoldable pub match_hostname : List (String × String) → String → Option Classification
match_hostname [] host = none
match_hostname ((needle, dtype) ∷ rules) host =
    let rest = match_hostname rules host in
    if contains needle host then some (record { device_type = dtype; confidence = 85 }) else rest

unfoldable pub match_vendor : List (String × String × ℕ) → String → Option Classification
match_vendor [] vendor = none
match_vendor ((needle, dtype, conf) ∷ rules) vendor =
    let rest = match_vendor rules vendor in
    if contains needle vendor
    then some (record { device_type = dtype; confidence = conf })
    else rest

by_vendor : String → Classification
unfolding match_vendor vendor_rules
by_vendor vendor =
    let unknown : Classification = record { device_type = "unknown"; confidence = 0 } in
    if eqb vendor ""
    then unknown
    else elim (match_vendor vendor_rules (lower vendor)) [ none ↦ unknown | some c ↦ c ]

-- `classify_device`. It does not look at the MAC address.
unfoldable pub classify_device : String → String → Bool → Classification
unfolding match_hostname hostname_rules by_vendor
classify_device vendor hostname is_gateway =
    if is_gateway
    then record { device_type = "router"; confidence = 95 }
    else if eqb hostname ""
    then by_vendor vendor
    else elim (match_hostname hostname_rules (lower hostname)) [
      | none ↦ by_vendor vendor
      | some c ↦ c
    ]
