-- ===== src/Inventory/Vendors.antt =====
-- utils/network.py: `normalize_mac` and `mac_to_vendor`.
use Prim.Native.Char.{code}
use Prim.Native.String.{[], ◌∷◌, ◌++◌, count}
use sentinel_pi.Prelude.{
  ℕ, zero, suc, String, Bool, ◌&&◌, ◌||◌, none, some, leb, ◌==◌, string_key, if◌then◌else◌,
}
use sentinel_pi.Prelude.Dict.{get}
use sentinel_pi.Text.{lower}
use sentinel_pi.Inventory.Prefixes.{oui_prefixes}

abbrev is_hex : ℕ → Bool
is_hex c = (leb b'0' c && leb c b'9') || (leb b'a' c && leb c b'f') || (leb b'A' c && leb c b'F')

-- `re.sub(r"[^0-9a-fA-F]", "", mac)`
hex_only : String → String
hex_only [] = []
hex_only (c ∷ s) = if is_hex (code c) then c ∷ hex_only s else hex_only s

-- The digits in pairs, with a colon between.
pairs : String → String
pairs (a ∷ b ∷ c ∷ s) = a ∷ b ∷ ":" ++ pairs (c ∷ s)
pairs s = s

unfoldable pub normalize_mac : String → String
unfolding hex_only pairs
normalize_mac mac =
    let raw = hex_only mac in if count raw == 12 then lower (pairs raw) else lower mac

-- `s[:n]`
first_chars : ℕ → String → String
first_chars zero s = []
first_chars (suc n) [] = []
first_chars (suc n) (c ∷ s) = c ∷ first_chars n s

unfoldable pub mac_to_vendor : String → String
unfolding normalize_mac first_chars oui_prefixes
mac_to_vendor mac = elim (get (first_chars 8 (normalize_mac mac)) oui_prefixes) [
  | none ↦ ""
  | some vendor ↦ vendor
]
