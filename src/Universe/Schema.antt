-- ===== src/Universe/Schema.antt =====
-- The canonical forms of app/universe/schema.py; `none` is a `ValueError`.
use coinoskobi_dexbot.Common.{
  Bool, true, false, ◌&&◌, ◌||◌, Option, none, some, [], ◌∷◌, if◌then◌else◌, leb, nat_eq, length,
}
use coinoskobi_dexbot.Common.Text.{Text, codes, text_eq, lower, upper, strip}
use coinoskobi_dexbot.Universe.Registry.{Branch, new, existing}
use coinoskobi_dexbot.Universe.Selection.{dex_v2, dex_v3}

-- `[0-9a-f]`
unfoldable pub all_hex : Text → Bool
all_hex [] = true
all_hex (c ∷ cs) = (leb 48 c && leb c 57 || leb 97 c && leb c 102) && all_hex cs

-- `_EVM_ADDRESS.fullmatch`
unfoldable pub is_address : Text → Bool
unfolding all_hex
is_address (first ∷ x ∷ digits) =
    nat_eq first 48 && nat_eq x 120 && nat_eq (length digits) 40 && all_hex digits
is_address (first ∷ []) = false
is_address [] = false

unfoldable pub canonical_address : Text → Option Text
unfolding is_address
canonical_address value =
    let address = lower (strip value) in if is_address address then some address else none

-- `canonical_address(value, required=False)`
unfoldable pub optional_address : Text → Option (Option Text)
unfolding is_address
optional_address value =
    let address = lower (strip value) in
    if nat_eq (length address) 0
    then some none
    else (if is_address address then some (some address) else none)

unfoldable pub canonical_chain : Text → Option Text
canonical_chain value =
    let chain = lower (strip value) in if text_eq chain (codes "bsc") then some chain else none

unfoldable pub canonical_dex : Text → Option Text
canonical_dex value =
    let dex = lower (strip value) in
    if text_eq dex dex_v2 || text_eq dex dex_v3 || text_eq dex (codes "uniswap_v3")
    then some dex
    else none

unfoldable pub canonical_discovery_branch : Text → Option Branch
canonical_discovery_branch value =
    let branch = upper (strip value) in
    if text_eq branch (codes "EXISTING")
    then some existing
    else (if text_eq branch (codes "NEW") then some new else none)
