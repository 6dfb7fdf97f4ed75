-- ===== src/Broker/State.antt =====
-- The state of `ProviderBrokerHTTPProvider` of app/dex/provider_broker.py, and its construction.
-- The clock's readings are ticks, a hundred a second; the settings of the rests are whole seconds.
use coinoskobi_dexbot.Common.{
  ℕ, max, Bool, true, false, not, ◌&&◌, Option, none, List, [], ◌∷◌, ◌++◌, if◌then◌else◌, nat_eq,
  length,
}
use coinoskobi_dexbot.Common.Int.{ℤ, pos, pos_part}
use coinoskobi_dexbot.Common.Dict.{Dict, insert}
use coinoskobi_dexbot.Common.Text.{Text, text_Eq, codes, text_eq, strip}
use coinoskobi_dexbot.Row.{nonempty}
use coinoskobi_dexbot.Provider.Resilience.{Failure, unknown, other}
use coinoskobi_dexbot.Cache.Table.{CacheKey}

pub data Role : Type 0 where
  primary secondary tertiary quaternary : Role

-- `ROLES`
abbrev pub roles : List Role
roles = primary ∷ secondary ∷ tertiary ∷ quaternary ∷ []

abbrev pub ticks_per_second : ℕ
ticks_per_second = 100

-- `in PROVIDER_FAILURES`
abbrev pub is_provider_failure : Failure → Bool
is_provider_failure unknown = false
is_provider_failure other = false
is_provider_failure _ = true

-- `CACHE_TTLS`, in ticks.
abbrev pub default_ttls : Dict Text ℤ
default_ttls =
    (codes "eth_chainId", pos 30000)
    ∷ (codes "net_version", pos 30000)
    ∷ (codes "web3_clientVersion", pos 30000)
    ∷ (codes "eth_getCode", pos 100)
    ∷ (codes "eth_call", pos 10)
    ∷ []

abbrev pub max_cache_entries : ℕ
max_cache_entries = 1024

abbrev pub text_in : Text → List Text → Bool
text_in s [] = false
text_in s (x ∷ xs) = if text_eq s x then true else text_in s xs

-- `HEAVY_METHODS`
abbrev pub heavy_methods : List Text
heavy_methods =
    codes "eth_call"
    ∷ codes "eth_getCode"
    ∷ codes "eth_getLogs"
    ∷ codes "eth_getBlockByNumber"
    ∷ codes "eth_getTransactionByHash"
    ∷ codes "eth_getTransactionReceipt"
    ∷ []

-- The loop of `_unique_urls`, over the texts of the values, with the list so far.
unfoldable pub unique_from : List Text → List Text → List Text
unfolding strip
unique_from result [] = result
unique_from result (value ∷ values) =
    let url = strip value in
    let result' = if nonempty url && not (text_in url result) then result ++ url ∷ [] else result in
    let rest = unique_from result' values in
    if nat_eq (length result') (length roles) then result' else rest

-- `_unique_urls`
unfoldable pub unique_urls : List Text → List Text
unfolding unique_from
unique_urls values = unique_from [] values

-- What a provider returns: an error under the key `error`, as its text, and what else there is.
pub data Response : Type 0 where
  reply : (error : Option Text) (result : Option Text) → Response
  not_a_dict : Text → Response

-- An entry of `_providers`; the client is its URL.
pub record Item : Type 0 where
  pub role : Role
  pub client : Text
  pub requests : ℕ
  pub successes : ℕ
  pub failures : ℕ
  pub circuit_opens : ℕ
  pub circuit_skips : ℕ
  pub last_failure : Option Failure
  pub cooldown_until : ℕ

pub record Broker : Type 0 where
  pub cooldown_seconds : ℕ
  pub transient_cooldown_seconds : ℕ
  pub cache_ttls : Dict Text ℤ
  pub cache : Dict CacheKey (ℕ × Response)
  pub heavy_cursor : ℕ
  pub providers : List Item
  pub request_count : ℕ
  pub provider_attempt_count : ℕ
  pub failover_count : ℕ
  pub cache_hit_count : ℕ
  pub coalesced_wait_count : ℕ
  pub circuit_open_reject_count : ℕ
  pub last_provider : Option Role

abbrev pub new_item : Role → Text → Item
new_item role url = record {
  role = role;
  client = url;
  requests = 0;
  successes = 0;
  failures = 0;
  circuit_opens = 0;
  circuit_skips = 0;
  last_failure = none;
  cooldown_until = 0;
}

-- The loop of `__init__`, over the roles that are left.
unfoldable pub new_items : List Role → List Text → List Item
new_items (role ∷ rest) (url ∷ urls) = new_item role url ∷ new_items rest urls
new_items [] urls = []
new_items (role ∷ rest) [] = []

-- `dict.update`
unfoldable pub updated : Dict Text ℤ → Dict Text ℤ → Dict Text ℤ
updated d [] = d
updated d ((method, ttl) ∷ more) = updated (insert method ttl d) more

-- `__init__`
unfoldable pub new_broker : List Text → ℤ → ℤ → Dict Text ℤ → Broker
unfolding unique_urls new_items updated
new_broker urls cooldown_seconds transient_cooldown_seconds cache_ttls = record {
  cooldown_seconds = max 1 (pos_part cooldown_seconds);
  transient_cooldown_seconds = max 1 (pos_part transient_cooldown_seconds);
  cache_ttls = updated default_ttls cache_ttls;
  cache = [];
  heavy_cursor = 0;
  providers = new_items roles (unique_urls urls);
  request_count = 0;
  provider_attempt_count = 0;
  failover_count = 0;
  cache_hit_count = 0;
  coalesced_wait_count = 0;
  circuit_open_reject_count = 0;
  last_provider = none;
}
