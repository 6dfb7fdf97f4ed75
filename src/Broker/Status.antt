-- ===== src/Broker/Status.antt =====
-- `status` of `ProviderBrokerHTTPProvider`, app/dex/provider_broker.py. The flags that are always
-- false are left out.
use coinoskobi_dexbot.Common.{ℕ, Bool, Option, List, map, length, if◌then◌else◌, nat_eq}
use coinoskobi_dexbot.Common.Text.{Text, codes}
use coinoskobi_dexbot.Provider.Resilience.{Failure}
use coinoskobi_dexbot.Broker.State.{Role, Item, Broker}
use coinoskobi_dexbot.Broker.Circuits.{is_open}

pub record ItemView : Type 0 where
  pub role : Role
  pub requests : ℕ
  pub successes : ℕ
  pub failures : ℕ
  pub circuit_opens : ℕ
  pub circuit_skips : ℕ
  pub circuit_open : Bool
  pub last_failure : Option Failure

pub record StatusView : Type 0 where
  pub state : Text
  pub provider_count : ℕ
  pub last_provider : Option Role
  pub request_count : ℕ
  pub provider_attempt_count : ℕ
  pub failover_count : ℕ
  pub cache_hit_count : ℕ
  pub coalesced_wait_count : ℕ
  pub circuit_open_reject_count : ℕ
  pub providers : List ItemView

abbrev pub item_view : ℕ → Item → ItemView
item_view now item = record {
  role = item.role;
  requests = item.requests;
  successes = item.successes;
  failures = item.failures;
  circuit_opens = item.circuit_opens;
  circuit_skips = item.circuit_skips;
  circuit_open = is_open now item;
  last_failure = item.last_failure;
}

unfoldable pub status : ℕ → Broker → StatusView
status now b = record {
  state = if nat_eq (length b.providers) 0 then codes "UNCONFIGURED" else codes "READY";
  provider_count = length b.providers;
  last_provider = b.last_provider;
  request_count = b.request_count;
  provider_attempt_count = b.provider_attempt_count;
  failover_count = b.failover_count;
  cache_hit_count = b.cache_hit_count;
  coalesced_wait_count = b.coalesced_wait_count;
  circuit_open_reject_count = b.circuit_open_reject_count;
  providers = map (item_view now) b.providers;
}
