-- ===== src/Broker/Circuits.antt =====
-- `_candidate_indexes`, `_mark_failure` and `_mark_success` of app/dex/provider_broker.py.
use coinoskobi_dexbot.Common.{
  ℕ, zero, suc, ◌+◌, ◌*◌, ◌%◌, max, Bool, not, ◌||◌, none, some, List, [], ◌∷◌, ◌++◌, if◌then◌else◌,
  ltb, nat_eq, length, take, drop,
}
use coinoskobi_dexbot.Common.Int.{pos}
use coinoskobi_dexbot.Common.Text.{Text}
use coinoskobi_dexbot.Provider.Resilience.{Failure, name_of, provider_cooldown_seconds}
use coinoskobi_dexbot.Broker.State.{Item, Broker, heavy_methods, text_in, ticks_per_second}

-- `item["cooldown_until"] > now`
abbrev pub is_open : ℕ → Item → Bool
is_open now item = ltb now item.cooldown_until

-- The loop over the providers, from an index on: the skips are counted, the others listed.
unfoldable pub counted_skips : ℕ → List Item → List Item
counted_skips now [] = []
counted_skips now (item ∷ items) =
    (if is_open now item then record item { circuit_skips = item.circuit_skips + 1 } else item)
    ∷ counted_skips now items

unfoldable pub healthy_from : ℕ → ℕ → List Item → List ℕ
healthy_from index now [] = []
healthy_from index now (item ∷ items) =
    let rest = healthy_from (suc index) now items in if is_open now item then rest else index ∷ rest

-- `healthy[start:] + healthy[:start]`
abbrev pub rotated : ℕ → List ℕ → List ℕ
rotated start healthy = drop start healthy ++ take start healthy

-- The end of `_candidate_indexes`, with the healthy indexes. The length is not 0 where the cursor is
-- divided by it.
unfoldable pub ordered_healthy : Text → List ℕ → Broker → Broker × List ℕ
ordered_healthy method healthy b =
    if nat_eq (length healthy) 0
    then (record b { circuit_open_reject_count = b.circuit_open_reject_count + 1 }, [])
    else if not (text_in method heavy_methods) || nat_eq (length healthy) 1
    then (b, healthy)
    else (
      record b { heavy_cursor = b.heavy_cursor + 1 },
      rotated (b.heavy_cursor % length healthy) healthy,
    )

-- `_candidate_indexes`
unfoldable pub candidate_indexes : Text → ℕ → Broker → Broker × List ℕ
unfolding counted_skips healthy_from ordered_healthy
candidate_indexes method now b =
    ordered_healthy method (healthy_from 0 now b.providers)
      (record b { providers = counted_skips now b.providers })

-- A change of the provider under an index.
unfoldable pub change_at : ℕ → (Item → Item) → List Item → List Item
change_at index f [] = []
change_at zero f (item ∷ items) = f item ∷ items
change_at (suc index) f (item ∷ items) = item ∷ change_at index f items

unfoldable pub failed_item : Failure → ℕ → ℕ → Item → Item
failed_item failure cooldown now item =
    let counted = record item { failures = item.failures + 1; last_failure = some failure } in
    if ltb 0 cooldown
    then record counted {
      cooldown_until = max item.cooldown_until (now + cooldown * ticks_per_second);
      circuit_opens = item.circuit_opens + 1;
    }
    else counted

-- `_mark_failure`
unfoldable pub mark_failure : ℕ → Failure → ℕ → Broker → Broker
unfolding change_at failed_item
mark_failure index failure now b =
    let cooldown =
      provider_cooldown_seconds (name_of failure) (pos b.cooldown_seconds)
        (pos b.transient_cooldown_seconds) in
    record b { providers = change_at index (failed_item failure cooldown now) b.providers }

abbrev pub succeeded_item : Item → Item
succeeded_item item = record item {
  successes = item.successes + 1;
  last_failure = none;
  cooldown_until = 0;
}

-- `_mark_success`
unfoldable pub mark_success : ℕ → Broker → Broker
unfolding change_at
mark_success index b = record b { providers = change_at index succeeded_item b.providers }
