-- ===== src/Broker/Flights.antt =====
-- `make_request` of app/dex/provider_broker.py as a step relation over the calls that run at a time.
-- A step is a block under the lock. The environment interleaves the calls, reads the clock, requests
-- the stop, and chooses when a wait ends and what `_request_uncached` returns or raises. An event is
-- known by the number of the call that put it into `_inflight`.
use coinoskobi_dexbot.Common.{
  ℕ, ◌+◌, Bool, true, false, ◌≡◌, Option, none, some, [], if◌then◌else◌, ◌⊎◌, nat_eq, nat_Eq,
}
use coinoskobi_dexbot.Common.Dict.{Dict, lookup, insert, erase}
use coinoskobi_dexbot.Common.Text.{Text}
use coinoskobi_dexbot.Provider.Resilience.{Failure}
use coinoskobi_dexbot.Cache.Table.{CacheKey, key_Eq}
use coinoskobi_dexbot.Broker.State.{Response, Broker}
use coinoskobi_dexbot.Broker.Responses.{cache_get, cache_put}
use coinoskobi_dexbot.Broker.Circuits.{candidate_indexes, mark_failure, mark_success}
use coinoskobi_dexbot.Broker.Request.{Outcome, answered, stopping, attempt, ttl_of}

-- Where a call stands: before the cache, before `_inflight`, in `_request_uncached` as the leader
-- and behind it, behind `_cache_put`, in `event.wait`, in `_request_uncached` without a key in
-- flight, or at its end.
pub data Phase : Type 0 where
  probing racing leading asking : Phase
  fetched stored over : Outcome → Phase
  waiting : (event : ℕ) → Phase

pub record Call : Type 0 where
  pub method : Text
  pub key : CacheKey
  pub ttl : ℕ
  pub phase : Phase

pub record Flights : Type 0 where
  pub broker : Broker
  pub stop_event : Bool
  pub inflight : Dict CacheKey ℕ
  pub calls : Dict ℕ Call

abbrev pub moved : ℕ → Call → Phase → Flights → Flights
moved t c phase s = record s { calls = insert t (record c { phase = phase }) s.calls }

abbrev pub first_phase : ℕ → Phase
first_phase ttl = if nat_eq ttl 0 then asking else probing

-- The beginning, to the test of the TTL.
unfoldable pub begin : ℕ → Text → CacheKey → Flights → Flights
begin t method key s =
    let ttl = ttl_of method s.broker in
    let c : Call = record { method = method; key = key; ttl = ttl; phase = first_phase ttl } in
    if s.stop_event
    then moved t c (over stopping) s
    else moved t c (first_phase ttl)
        (record s { broker = record s.broker { request_count = s.broker.request_count + 1 } })

abbrev pub after_get : Phase → Option Response → Phase
after_get phase none = phase
after_get phase (some response) = over (answered response)

-- A read of the cache, and the phase after a miss.
unfoldable pub read_cache : Phase → ℕ → ℕ → Call → Flights → Flights
unfolding cache_get
read_cache missed now t c s =
    let (b, cached) = cache_get c.key now s.broker in
    moved t c (after_get missed cached) (record s { broker = b })

-- The block that makes the call the leader or lets it wait.
unfoldable pub join : ℕ → Call → Flights → Flights
join t c s = elim (lookup c.key s.inflight) [
  | none ↦ moved t c leading (record s { inflight = insert c.key t s.inflight })
  | some event ↦ moved t c (waiting event) (record s {
    broker = record s.broker { coalesced_wait_count = s.broker.coalesced_wait_count + 1 };
  })
]

-- The blocks of `_request_uncached`.
pub data Section : (Broker → Broker) → Type 0 where
  candidates : (method : Text) (now : ℕ) → Section (λ b. (candidate_indexes method now b).0)
  attempted : (index : ℕ) → Section (attempt index)
  failing : (index : ℕ) (failure : Failure) (now : ℕ) → Section (mark_failure index failure now)
  succeeding : (index : ℕ) → Section (mark_success index)
  failing_over : Section (λ b. record b { failover_count = b.failover_count + 1 })

-- `_cache_put` of the leader, which an exception skips.
unfoldable pub store : ℕ → Outcome → ℕ → Call → Flights → Flights
unfolding cache_put
store now (answered response) t c s =
    moved t c (stored (answered response))
      (record s { broker = cache_put c.key response c.ttl now s.broker })
store now outcome t c s = moved t c (stored outcome) s

-- The `finally` block.
unfoldable pub land : Outcome → ℕ → Call → Flights → Flights
land outcome t c s = moved t c (over outcome) (record s { inflight = erase c.key s.inflight })

-- One step, the first of a call or the next of the call `t`.
pub data Step : Flights → Flights → Type 0 where
  stopped : (s : Flights) → Step s (record s { stop_event = true })
  begun :
      (s : Flights) (t : ℕ) (method : Text) (key : CacheKey)
      → lookup t s.calls ≡ none
      → Step s (begin t method key s)
  probed :
      (s : Flights) (t : ℕ) (c : Call) (now : ℕ)
      → lookup t s.calls ≡ some c
      → c.phase ≡ probing
      → Step s (read_cache racing now t c s)
  joined :
      (s : Flights) (t : ℕ) (c : Call)
      → lookup t s.calls ≡ some c
      → c.phase ≡ racing
      → Step s (join t c s)
  woken :
      (s : Flights) (t : ℕ) (c : Call) (event now : ℕ)
      → lookup t s.calls ≡ some c
      → c.phase ≡ waiting event
      → Step s (read_cache asking now t c s)
  works :
      (s : Flights) (t : ℕ) (c : Call) (f : Broker → Broker)
      → lookup t s.calls ≡ some c
      → (c.phase ≡ leading) ⊎ (c.phase ≡ asking)
      → Section f
      → Step s (record s { broker = f s.broker })
  led :
      (s : Flights) (t : ℕ) (c : Call) (outcome : Outcome)
      → lookup t s.calls ≡ some c
      → c.phase ≡ leading
      → Step s (moved t c (fetched outcome) s)
  asked :
      (s : Flights) (t : ℕ) (c : Call) (outcome : Outcome)
      → lookup t s.calls ≡ some c
      → c.phase ≡ asking
      → Step s (moved t c (over outcome) s)
  kept :
      (s : Flights) (t : ℕ) (c : Call) (outcome : Outcome) (now : ℕ)
      → lookup t s.calls ≡ some c
      → c.phase ≡ fetched outcome
      → Step s (store now outcome t c s)
  landed :
      (s : Flights) (t : ℕ) (c : Call) (outcome : Outcome)
      → lookup t s.calls ≡ some c
      → c.phase ≡ stored outcome
      → Step s (land outcome t c s)

pub data Run (s : Flights) : Flights → Type 0 where
  here : Run s s
  then_step : {u v : Flights} → Run s u → Step u v → Run s v

unfoldable pub new_flights : Broker → Flights
new_flights b = record { broker = b; stop_event = false; inflight = []; calls = [] }
