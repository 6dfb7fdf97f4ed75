-- ===== src/Broker/Request.antt =====
-- `_request_uncached` and `make_request` of app/dex/provider_broker.py. What each provider answers
-- is the environment's, and whether a stop is requested before the attempt under a position.
use coinoskobi_dexbot.Common.{
  ℕ, zero, suc, ◌+◌, Bool, Option, none, some, List, [], ◌∷◌, if◌then◌else◌, length, nat_eq,
}
use coinoskobi_dexbot.Common.Int.{pos, pos_part}
use coinoskobi_dexbot.Common.Dict.{get_or}
use coinoskobi_dexbot.Common.Text.{Text, text_Eq}
use coinoskobi_dexbot.Provider.Resilience.{Failure, classify_provider_failure}
use coinoskobi_dexbot.Broker.State.{Role, Item, Response, Broker}
use coinoskobi_dexbot.Broker.Responses.{provider_failure, response_failure}
use coinoskobi_dexbot.Broker.Circuits.{candidate_indexes, change_at, mark_failure, mark_success}

-- What `client.make_request` does: it raises an error with a text, or responds.
pub data Answer : Type 0 where
  raises : Text → Answer
  responds : Response → Answer

-- How a request ends: with a response, with the error of a provider, or with a `ConnectionError` of
-- the broker's own.
pub data Outcome : Type 0 where
  answered : Response → Outcome
  raised : Text → Outcome
  stopping circuits_open exhausted : Outcome

-- `self._providers[index]`
unfoldable pub item_at : ℕ → List Item → Option Item
item_at index [] = none
item_at zero (item ∷ items) = some item
item_at (suc index) (item ∷ items) = item_at index items

abbrev pub role_at : ℕ → Broker → Option Role
role_at index b = elim (item_at index b.providers) [ none ↦ none | some item ↦ some item.role ]

-- The bookkeeping of an attempt.
unfoldable pub attempt : ℕ → Broker → Broker
unfolding change_at item_at
attempt index b = record b {
  last_provider = role_at index b;
  provider_attempt_count = b.provider_attempt_count + 1;
  providers = change_at index (λ item. record item { requests = item.requests + 1 }) b.providers;
}

-- What an answer means for the loop: its last word, or a failure after which it goes on.
pub data Reaction : Type 0 where
  passes : Response → Reaction
  fails_over : Failure → Reaction
  propagates : Text → Reaction

unfoldable pub reaction : Answer → Reaction
unfolding response_failure
reaction (raises error) = elim (provider_failure (classify_provider_failure error)) [
  | some failure ↦ fails_over failure
  | none ↦ propagates error
]
reaction (responds response) = elim (response_failure response) [
  | some failure ↦ fails_over failure
  | none ↦ passes response
]

-- `last_response` and `last_exception` after a failure.
abbrev pub last_response_of : Answer → Option Response → Option Response
last_response_of (raises error) last = last
last_response_of (responds response) last = some response

abbrev pub last_exception_of : Answer → Option Text → Option Text
last_exception_of (raises error) last = some error
last_exception_of (responds response) last = last

-- What is returned or raised when the last position has failed.
unfoldable pub at_the_end : Option Response → Option Text → Outcome
at_the_end (some response) last_exception = answered response
at_the_end none (some error) = raised error
at_the_end none none = exhausted

-- What the loop does with a reaction at an index, `rest` being the indexes behind it; `next` is the
-- rest of the loop.
unfoldable pub react :
    (Broker → Broker × Outcome) → ℕ → ℕ → List ℕ → Outcome → Broker → Reaction → Broker × Outcome
unfolding mark_failure mark_success
react next now index rest ending b (passes response) = (mark_success index b, answered response)
react next now index rest ending b (propagates error) = (b, raised error)
react next now index [] ending b (fails_over failure) = (mark_failure index failure now b, ending)
react next now index (i ∷ rest) ending b (fails_over failure) =
    let b' = mark_failure index failure now b in
    next (record b' { failover_count = b'.failover_count + 1 })

-- The loop of `_request_uncached`, from a position on, with `last_response` and `last_exception`.
unfoldable pub request_loop :
    (ℕ → Answer)
    → (ℕ → Bool)
    → ℕ
    → ℕ
    → List ℕ
    → Option Response
    → Option Text
    → Broker
    → Broker × Outcome
unfolding attempt reaction react at_the_end
request_loop ask stops now position [] last_response last_exception b = (b, exhausted)
request_loop ask stops now position (index ∷ rest) last_response last_exception b =
    let response = last_response_of (ask index) last_response in
    let exception = last_exception_of (ask index) last_exception in
    if stops position
    then (b, stopping)
    else react (request_loop ask stops now (suc position) rest response exception) now index rest
        (at_the_end response exception) (attempt index b) (reaction (ask index))

-- `_request_uncached`; the stop is asked for before the candidates as well.
unfoldable pub request_uncached :
    (ℕ → Answer) → Bool → (ℕ → Bool) → Text → ℕ → Broker → Broker × Outcome
unfolding candidate_indexes request_loop
request_uncached ask stopped stops method now b =
    if stopped
    then (b, stopping)
    else let (b', indexes) = candidate_indexes method now b in
      if nat_eq (length indexes) 0
      then (b', circuits_open)
      else request_loop ask stops now 0 indexes none none b'

-- `max(0.0, float(self._cache_ttls.get(method, 0.0)))`
abbrev pub ttl_of : Text → Broker → ℕ
ttl_of method b = pos_part (get_or method (pos 0) b.cache_ttls)
