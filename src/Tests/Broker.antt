-- ===== src/Tests/Broker.antt =====
-- The provider broker of app/dex/provider_broker.py on small inputs.
use coinoskobi_dexbot.Common.{
  ℕ, zero, suc, ◌+◌, ◌≤◌, ◌<◌, ◌≡◌, ◌≢◌, refl, ◌⊎◌, inl, inr, false, none, some, List, [], ◌∷◌,
  length, In, if◌then◌else◌, ltb, arith, nat_Eq,
}
use coinoskobi_dexbot.Common.Int.{pos}
use coinoskobi_dexbot.Common.Dict.{lookup}
use coinoskobi_dexbot.Common.Text.{Text, text_Eq, codes}
use coinoskobi_dexbot.Provider.Resilience.{quota, name_of, seconds_of, provider_cooldown_seconds}
use coinoskobi_dexbot.Cache.Table.{CacheKey, key_Eq}
use coinoskobi_dexbot.Broker.State.{secondary, Response, reply, Item, Broker, new_broker}
use coinoskobi_dexbot.Broker.Responses.{cache_get, cache_put}
use coinoskobi_dexbot.Broker.Circuits.{healthy_from, candidate_indexes, mark_failure, mark_success}
use coinoskobi_dexbot.Broker.Request.{
  Answer, raises, responds, answered, circuits_open, item_at, request_uncached, exhausted, attempt,
}
use coinoskobi_dexbot.Broker.Flights.{
  Phase, read_cache, join, Flights, Call, Run, here, then_step, new_flights, begun, probed, joined,
  begin, leading, probing, racing, attempted, succeeding,
}
use coinoskobi_dexbot.Broker.Coalescing.{single_flight}
use coinoskobi_dexbot.Broker.Landing.{IsFinished, can_finish}
use coinoskobi_dexbot.Broker.Rotation.{selections, every_provider_first}
use coinoskobi_dexbot.Broker.Failover.{IsFailover, request_uncached_lem}
use coinoskobi_dexbot.Broker.Skipping.{open_circuit_is_skipped}
use coinoskobi_dexbot.Broker.Breaks.{Meanwhile, at_once, then_section, failed_provider_rests}
use coinoskobi_dexbot.Broker.Caching.{IsBounded, new_flights-IsBounded, get-put}

abbrev eth_call : Text
eth_call = codes "eth_call"

abbrev three : Broker
three = new_broker (codes "a" ∷ codes " b " ∷ codes "a" ∷ codes "c" ∷ []) (pos 300) (pos 15) []

three_providers : length three.providers ≡ 3
unfolding new_broker
three_providers = refl

-- The first times out, the second is over its quota, the third answers.
unfoldable answers : ℕ → Answer
answers zero = raises (codes "Read timed out")
answers (suc zero) = responds (reply (some (codes "quota")) none)
answers (suc (suc index)) = responds (reply none (some (codes "0x1")))

third_answers :
    let (b, outcome) = request_uncached answers false (λ p. false) eth_call 5 three in
    (outcome ≡ answered (reply none (some (codes "0x1"))))
    × (b.provider_attempt_count ≡ 3)
    × (b.failover_count ≡ 2)
unfolding request_uncached answers new_broker
third_answers = (refl, refl, refl)

calm : (p : ℕ) → (λ (q : ℕ). false) p ≡ false
calm p = refl

request_uncached_example :
    let (b₁, indexes) = candidate_indexes eth_call 5 three in
    let result = request_uncached answers false (λ p. false) eth_call 5 three in
    ((indexes ≡ []) × (result ≡ (b₁, circuits_open)))
    ⊎ (IsFailover answers indexes none none b₁ result.0 result.1 × (result.1 ≢ exhausted))
request_uncached_example = request_uncached_lem answers (λ p. false) eth_call 5 three calm

-- The second provider is over its quota at 5.
abbrev limited : Broker
limited = mark_failure 1 quota 5 three

abbrev second : Item
second = record {
  role = secondary;
  client = codes "b";
  requests = 0;
  successes = 0;
  failures = 1;
  circuit_opens = 1;
  circuit_skips = 0;
  last_failure = some quota;
  cooldown_until = 30005;
}

second_rests : item_at 1 limited.providers ≡ some second
unfolding mark_failure new_broker item_at provider_cooldown_seconds name_of
second_rests = refl

open_circuit_example :
    item_at 1 (request_uncached answers false (λ p. false) eth_call 600 limited).0.providers
    ≡ some (record second { circuit_skips = 1 })
open_circuit_example =
    open_circuit_is_skipped answers (λ p. false) eth_call 600 1 limited second second_rests
      (omega arith)

-- After the failure the first provider succeeds, and the third one is asked.
abbrev meanwhile : Broker
meanwhile = attempt 2 (mark_success 0 limited)

meanwhile-Meanwhile : Meanwhile 1 limited meanwhile
meanwhile-Meanwhile =
    then_section (then_section at_once (succeeding 0) (λ e. omega (arith, e))) (attempted 2) tt

failed_provider_example :
    (1 ≤ seconds_of quota (pos three.cooldown_seconds) (pos three.transient_cooldown_seconds))
    × ¬ (In 1 (candidate_indexes eth_call 30004 meanwhile).1)
unfolding new_broker item_at
failed_provider_example =
    failed_provider_rests eth_call quota 5 30004 1 three meanwhile
      (record second { failures = 0; circuit_opens = 0; last_failure = none; cooldown_until = 0 })
      refl refl meanwhile-Meanwhile (omega arith)

every_provider_first_example :
    (i : ℕ) × (i < length (healthy_from 0 5 three.providers))
    × (rest : List ℕ) × ((candidate_indexes eth_call 5 (selections eth_call 5 i three)).1
        ≡ 2 ∷ rest)
unfolding new_broker healthy_from
every_provider_first_example = every_provider_first eth_call 5 2 three refl (inr (inr (inl refl)))

abbrev call_key : CacheKey
call_key = (eth_call, codes "[]")

abbrev answer : Response
answer = reply none (some (codes "0x1"))

empty-IsBounded : IsBounded three
unfolding new_broker
empty-IsBounded = record { unique = tt; bound = omega arith }

get-put_example :
    (cache_get call_key 14 (cache_put call_key answer 10 5 three)).1
    ≡ (if ltb 14 (5 + 10) then some answer else none)
get-put_example = get-put call_key answer 10 5 14 three empty-IsBounded (omega arith) refl

-- A call of `eth_call` that finds nothing in the cache and becomes the leader.
abbrev asking_for : Phase → Call
asking_for phase = record { method = eth_call; key = call_key; ttl = 10; phase = phase }

abbrev one_begun : Flights
one_begun = begin 0 eth_call call_key (new_flights three)

abbrev one_probed : Flights
one_probed = read_cache racing 5 0 (asking_for probing) one_begun

abbrev one_leads : Flights
one_leads = join 0 (asking_for racing) one_probed

one_run : Run (new_flights three) one_leads
unfolding begin read_cache join new_flights new_broker
one_run =
    then_step
      (then_step (then_step here (begun (new_flights three) 0 eth_call call_key refl))
        (probed one_begun 0 (asking_for probing) 5 refl refl))
      (joined one_probed 0 (asking_for racing) refl refl)

single_flight_example : ◌≡◌ {A = ℕ} 0 0 × (lookup call_key one_leads.inflight ≡ some 0)
unfolding begin read_cache join new_flights new_broker
single_flight_example =
    single_flight three 0 0 (asking_for leading) (asking_for leading) one_run refl refl refl refl
      refl

can_finish_example :
    (u : Flights) × IsFinished 0 one_leads u × ((k : CacheKey) → lookup k u.inflight ≢ some 0)
unfolding begin read_cache join new_flights new_broker
can_finish_example = can_finish three one_run (answered answer) 9 0 (asking_for leading) refl

new_flights-IsBounded_example : IsBounded one_leads.broker
unfolding new_broker
new_flights-IsBounded_example = new_flights-IsBounded three refl one_run
