-- ===== src/Broker/Coalescing.antt =====
-- Which calls of app/dex/provider_broker.py ask the providers for a key at a time.
use coinoskobi_dexbot.Common.{ℕ, true, ◌≡◌, refl, sym, ◌∙◌, ap, some, nat_Eq, some_eq}
use coinoskobi_dexbot.Common.Dict.{lookup}
use coinoskobi_dexbot.Cache.Table.{key_Eq}
use coinoskobi_dexbot.Broker.State.{Broker}
use coinoskobi_dexbot.Broker.Flights.{
  racing, asking, fetched, over, Call, Flights, Step, Run, here, then_step, new_flights,
}
use coinoskobi_dexbot.Broker.Flights.{
  stopped, begun, probed, joined, woken, works, led, asked, kept, landed,
}
use coinoskobi_dexbot.Broker.Leaders.{
  leads, IsCoalesced, moved-IsCoalesced, read_cache-IsCoalesced, join-IsCoalesced, land-IsCoalesced,
  store-IsCoalesced, begin-IsCoalesced,
}

-- Every step keeps it.
pub step-IsCoalesced : {s u : Flights} → IsCoalesced s → Step s u → IsCoalesced u
step-IsCoalesced v (stopped s) = record { listed = v.listed; led = v.led; unique = v.unique }
step-IsCoalesced v (begun s t method key fresh) = begin-IsCoalesced t method key s v fresh
step-IsCoalesced v (probed s t c now at e) =
    read_cache-IsCoalesced racing now t c s v at (ap leads e) refl
step-IsCoalesced v (joined s t c at e) = join-IsCoalesced t c s v at (ap leads e)
step-IsCoalesced v (woken s t c event now at e) =
    read_cache-IsCoalesced asking now t c s v at (ap leads e) refl
step-IsCoalesced v (works s t c f at e section) = record {
  listed = v.listed;
  led = v.led;
  unique = v.unique;
}
step-IsCoalesced v (led s t c outcome at e) =
    moved-IsCoalesced t c (fetched outcome) s.broker s v at (sym (ap leads e))
step-IsCoalesced v (asked s t c outcome at e) =
    moved-IsCoalesced t c (over outcome) s.broker s v at (sym (ap leads e))
step-IsCoalesced v (kept s t c outcome now at e) =
    store-IsCoalesced now outcome t c s v at (ap leads e)
step-IsCoalesced v (landed s t c outcome at e) = land-IsCoalesced outcome t c s v at (ap leads e)

pub run-IsCoalesced : {s u : Flights} → IsCoalesced s → Run s u → IsCoalesced u
run-IsCoalesced v here = v
run-IsCoalesced v (then_step run step) = step-IsCoalesced (run-IsCoalesced v run) step

pub new-flights-IsCoalesced : (b : Broker) → IsCoalesced (new_flights b)
unfolding new_flights
new-flights-IsCoalesced b = record {
  listed = λ t c found l. cc;
  led = λ k t found. cc;
  unique = tt;
}

-- In every state that calls reach from a new broker, in any interleaving, two calls that lead the
-- same key are the same call, and `_inflight` lists it under the key.
pub single_flight :
    (b : Broker) {s : Flights} (t u : ℕ) (c d : Call)
    → Run (new_flights b) s
    → lookup t s.calls ≡ some c
    → lookup u s.calls ≡ some d
    → leads c.phase ≡ true
    → leads d.phase ≡ true
    → c.key ≡ d.key
    → (t ≡ u) × (lookup c.key s.inflight ≡ some t)
single_flight b {s} t u c d run at_t at_u l m e =
    let v = run-IsCoalesced (new-flights-IsCoalesced b) run in
    let listed = v.listed t c at_t l in
    (some_eq (sym listed ∙ ap (λ k. lookup k s.inflight) e ∙ v.listed u d at_u m), listed)
