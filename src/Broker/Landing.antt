-- ===== src/Broker/Landing.antt =====
-- How a call of `make_request` of app/dex/provider_broker.py comes to its end.
use coinoskobi_dexbot.Common.{
  ℕ, ◌+◌, ◌≡◌, ◌≢◌, refl, sym, ◌∙◌, ap, Option, none, some, nat_Eq, nat_eq_iff, arith, some_eq,
}
use coinoskobi_dexbot.Common.Dict.{lookup, insert, erase, lookup-insert, lookup-insert_self}
use coinoskobi_dexbot.Cache.Table.{CacheKey, key_Eq}
use coinoskobi_dexbot.Broker.State.{Response, Broker}
use coinoskobi_dexbot.Broker.Responses.{cache_get, cache_put}
use coinoskobi_dexbot.Broker.Request.{Outcome, answered, raised, stopping, circuits_open, exhausted}
use coinoskobi_dexbot.Broker.Flights.{
  Phase, probing, racing, leading, asking, fetched, stored, over, waiting, Call, Flights, moved,
  after_get, read_cache, join, store, land, Step, Run, here, then_step, new_flights,
}
use coinoskobi_dexbot.Broker.Flights.{probed, joined, woken, led, asked, kept, landed}
use coinoskobi_dexbot.Broker.Coalescing.{run-IsCoalesced, new-flights-IsCoalesced}

run_from : {s u v : Flights} → Step s u → Run u v → Run s v
run_from step here = then_step here step
run_from step (then_step run next) = then_step (run_from step run) next

-- The call `t` is over, in a state that steps of its own reach: the other calls stand where they
-- stood.
pub record IsFinished (t : ℕ) (s u : Flights) : Type 0 where
  pub run : Run s u
  pub ended :
      (c : Call) × (outcome : Outcome) × (lookup t u.calls ≡ some c) × (c.phase ≡ over outcome)
  pub alone : (j : ℕ) → j ≢ t → lookup j u.calls ≡ lookup j s.calls

abbrev CanFinish : ℕ → Flights → Type 0
CanFinish t s = (u : Flights) × IsFinished t s u

lookup-moved_self :
    (t : ℕ) (c : Call) (phase : Phase) (s : Flights)
    → lookup t (moved t c phase s).calls ≡ some (record c { phase = phase })
lookup-moved_self t c phase s = lookup-insert_self t (record c { phase = phase }) s.calls

lookup-moved_other :
    (j t : ℕ) (c : Call) (phase : Phase) (s : Flights)
    → j ≢ t
    → lookup j (moved t c phase s).calls ≡ lookup j s.calls
lookup-moved_other j t c phase s n =
    ground (arith, lookup-insert j t (record c { phase = phase }) s.calls, nat_eq_iff j t)

-- A step that ends the call, and a step before others.
finish :
    (t : ℕ) (c : Call) (outcome : Outcome) (s r : Flights)
    → r.calls ≡ s.calls
    → Step s (moved t c (over outcome) r)
    → CanFinish t s
finish t c outcome s r same step = (
  moved t c (over outcome) r,
  record {
    run = then_step here step;
    ended =
        (record c { phase = over outcome }, outcome, lookup-moved_self t c (over outcome) r, refl);
    alone = λ j n. lookup-moved_other j t c (over outcome) r n ∙ ap (lookup j) same;
  },
)

continue :
    (t : ℕ) (c : Call) (phase : Phase) (s r : Flights)
    → r.calls ≡ s.calls
    → Step s (moved t c phase r)
    → CanFinish t (moved t c phase r)
    → CanFinish t s
continue t c phase s r same step (u, f) = (
  u,
  record {
    run = run_from step f.run;
    ended = f.ended;
    alone = λ j n. f.alone j n ∙ lookup-moved_other j t c phase r n ∙ ap (lookup j) same;
  },
)

-- From each phase, the request of the providers ending in a given way, at a given time.
module _ (result : Outcome) (now t : ℕ) where
  stored_finish :
      (c : Call) (outcome : Outcome) (s : Flights)
      → lookup t s.calls ≡ some c
      → c.phase ≡ stored outcome
      → CanFinish t s
  unfolding land
  stored_finish c outcome s at e =
      finish t c outcome s (record s { inflight = erase c.key s.inflight }) refl
        (landed s t c outcome at e)

  stored_next :
      (c : Call) (outcome : Outcome) (s r : Flights)
      → r.calls ≡ s.calls
      → Step s (moved t c (stored outcome) r)
      → CanFinish t s
  stored_next c outcome s r same step = continue t c (stored outcome) s r same step (
      stored_finish (record c { phase = stored outcome }) outcome (moved t c (stored outcome) r)
        (lookup-moved_self t c (stored outcome) r) refl)

  fetched_finish :
      (c : Call) (outcome : Outcome) (s : Flights)
      → lookup t s.calls ≡ some c
      → c.phase ≡ fetched outcome
      → CanFinish t s
  unfolding store
  fetched_finish c (answered response) s at e =
      stored_next c (answered response) s
        (record s { broker = cache_put c.key response c.ttl now s.broker }) refl
        (kept s t c (answered response) now at e)
  fetched_finish c (raised error) s at e =
      stored_next c (raised error) s s refl (kept s t c (raised error) now at e)
  fetched_finish c stopping s at e = stored_next c stopping s s refl (kept s t c stopping now at e)
  fetched_finish c circuits_open s at e =
      stored_next c circuits_open s s refl (kept s t c circuits_open now at e)
  fetched_finish c exhausted s at e =
      stored_next c exhausted s s refl (kept s t c exhausted now at e)

  leading_finish :
      (c : Call) (s : Flights) → lookup t s.calls ≡ some c → c.phase ≡ leading → CanFinish t s
  leading_finish c s at e = continue t c (fetched result) s s refl (led s t c result at e) (
      fetched_finish (record c { phase = fetched result }) result (moved t c (fetched result) s)
        (lookup-moved_self t c (fetched result) s) refl)

  asking_finish :
      (c : Call) (s : Flights) → lookup t s.calls ≡ some c → c.phase ≡ asking → CanFinish t s
  asking_finish c s at e = finish t c result s s refl (asked s t c result at e)

  -- A read of the cache, when the phase behind a miss can finish.
  read_finish :
      (c : Call) (missed : Phase) (s : Flights)
      → Step s (read_cache missed now t c s)
      → ((b : Broker) → CanFinish t (moved t c missed (record s { broker = b })))
      → CanFinish t s
  unfolding read_cache
  read_finish c missed s step next = go (cache_get c.key now s.broker) step
    where
      go :
          (r : Broker × Option Response)
          → Step s (moved t c (after_get missed r.1) (record s { broker = r.0 }))
          → CanFinish t s
      go (b, none) step = continue t c missed s (record s { broker = b }) refl step (next b)
      go (b, some response) step =
          finish t c (answered response) s (record s { broker = b }) refl step

  waiting_finish :
      (c : Call) (event : ℕ) (s : Flights)
      → lookup t s.calls ≡ some c
      → c.phase ≡ waiting event
      → CanFinish t s
  waiting_finish c event s at e = read_finish c asking s (woken s t c event now at e) λ b.
      asking_finish (record c { phase = asking }) (moved t c asking (record s { broker = b }))
        (lookup-moved_self t c asking (record s { broker = b })) refl

  racing_finish :
      (c : Call) (s : Flights) → lookup t s.calls ≡ some c → c.phase ≡ racing → CanFinish t s
  unfolding join
  racing_finish c s at e = go (lookup c.key s.inflight) (joined s t c at e)
    where
      go :
          (o : Option ℕ)
          → Step s (elim o [
            | none ↦ moved t c leading (record s { inflight = insert c.key t s.inflight })
            | some event ↦ moved t c (waiting event) (record s {
              broker = record s.broker { coalesced_wait_count = s.broker.coalesced_wait_count + 1 };
            })
          ])
          → CanFinish t s
      go none step =
          let r = record s { inflight = insert c.key t s.inflight } in
          continue t c leading s r refl step (
            leading_finish (record c { phase = leading }) (moved t c leading r)
              (lookup-moved_self t c leading r) refl)
      go (some event) step =
          let r : Flights = record s {
            broker = record s.broker { coalesced_wait_count = s.broker.coalesced_wait_count + 1 };
          } in
          continue t c (waiting event) s r refl step (
            waiting_finish (record c { phase = waiting event }) event (moved t c (waiting event) r)
              (lookup-moved_self t c (waiting event) r) refl)

  probing_finish :
      (c : Call) (s : Flights) → lookup t s.calls ≡ some c → c.phase ≡ probing → CanFinish t s
  probing_finish c s at e = read_finish c racing s (probed s t c now at e) λ b.
      racing_finish (record c { phase = racing }) (moved t c racing (record s { broker = b }))
        (lookup-moved_self t c racing (record s { broker = b })) refl

  phase_finish :
      (c : Call) (s : Flights) (phase : Phase)
      → lookup t s.calls ≡ some c
      → c.phase ≡ phase
      → CanFinish t s
  phase_finish c s probing at e = probing_finish c s at e
  phase_finish c s racing at e = racing_finish c s at e
  phase_finish c s leading at e = leading_finish c s at e
  phase_finish c s asking at e = asking_finish c s at e
  phase_finish c s (fetched outcome) at e = fetched_finish c outcome s at e
  phase_finish c s (stored outcome) at e = stored_finish c outcome s at e
  phase_finish c s (waiting event) at e = waiting_finish c event s at e
  phase_finish c s (over outcome) at e =
      (s, record { run = here; ended = (c, outcome, at, e); alone = λ j n. refl })

-- No call depends on another to come to its end: from every reachable state, however the call's own
-- request of the providers ends, steps of this call alone lead to a state where it is over, and then
-- no key is in flight under it.
pub can_finish :
    (b : Broker) {s : Flights}
    → Run (new_flights b) s
    → (result : Outcome) (now t : ℕ) (c : Call) → lookup t s.calls ≡ some c
    → (u : Flights) × IsFinished t s u × ((k : CacheKey) → lookup k u.inflight ≢ some t)
can_finish b {s} run result now t c at =
    let (u, f) = phase_finish result now t c s c.phase at refl in
    let (d, outcome, found, over_eq) = f.ended in
    let v = run-IsCoalesced (run-IsCoalesced (new-flights-IsCoalesced b) run) f.run in
    (
      u,
      f,
      λ k listed.
          let (e, found', key, l) = v.led k t listed in
          let same : e ≡ d = some_eq (sym found' ∙ found) in absurd (ground (arith)),
    )
