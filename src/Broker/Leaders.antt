-- ===== src/Broker/Leaders.antt =====
-- The calls that lead in `make_request` of app/dex/provider_broker.py, step by step.
use coinoskobi_dexbot.Common.{
  ℕ, ◌+◌, Bool, true, false, ◌≡◌, ◌≢◌, refl, sym, ◌∙◌, Option, none, some, inl, inr, nat_eq, nat_Eq,
  nat_eq_iff, Option-cases, Bool-cases, arith, if_cases,
}
use coinoskobi_dexbot.Common.Dict.{
  lookup, insert, Unique, lookup-insert, insert-Unique, erase-Unique, lookup-erase_self,
  lookup-erase_ne,
}
use coinoskobi_dexbot.Common.Text.{Text}
use coinoskobi_dexbot.Cache.Table.{CacheKey, key_Eq, key_eq, key_eq_iff}
use coinoskobi_dexbot.Broker.State.{Response, Broker}
use coinoskobi_dexbot.Broker.Responses.{cache_get, cache_put}
use coinoskobi_dexbot.Broker.Request.{
  ttl_of, Outcome, answered, raised, stopping, circuits_open, exhausted,
}
use coinoskobi_dexbot.Broker.Flights.{
  Phase, leading, fetched, stored, over, waiting, Call, Flights, moved, first_phase, begin,
  after_get, read_cache, join, store, land,
}

-- The phases between the entry into `_inflight` and the `finally` block.
abbrev pub leads : Phase → Bool
leads leading = true
leads (fetched outcome) = true
leads (stored outcome) = true
leads _ = false

-- `_inflight` lists exactly the leaders, each under its key.
pub record IsCoalesced (s : Flights) : Type 0 where
  pub listed :
      (t : ℕ) (c : Call)
      → lookup t s.calls ≡ some c
      → leads c.phase ≡ true
      → lookup c.key s.inflight ≡ some t
  pub led :
      (k : CacheKey) (t : ℕ)
      → lookup k s.inflight ≡ some t
      → (c : Call) × (lookup t s.calls ≡ some c) × (c.key ≡ k) × (leads c.phase ≡ true)
  pub unique : Unique s.inflight

-- A call that moves without becoming or ceasing to be a leader.
pub moved-IsCoalesced :
    (t : ℕ) (c : Call) (phase : Phase) (b : Broker) (s : Flights)
    → IsCoalesced s
    → lookup t s.calls ≡ some c
    → leads phase ≡ leads c.phase
    → IsCoalesced (moved t c phase (record s { broker = b }))
moved-IsCoalesced t c phase b s v at same =
    let c' : Call = record c { phase = phase } in
    record {
      listed = λ u d found l.
          ground
            (arith, v.listed u d, v.listed t c at, lookup-insert u t c' s.calls, nat_eq_iff u t);
      led = λ k u found.
          let (d, old, key, l) = v.led k u found in
          elim (Bool-cases (nat_eq u t)) [
            | inl is ↦ (
              c',
              ground (arith, lookup-insert u t c' s.calls),
              ground (arith, nat_eq_iff u t),
              ground (arith, nat_eq_iff u t),
            )
            | inr other ↦ (d, ground (arith, lookup-insert u t c' s.calls), key, l)
          ];
      unique = v.unique;
    }

-- A call with a new number, which does not lead.
new-IsCoalesced :
    (t : ℕ) (c : Call) (b : Broker) (s : Flights)
    → IsCoalesced s
    → lookup t s.calls ≡ none
    → leads c.phase ≡ false
    → IsCoalesced (record s { broker = b; calls = insert t c s.calls })
new-IsCoalesced t c b s v fresh silent = record {
  listed = λ u d found l. ground (arith, v.listed u d, lookup-insert u t c s.calls, nat_eq_iff u t);
  led = λ k u found.
      let (d, old, key, l) = v.led k u found in
      (d, ground (arith, lookup-insert u t c s.calls, nat_eq_iff u t), key, l);
  unique = v.unique;
}

leads-after_get :
    (missed : Phase) (cached : Option Response)
    → leads missed ≡ false
    → leads (after_get missed cached) ≡ false
leads-after_get missed none quiet = quiet
leads-after_get missed (some response) quiet = refl

pub read_cache-IsCoalesced :
    (missed : Phase) (now t : ℕ) (c : Call) (s : Flights)
    → IsCoalesced s
    → lookup t s.calls ≡ some c
    → leads c.phase ≡ false
    → leads missed ≡ false
    → IsCoalesced (read_cache missed now t c s)
unfolding read_cache
read_cache-IsCoalesced missed now t c s v at silent quiet =
    let (b, cached) = cache_get c.key now s.broker in
    moved-IsCoalesced t c (after_get missed cached) b s v at
      (leads-after_get missed cached quiet ∙ sym silent)

leader-IsCoalesced :
    (t : ℕ) (c : Call) (s : Flights)
    → IsCoalesced s
    → lookup t s.calls ≡ some c
    → leads c.phase ≡ false
    → lookup c.key s.inflight ≡ none
    → IsCoalesced (moved t c leading (record s { inflight = insert c.key t s.inflight }))
leader-IsCoalesced t c s v at silent free =
    let c' : Call = record c { phase = leading } in
    record {
      listed = λ u d found l. ground (
        arith,
        v.listed u d,
        lookup-insert u t c' s.calls,
        lookup-insert d.key c.key t s.inflight,
        nat_eq_iff u t,
        key_eq_iff d.key c.key,
      );
      led = λ k u found. elim (Bool-cases (key_eq k c.key)) [
        | inl is ↦ (
          c',
          ground (
            arith,
            lookup-insert k c.key t s.inflight,
            lookup-insert u t c' s.calls,
            nat_eq_iff u t,
          ),
          ground (arith, key_eq_iff k c.key),
          refl,
        )
        | inr other ↦
            let (d, old, key, l) = v.led k u (ground (arith, lookup-insert k c.key t s.inflight)) in
            (d, ground (arith, lookup-insert u t c' s.calls, nat_eq_iff u t), key, l)
      ];
      unique = insert-Unique c.key t s.inflight v.unique;
    }

pub join-IsCoalesced :
    (t : ℕ) (c : Call) (s : Flights)
    → IsCoalesced s
    → lookup t s.calls ≡ some c
    → leads c.phase ≡ false
    → IsCoalesced (join t c s)
unfolding join
join-IsCoalesced t c s v at silent = elim (Option-cases (lookup c.key s.inflight)) [
  | inl free ↦ rw (join, free) (leader-IsCoalesced t c s v at silent free)
  | inr (event, taken) ↦
      rw (join, taken)
        (moved-IsCoalesced t c (waiting event)
          (record s.broker { coalesced_wait_count = s.broker.coalesced_wait_count + 1 }) s v at
          (sym silent))
]

pub land-IsCoalesced :
    (outcome : Outcome) (t : ℕ) (c : Call) (s : Flights)
    → IsCoalesced s
    → lookup t s.calls ≡ some c
    → leads c.phase ≡ true
    → IsCoalesced (land outcome t c s)
unfolding land
land-IsCoalesced outcome t c s v at l =
    let c' : Call = record c { phase = over outcome } in
    let own = v.listed t c at l in
    record {
      listed = λ u d found m. ground (
        arith,
        v.listed u d,
        lookup-insert u t c' s.calls,
        lookup-erase_ne d.key c.key s.inflight,
        nat_eq_iff u t,
        key_eq_iff d.key c.key,
      );
      led = λ k u found.
          let n : k ≢ c.key = λ e. ground (arith, lookup-erase_self c.key s.inflight v.unique) in
          let (d, old, key, m) = v.led k u (sym (lookup-erase_ne k c.key s.inflight n) ∙ found) in
          (d, ground (arith, lookup-insert u t c' s.calls, nat_eq_iff u t), key, m);
      unique = erase-Unique c.key s.inflight v.unique;
    }

pub store-IsCoalesced :
    (now : ℕ) (outcome : Outcome) (t : ℕ) (c : Call) (s : Flights)
    → IsCoalesced s
    → lookup t s.calls ≡ some c
    → leads c.phase ≡ true
    → IsCoalesced (store now outcome t c s)
unfolding store
store-IsCoalesced now (answered response) t c s v at l =
    moved-IsCoalesced t c (stored (answered response)) (cache_put c.key response c.ttl now s.broker)
      s v at (sym l)
store-IsCoalesced now (raised error) t c s v at l =
    moved-IsCoalesced t c (stored (raised error)) s.broker s v at (sym l)
store-IsCoalesced now stopping t c s v at l =
    moved-IsCoalesced t c (stored stopping) s.broker s v at (sym l)
store-IsCoalesced now circuits_open t c s v at l =
    moved-IsCoalesced t c (stored circuits_open) s.broker s v at (sym l)
store-IsCoalesced now exhausted t c s v at l =
    moved-IsCoalesced t c (stored exhausted) s.broker s v at (sym l)

leads-first_phase : (ttl : ℕ) → leads (first_phase ttl) ≡ false
leads-first_phase ttl = ground arith

pub begin-IsCoalesced :
    (t : ℕ) (method : Text) (key : CacheKey) (s : Flights)
    → IsCoalesced s
    → lookup t s.calls ≡ none
    → IsCoalesced (begin t method key s)
unfolding begin
begin-IsCoalesced t method key s v fresh =
    let ttl = ttl_of method s.broker in
    if_cases IsCoalesced s.stop_event
      (λ _.
        new-IsCoalesced t (record { method = method; key = key; ttl = ttl; phase = over stopping })
          s.broker s v fresh refl)
      (λ _.
        new-IsCoalesced t
          (record { method = method; key = key; ttl = ttl; phase = first_phase ttl })
          (record s.broker { request_count = s.broker.request_count + 1 }) s v fresh
          (leads-first_phase ttl))
