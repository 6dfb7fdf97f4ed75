-- ===== src/Broker/Caching.antt =====
-- The response cache of app/dex/provider_broker.py: its bound, and what a read finds after a write.
use coinoskobi_dexbot.Common.{
  ℕ, zero, suc, ◌+◌, ◌-◌, ◌≤◌, ◌<◌, true, not, ◌||◌, ◌≡◌, refl, Option, none, some, List, [], ◌∷◌,
  ◌++◌, length, length-append, drop, ltb, leb, if◌then◌else◌, if_cases, arith, Eq, ◌==◌,
  Option-cases, inl, inr,
}
use coinoskobi_dexbot.Common.Dict.{
  Dict, lookup, erase, Unique, erase-Unique, lookup-erase_self, length-erase, length-erase-le,
}
use coinoskobi_dexbot.Common.Text.{Text}
use coinoskobi_dexbot.Cache.Table.{CacheKey, key_Eq}
use coinoskobi_dexbot.Broker.State.{Response, Broker, max_cache_entries}
use coinoskobi_dexbot.Broker.Responses.{cacheable, cached_item, cache_get, cache_put}
use coinoskobi_dexbot.Broker.Circuits.{
  candidate_indexes, ordered_healthy, mark_failure, mark_success,
}
use coinoskobi_dexbot.Broker.Request.{
  attempt, Outcome, answered, raised, stopping, circuits_open, exhausted,
}
use coinoskobi_dexbot.Broker.Flights.{
  Phase, Call, Flights, Step, Run, here, then_step, new_flights, begin, read_cache, join, store,
  land, stopped, begun, probed, joined, woken, works, led, asked, kept, landed, Section, candidates,
  attempted, failing, succeeding, failing_over,
}

module _ {K V : Type 0} ⦃e : Eq K⦄ where
  lookup-append_new :
      (j k : K) (v : V) (d : Dict K V)
      → lookup j d ≡ none
      → lookup j (d ++ (k, v) ∷ []) ≡ (if j == k then some v else none)
  lookup-append_new j k v [] h = refl
  lookup-append_new j k v (x ∷ d) h = ground (arith, lookup-append_new j k v d)

  append-Unique :
      (k : K) (v : V) (d : Dict K V) → lookup k d ≡ none → Unique d → Unique (d ++ (k, v) ∷ [])
  append-Unique k v [] h u = (refl, tt)
  append-Unique k v (x ∷ d) h u = ground (
    arith,
    append-Unique k v d,
    lookup-append_new x.0 k v d,
    e.equal_iff x.0 k,
    e.equal_iff k x.0,
  )

  drop-Unique : (n : ℕ) (d : Dict K V) → Unique d → Unique (drop n d)
  drop-Unique zero d u = u
  drop-Unique (suc n) [] u = u
  drop-Unique (suc n) (x ∷ d) u = drop-Unique n d u.1

  lookup-drop_last :
      (n : ℕ) (k : K) (v : V) (d : Dict K V)
      → n ≤ length d
      → lookup k d ≡ none
      → lookup k (drop n (d ++ (k, v) ∷ [])) ≡ some v
  lookup-drop_last zero k v d le h = ground (arith, lookup-append_new k k v d, e.equal_iff k k)
  lookup-drop_last (suc n) k v [] le h = absurd (omega arith)
  lookup-drop_last (suc n) k v (x ∷ d) le h = lookup-drop_last n k v d (omega arith) (ground arith)

length-drop : {A : Type 0} (n : ℕ) (xs : List A) → length (drop n xs) ≡ length xs - n
length-drop zero xs = omega arith
length-drop (suc n) [] = omega arith
length-drop (suc n) (x ∷ xs) = omega (arith, length-drop n xs)

-- No key is cached twice, and no more than the bound are.
pub record IsBounded (b : Broker) : Type 0 where
  pub unique : Unique b.cache
  pub bound : length b.cache ≤ max_cache_entries

cache_put-IsBounded :
    (key : CacheKey) (response : Response) (ttl now : ℕ) (b : Broker)
    → IsBounded b
    → IsBounded (cache_put key response ttl now b)
unfolding cache_put
cache_put-IsBounded key response ttl now b v =
    let kept = erase key b.cache in
    let cache = kept ++ (key, (now + ttl, response)) ∷ [] in
    if_cases IsBounded (not (ltb 0 ttl) || not (cacheable response)) (λ _. v)
      (λ _. record {
        unique = drop-Unique (length cache - max_cache_entries) cache (
            append-Unique key (now + ttl, response) kept (lookup-erase_self key b.cache v.unique)
              (erase-Unique key b.cache v.unique));
        bound = omega (arith, length-drop (length cache - max_cache_entries) cache);
      })

cached_item-IsBounded :
    (key : CacheKey) (now : ℕ) (b : Broker) (o : Option (ℕ × Response))
    → lookup key b.cache ≡ o
    → IsBounded b
    → IsBounded (cached_item key now b o).0
unfolding cached_item
cached_item-IsBounded key now b none e v = v
cached_item-IsBounded key now b (some (expires_at, response)) e v =
    if_cases (λ (r : Broker × Option Response). IsBounded r.0) (leb expires_at now)
      (λ _. record {
        unique = erase-Unique key b.cache v.unique;
        bound = omega (arith, v.bound, length-erase-le key b.cache);
      })
      (λ _. record {
        unique =
            append-Unique key (expires_at, response) (erase key b.cache)
              (lookup-erase_self key b.cache v.unique) (erase-Unique key b.cache v.unique);
        bound = omega (
          arith,
          v.bound,
          length-erase key (expires_at, response) b.cache e,
          length-append (erase key b.cache) ((key, (expires_at, response)) ∷ []),
        );
      })

same-IsBounded : (b b' : Broker) → b'.cache ≡ b.cache → IsBounded b → IsBounded b'
same-IsBounded b b' e v = record { unique = rw e v.unique; bound = rw e v.bound }

ordered-cache :
    (method : Text) (healthy : List ℕ) (b : Broker)
    → (ordered_healthy method healthy b).0.cache ≡ b.cache
unfolding ordered_healthy
ordered-cache method healthy b = ground arith

Section-cache : (f : Broker → Broker) (b : Broker) → Section f → (f b).cache ≡ b.cache
unfolding candidate_indexes attempt mark_failure mark_success
Section-cache _ b (candidates method now) = ordered-cache method _ _
Section-cache _ b (attempted index) = refl
Section-cache _ b (failing index failure now) = refl
Section-cache _ b (succeeding index) = refl
Section-cache _ b failing_over = refl

join-cache : (t : ℕ) (c : Call) (s : Flights) → (join t c s).broker.cache ≡ s.broker.cache
unfolding join
join-cache t c s = elim (Option-cases (lookup c.key s.inflight)) [
  | inl free ↦ rw (join, free) refl
  | inr (event, taken) ↦ rw (join, taken) refl
]

begin-cache :
    (t : ℕ) (method : Text) (key : CacheKey) (s : Flights)
    → (begin t method key s).broker.cache ≡ s.broker.cache
unfolding begin
begin-cache t method key s =
    if_cases (λ (u : Flights). u.broker.cache ≡ s.broker.cache) s.stop_event (λ _. refl) (λ _. refl)

store-IsBounded :
    (now : ℕ) (outcome : Outcome) (t : ℕ) (c : Call) (s : Flights)
    → IsBounded s.broker
    → IsBounded (store now outcome t c s).broker
unfolding store
store-IsBounded now (answered response) t c s v =
    cache_put-IsBounded c.key response c.ttl now s.broker v
store-IsBounded now (raised error) t c s v = v
store-IsBounded now stopping t c s v = v
store-IsBounded now circuits_open t c s v = v
store-IsBounded now exhausted t c s v = v

read_cache-IsBounded :
    (missed : Phase) (now t : ℕ) (c : Call) (s : Flights)
    → IsBounded s.broker
    → IsBounded (read_cache missed now t c s).broker
unfolding read_cache cache_get
read_cache-IsBounded missed now t c s v =
    cached_item-IsBounded c.key now s.broker (lookup c.key s.broker.cache) refl v

step-IsBounded : {s u : Flights} → Step s u → IsBounded s.broker → IsBounded u.broker
unfolding land
step-IsBounded (stopped s) v = v
step-IsBounded (begun s t method key fresh) v =
    same-IsBounded s.broker _ (begin-cache t method key s) v
step-IsBounded (probed s t c now at e) v = read_cache-IsBounded _ now t c s v
step-IsBounded (joined s t c at e) v = same-IsBounded s.broker _ (join-cache t c s) v
step-IsBounded (woken s t c event now at e) v = read_cache-IsBounded _ now t c s v
step-IsBounded (works s t c f at e section) v =
    same-IsBounded s.broker (f s.broker) (Section-cache f s.broker section) v
step-IsBounded (led s t c outcome at e) v = v
step-IsBounded (asked s t c outcome at e) v = v
step-IsBounded (kept s t c outcome now at e) v = store-IsBounded now outcome t c s v
step-IsBounded (landed s t c outcome at e) v = v

run-IsBounded : {s u : Flights} → Run s u → IsBounded s.broker → IsBounded u.broker
run-IsBounded here v = v
run-IsBounded (then_step run step) v = step-IsBounded step (run-IsBounded run v)

-- Whatever calls run, in any interleaving, the response cache of a broker that starts empty lists no
-- key twice and holds at most 1024 entries.
pub new_flights-IsBounded :
    (b : Broker) {s : Flights} → b.cache ≡ [] → Run (new_flights b) s → IsBounded s.broker
unfolding new_flights
new_flights-IsBounded b empty run =
    run-IsBounded run (record { unique = rw empty tt; bound = rw empty (omega arith) })

put-lookup :
    (key : CacheKey) (response : Response) (ttl now : ℕ) (b : Broker)
    → IsBounded b
    → 0 < ttl
    → cacheable response ≡ true
    → lookup key (cache_put key response ttl now b).cache ≡ some (now + ttl, response)
unfolding cache_put
put-lookup key response ttl now b v positive fit =
    let kept = erase key b.cache in
    let n = length (kept ++ (key, (now + ttl, response)) ∷ []) - max_cache_entries in
    let positive' : ltb 0 ttl ≡ true = ground arith in
    rw (cache_put, positive', fit)
      (lookup-drop_last n key (now + ttl, response) kept
        (omega (arith, length-append kept ((key, (now + ttl, response)) ∷ [])))
        (lookup-erase_self key b.cache v.unique))

-- A response that was put under a key with a positive TTL is what a read of the key finds until it
-- expires, also in a full cache, and is never returned from then on.
pub get-put :
    (key : CacheKey) (response : Response) (ttl now later : ℕ) (b : Broker)
    → IsBounded b
    → 0 < ttl
    → cacheable response ≡ true
    → (cache_get key later (cache_put key response ttl now b)).1
      ≡ (if ltb later (now + ttl) then some response else none)
unfolding cache_get cached_item
get-put key response ttl now later b v positive fit =
    rw (cache_get, put-lookup key response ttl now b v positive fit) (ground arith)
