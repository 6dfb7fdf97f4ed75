-- ===== src/Broker/Breaks.antt =====
-- How long a provider of app/dex/provider_broker.py rests after a failure, while other requests run.
use coinoskobi_dexbot.Common.{
  ℕ, zero, suc, ◌+◌, ◌*◌, ◌<◌, ◌≤◌, true, ◌≡◌, ◌≢◌, refl, sym, ◌∙◌, ap, inl, inr, some, List, [],
  ◌∷◌, In, nat_eq, nat_eq_iff, arith, Bool-cases, lt→ltb,
}
use coinoskobi_dexbot.Common.Int.{pos}
use coinoskobi_dexbot.Common.Text.{Text}
use coinoskobi_dexbot.Provider.Resilience.{Failure, name_of, seconds_of, provider_cooldown_seconds}
use coinoskobi_dexbot.Provider.Laws.{seconds_named}
use coinoskobi_dexbot.Broker.State.{Item, Broker, is_provider_failure, ticks_per_second}
use coinoskobi_dexbot.Broker.Circuits.{
  is_open, counted_skips, healthy_from, candidate_indexes, change_at, failed_item, mark_failure,
  mark_success,
}
use coinoskobi_dexbot.Broker.Request.{item_at, attempt}
use coinoskobi_dexbot.Broker.Flights.{
  Section, candidates, attempted, failing, succeeding, failing_over,
}
use coinoskobi_dexbot.Broker.Candidates.{
  item_at-change_at, item_at-change_at_self, open_not_candidate,
}
use coinoskobi_dexbot.Broker.Skipping.{ordered-providers, seconds_positive, failed_item-cooldown}

-- The provider of an index rests at least until a time.
abbrev pub RestsUntil : ℕ → ℕ → List Item → Type 0
RestsUntil index until items =
    (item : Item) × (item_at index items ≡ some item) × (until ≤ item.cooldown_until)

counted-RestsUntil :
    (index until now : ℕ) (items : List Item)
    → RestsUntil index until items
    → RestsUntil index until (counted_skips now items)
unfolding item_at counted_skips
counted-RestsUntil index until now [] (item, at, le) = absurd cc
counted-RestsUntil zero until now (x ∷ items) (item, at, le) = elim (Bool-cases (is_open now x)) [
  | inl opened ↦
      (record x { circuit_skips = x.circuit_skips + 1 }, rw opened refl, ground (arith, at, le))
  | inr closed ↦ (x, rw closed refl, ground (arith, at, le))
]
counted-RestsUntil (suc index) until now (x ∷ items) r = counted-RestsUntil index until now items r

-- A change that does not shorten a rest.
change-RestsUntil :
    (index until i : ℕ) (f : Item → Item) (items : List Item)
    → ((item : Item) → item.cooldown_until ≤ (f item).cooldown_until)
    → RestsUntil index until items
    → RestsUntil index until (change_at i f items)
change-RestsUntil index until i f items grows (item, at, le) = elim (Bool-cases (nat_eq index i)) [
  | inl same ↦
      let e : index ≡ i = (nat_eq_iff index i).0 same in
      (
        f item,
        ap (λ j. item_at index (change_at j f items)) (sym e)
            ∙ item_at-change_at_self index f items item at,
        omega (arith, le, grows item),
      )
  | inr differ ↦
      let n : index ≢ i = λ e. ground (arith, (nat_eq_iff index i).1 e) in
      (item, item_at-change_at index i f items n ∙ at, le)
]

failed_grows :
    (failure : Failure) (cooldown now : ℕ) (item : Item)
    → item.cooldown_until ≤ (failed_item failure cooldown now item).cooldown_until
unfolding failed_item
failed_grows failure cooldown now item = ground arith

-- A block that is not a success of the provider.
abbrev pub IsNoSuccess : (index : ℕ) {f : Broker → Broker} → Section f → Type 0
IsNoSuccess index (candidates method now) = Unit
IsNoSuccess index (attempted i) = Unit
IsNoSuccess index (failing i failure now) = Unit
IsNoSuccess index (succeeding i) = index ≢ i
IsNoSuccess index failing_over = Unit

-- What requests and the cache do meanwhile, but for a success of the provider.
pub data Meanwhile (index : ℕ) (b : Broker) : Broker → Type 0 where
  at_once : Meanwhile index b b
  then_section :
      {c : Broker} {f : Broker → Broker}
      → Meanwhile index b c
      → (block : Section f) → IsNoSuccess index block
      → Meanwhile index b (f c)
  then_other :
      {c d : Broker} → Meanwhile index b c → d.providers ≡ c.providers → Meanwhile index b d

section-RestsUntil :
    (index until : ℕ) {f : Broker → Broker} (block : Section f) (b : Broker)
    → IsNoSuccess index block
    → RestsUntil index until b.providers
    → RestsUntil index until (f b).providers
unfolding candidate_indexes attempt mark_failure mark_success
section-RestsUntil index until (candidates method now) b other r =
    rw
      (ordered-providers method (healthy_from 0 now b.providers)
        (record b { providers = counted_skips now b.providers }))
      (counted-RestsUntil index until now b.providers r)
section-RestsUntil index until (attempted i) b other r =
    change-RestsUntil index until i _ b.providers (λ item. omega arith) r
section-RestsUntil index until (failing i failure now) b other r =
    change-RestsUntil index until i _ b.providers (failed_grows failure _ now) r
section-RestsUntil index until (succeeding i) b other (item, at, le) =
    (item, item_at-change_at index i _ b.providers other ∙ at, le)
section-RestsUntil index until failing_over b other r = r

Meanwhile-RestsUntil :
    (index until : ℕ) {b c : Broker}
    → Meanwhile index b c
    → RestsUntil index until b.providers
    → RestsUntil index until c.providers
Meanwhile-RestsUntil index until at_once r = r
Meanwhile-RestsUntil index until (then_section {c = c} run block other) r =
    section-RestsUntil index until block c other (Meanwhile-RestsUntil index until run r)
Meanwhile-RestsUntil index until (then_other run same) r =
    rw same (Meanwhile-RestsUntil index until run r)

-- A provider that failed in one of the known ways rests: whatever blocks of other requests and uses
-- of the cache follow, unless a request succeeds with the provider itself, until its cooldown is
-- over, which takes at least a second, no method is offered it.
pub failed_provider_rests :
    (method : Text) (failure : Failure) (now later index : ℕ) (b c : Broker) (item : Item)
    → item_at index b.providers ≡ some item
    → is_provider_failure failure ≡ true
    → Meanwhile index (mark_failure index failure now b) c
    → later
      < now
        + seconds_of failure (pos b.cooldown_seconds) (pos b.transient_cooldown_seconds)
          * ticks_per_second
    → (1 ≤ seconds_of failure (pos b.cooldown_seconds) (pos b.transient_cooldown_seconds))
      × ¬ (In index (candidate_indexes method later c).1)
unfolding mark_failure provider_cooldown_seconds
failed_provider_rests method failure now later index b c item at known run early =
    let q = b.cooldown_seconds in
    let t = b.transient_cooldown_seconds in
    let least = seconds_positive failure q t known in
    let cooldown = provider_cooldown_seconds (name_of failure) (pos q) (pos t) in
    let same : cooldown ≡ seconds_of failure (pos q) (pos t) =
      seconds_named failure (pos q) (pos t) in
    let until = now + cooldown * ticks_per_second in
    let (x, at', le) = Meanwhile-RestsUntil index until run (
      failed_item failure cooldown now item,
      item_at-change_at_self index (failed_item failure cooldown now) b.providers item at,
      failed_item-cooldown failure cooldown now item (rw same least),
    ) in
    (
      least,
      open_not_candidate method later index c x at'
          (lt→ltb later _ (omega (arith, le, same, early))),
    )
