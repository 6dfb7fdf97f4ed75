-- ===== src/Broker/Skipping.antt =====
-- Which providers a request of app/dex/provider_broker.py touches.
use coinoskobi_dexbot.Common.{
  ℕ, suc, ◌+◌, ◌*◌, ◌<◌, ◌≤◌, Bool, true, false, ◌≡◌, ◌≢◌, refl, ◌∙◌, ap, inl, inr, Option, none,
  some, List, [], ◌∷◌, length, In, nat_eq, arith, if_cases,
}
use coinoskobi_dexbot.Common.Int.{pos}
use coinoskobi_dexbot.Common.Text.{Text}
use coinoskobi_dexbot.Provider.Resilience.{
  Failure, unknown, rate_limit, quota, forbidden, timeout, connection, subscription, other,
  seconds_of,
}
use coinoskobi_dexbot.Broker.State.{Item, Broker, Response, is_provider_failure, ticks_per_second}
use coinoskobi_dexbot.Broker.Circuits.{
  is_open, counted_skips, healthy_from, ordered_healthy, candidate_indexes, failed_item,
  mark_failure, mark_success,
}
use coinoskobi_dexbot.Broker.Request.{
  Answer, Outcome, item_at, attempt, Reaction, passes, fails_over, propagates, reaction,
  last_response_of, last_exception_of, react, request_loop, request_uncached,
}
use coinoskobi_dexbot.Broker.Candidates.{
  item_at-change_at, item_at-counted_skips, open_not_candidate,
}

react_elsewhere :
    (next : Broker → Broker × Outcome) (now index j : ℕ) (rest : List ℕ) (ending : Outcome)
    (b : Broker) (r : Reaction)
    → j ≢ index
    → ((b₁ : Broker) → item_at j (next b₁).0.providers ≡ item_at j b₁.providers)
    → item_at j (react next now index rest ending (attempt index b) r).0.providers
      ≡ item_at j b.providers
unfolding react attempt mark_success mark_failure
react_elsewhere next now index j rest ending b (passes x) n more =
    item_at-change_at j index _ _ n ∙ item_at-change_at j index _ b.providers n
react_elsewhere next now index j rest ending b (propagates error) n more =
    item_at-change_at j index _ b.providers n
react_elsewhere next now index j [] ending b (fails_over failure) n more =
    item_at-change_at j index _ _ n ∙ item_at-change_at j index _ b.providers n
react_elsewhere next now index j (i ∷ rest) ending b (fails_over failure) n more =
    more _ ∙ item_at-change_at j index _ _ n ∙ item_at-change_at j index _ b.providers n

loop_elsewhere :
    (ask : ℕ → Answer) (stops : ℕ → Bool) (now position j : ℕ) (indexes : List ℕ)
    (response : Option Response) (exception : Option Text) (b : Broker)
    → (In j indexes → ⊥)
    → item_at j (request_loop ask stops now position indexes response exception b).0.providers
      ≡ item_at j b.providers
unfolding request_loop
loop_elsewhere ask stops now position j [] response exception b n = refl
loop_elsewhere ask stops now position j (index ∷ rest) response exception b n =
    if_cases (λ (r : Broker × Outcome). item_at j r.0.providers ≡ item_at j b.providers)
      (stops position) (λ _. refl)
      (λ _.
        react_elsewhere
          (request_loop ask stops now (suc position) rest (last_response_of (ask index) response)
            (last_exception_of (ask index) exception))
          now index j rest _ b (reaction (ask index)) (λ e. n (inl e))
          (λ b₁. loop_elsewhere ask stops now (suc position) j rest _ _ b₁ λ m. n (inr m)))

pub ordered-providers :
    (method : Text) (healthy : List ℕ) (b : Broker)
    → (ordered_healthy method healthy b).0.providers ≡ b.providers
unfolding ordered_healthy
ordered-providers method healthy b = ground arith

-- A request does not touch a provider whose circuit is open, whatever the others answer and whenever
-- the stop comes: only the skip is counted.
pub open_circuit_is_skipped :
    (ask : ℕ → Answer) (stops : ℕ → Bool) (method : Text) (now j : ℕ) (b : Broker) (item : Item)
    → item_at j b.providers ≡ some item
    → now < item.cooldown_until
    → item_at j (request_uncached ask false stops method now b).0.providers
      ≡ some (record item { circuit_skips = item.circuit_skips + 1 })
unfolding request_uncached candidate_indexes
open_circuit_is_skipped ask stops method now j b item at later =
    let opened : is_open now item ≡ true = ground arith in
    let (b₁, indexes) = candidate_indexes method now b in
    let skipped : item_at j b₁.providers
        ≡ some (record item { circuit_skips = item.circuit_skips + 1 }) =
      ap (item_at j) (
        ordered-providers method (healthy_from 0 now b.providers)
          (record b { providers = counted_skips now b.providers }))
      ∙ item_at-counted_skips now j b.providers item at opened in
    if_cases
      (λ (r : Broker × Outcome).
        item_at j r.0.providers ≡ some (record item { circuit_skips = item.circuit_skips + 1 }))
      (nat_eq (length indexes) 0) (λ _. skipped)
      (λ _.
        loop_elsewhere ask stops now 0 j indexes none none b₁
          (open_not_candidate method now j b item at opened)
        ∙ skipped)

pub seconds_positive :
    (f : Failure) (q t : ℕ) → is_provider_failure f ≡ true → 1 ≤ seconds_of f (pos q) (pos t)
seconds_positive unknown q t h = cc
seconds_positive other q t h = cc
seconds_positive rate_limit q t h = omega arith
seconds_positive quota q t h = omega arith
seconds_positive forbidden q t h = omega arith
seconds_positive timeout q t h = omega arith
seconds_positive connection q t h = omega arith
seconds_positive subscription q t h = omega arith

pub failed_item-cooldown :
    (failure : Failure) (cooldown now : ℕ) (item : Item)
    → 1 ≤ cooldown
    → now + cooldown * ticks_per_second ≤ (failed_item failure cooldown now item).cooldown_until
unfolding failed_item
failed_item-cooldown failure cooldown now item h = ground arith
