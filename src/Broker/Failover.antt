-- ===== src/Broker/Failover.antt =====
-- The loop of `_request_uncached` of app/dex/provider_broker.py over the candidates.
use coinoskobi_dexbot.Common.{
  ℕ, suc, ◌+◌, Bool, false, ◌≡◌, ◌≢◌, refl, ap, ◌⊎◌, inl, inr, Option, none, some, List, [], ◌∷◌,
  ◌++◌, length, All, nat_eq, if◌then◌else◌, arith,
}
use coinoskobi_dexbot.Common.Text.{Text}
use coinoskobi_dexbot.Provider.Resilience.{Failure}
use coinoskobi_dexbot.Broker.State.{Response, Broker}
use coinoskobi_dexbot.Broker.Circuits.{candidate_indexes, mark_failure, mark_success}
use coinoskobi_dexbot.Broker.Request.{
  Answer, raises, responds, Outcome, answered, raised, circuits_open, exhausted, attempt, Reaction,
  passes, fails_over, propagates, reaction, last_response_of, last_exception_of, at_the_end, react,
  request_loop, request_uncached,
}

-- An answer that sends the loop to the next candidate.
abbrev pub FailsOver : Answer → Type 0
FailsOver a = (failure : Failure) × (reaction a ≡ fails_over failure)

-- The last response and the last error among the answers of some providers.
abbrev pub latest_response : (ℕ → Answer) → List ℕ → Option Response → Option Response
latest_response ask [] last = last
latest_response ask (index ∷ rest) last =
    latest_response ask rest (last_response_of (ask index) last)

abbrev pub latest_exception : (ℕ → Answer) → List ℕ → Option Text → Option Text
latest_exception ask [] last = last
latest_exception ask (index ∷ rest) last =
    latest_exception ask rest (last_exception_of (ask index) last)

-- What the outcome is, by the answer of the last provider that was asked.
pub data Decides (ask : ℕ → Answer) (before : List ℕ) (k : ℕ) (response : Option Response)
    (exception : Option Text) : List ℕ → Outcome → Type 0 where
  by_response :
      (after : List ℕ) (r : Response)
      → reaction (ask k) ≡ passes r
      → Decides ask before k response exception after (answered r)
  by_error :
      (after : List ℕ) (error : Text)
      → reaction (ask k) ≡ propagates error
      → Decides ask before k response exception after (raised error)
  by_last_response :
      (r : Response)
      → FailsOver (ask k)
      → latest_response ask (before ++ k ∷ []) response ≡ some r
      → Decides ask before k response exception [] (answered r)
  by_last_error :
      (error : Text)
      → FailsOver (ask k)
      → latest_response ask (before ++ k ∷ []) response ≡ none
      → latest_exception ask (before ++ k ∷ []) exception ≡ some error
      → Decides ask before k response exception [] (raised error)

-- The providers `before` were asked and failed over; `k` decided; those `after` were not asked.
pub record IsFailover (ask : ℕ → Answer) (indexes : List ℕ) (response : Option Response)
    (exception : Option Text) (b b' : Broker) (outcome : Outcome) : Type 0 where
  pub before : List ℕ
  pub k : ℕ
  pub after : List ℕ
  pub split : indexes ≡ before ++ k ∷ after
  pub failed : All (λ i. FailsOver (ask i)) before
  pub decides : Decides ask before k response exception after outcome
  pub attempts : b'.provider_attempt_count ≡ b.provider_attempt_count + suc (length before)
  pub failovers : b'.failover_count ≡ b.failover_count + length before

-- One more provider that failed over in front.
front :
    (ask : ℕ → Answer) (index : ℕ) (rest : List ℕ) (response : Option Response)
    (exception : Option Text) (b b₁ b' : Broker) (outcome : Outcome)
    → FailsOver (ask index)
    → b₁.provider_attempt_count ≡ b.provider_attempt_count + 1
    → b₁.failover_count ≡ b.failover_count + 1
    → IsFailover ask rest
        (last_response_of (ask index) response)
        (last_exception_of (ask index) exception)
        b₁
        b'
        outcome
    → IsFailover ask (index ∷ rest) response exception b b' outcome
front ask index rest response exception b b₁ b' outcome fails attempts failovers f = record {
  before = index ∷ f.before;
  k = f.k;
  after = f.after;
  split = ap (◌∷◌ index) f.split;
  failed = (fails, f.failed);
  decides = decided f.decides;
  attempts = omega (arith, f.attempts);
  failovers = omega (arith, f.failovers);
}
  where
    decided :
        {after : List ℕ} {o : Outcome}
        → Decides ask f.before f.k
            (last_response_of (ask index) response)
            (last_exception_of (ask index) exception)
            after
            o
        → Decides ask (index ∷ f.before) f.k response exception after o
    decided (by_response after r e) = by_response after r e
    decided (by_error after error e) = by_error after error e
    decided (by_last_response r fails e) = by_last_response r fails e
    decided (by_last_error error fails n e) = by_last_error error fails n e

-- The end of the loop at a provider.
last_one :
    (ask : ℕ → Answer) (index : ℕ) (after : List ℕ) (response : Option Response)
    (exception : Option Text) (b b' : Broker) (outcome : Outcome)
    → Decides ask [] index response exception after outcome
    → b'.provider_attempt_count ≡ b.provider_attempt_count + 1
    → b'.failover_count ≡ b.failover_count
    → IsFailover ask (index ∷ after) response exception b b' outcome
last_one ask index after response exception b b' outcome d attempts failovers = record {
  before = [];
  k = index;
  after = after;
  split = refl;
  failed = tt;
  decides = d;
  attempts = attempts;
  failovers = omega (arith, failovers);
}

-- The end of the loop, when its last provider fails over as well.
ended :
    (ask : ℕ → Answer) (k : ℕ) (response : Option Response) (exception : Option Text) (a : Answer)
    → ask k ≡ a
    → FailsOver (ask k)
    → Decides ask [] k response exception []
        (at_the_end (last_response_of (ask k) response) (last_exception_of (ask k) exception))
unfolding at_the_end
ended ask k none exception (raises error) e fails =
    rw e (by_last_error error fails (rw e refl) (rw e refl))
ended ask k (some r) exception (raises error) e fails = rw e (by_last_response r fails (rw e refl))
ended ask k response exception (responds r) e fails = rw e (by_last_response r fails (rw e refl))

-- What the loop does with an answer, when the rest of the loop is right.
react_lem :
    (ask : ℕ → Answer) (next : Broker → Broker × Outcome) (now index : ℕ) (rest : List ℕ)
    (response : Option Response) (exception : Option Text) (b : Broker) (r : Reaction)
    → reaction (ask index) ≡ r
    → ((i : ℕ) (more : List ℕ) (b₁ : Broker)
        → rest ≡ i ∷ more
        → IsFailover ask rest
            (last_response_of (ask index) response)
            (last_exception_of (ask index) exception)
            b₁
            (next b₁).0
            (next b₁).1)
    → let result =
        react next now index rest
          (at_the_end
            (last_response_of (ask index) response)
            (last_exception_of (ask index) exception))
          (attempt index b)
          r in
      IsFailover ask (index ∷ rest) response exception b result.0 result.1
unfolding react attempt mark_success mark_failure
react_lem ask next now index rest response exception b (passes x) e more =
    last_one ask index rest response exception b _ _ (by_response rest x e) refl refl
react_lem ask next now index rest response exception b (propagates error) e more =
    last_one ask index rest response exception b _ _ (by_error rest error e) refl refl
react_lem ask next now index [] response exception b (fails_over failure) e more =
    last_one ask index [] response exception b _ _
      (ended ask index response exception (ask index) refl (failure, e)) refl refl
react_lem ask next now index (i ∷ rest) response exception b (fails_over failure) e more =
    let b₁ = mark_failure index failure now (attempt index b) in
    let b₂ = record b₁ { failover_count = b₁.failover_count + 1 } in
    front ask index (i ∷ rest) response exception b b₂ _ _ (failure, e) refl refl
      (more i rest b₂ refl)

-- The loop over at least one candidate, when it is not stopped: the candidates are asked in their order up to the first
-- whose answer is not a failure of the provider; that answer decides. If all fail, the last response
-- with an error is the result, without one the last exception. Each provider that is asked is
-- counted, and each failover.
request_loop_lem :
    (ask : ℕ → Answer) (stops : ℕ → Bool) (now position index : ℕ) (rest : List ℕ)
    (response : Option Response) (exception : Option Text) (b : Broker)
    → ((p : ℕ) → stops p ≡ false)
    → let result = request_loop ask stops now position (index ∷ rest) response exception b in
      IsFailover ask (index ∷ rest) response exception b result.0 result.1
unfolding request_loop
request_loop_lem ask stops now position index [] response exception b calm =
    rw (request_loop, calm position)
      (react_lem ask
        (request_loop ask stops now (suc position) [] (last_response_of (ask index) response)
          (last_exception_of (ask index) exception))
        now index [] response exception b (reaction (ask index)) refl λ i more b₁ e. absurd cc)
request_loop_lem ask stops now position index (j ∷ rest) response exception b calm =
    rw (request_loop, calm position)
      (react_lem ask _ now index (j ∷ rest) response exception b (reaction (ask index)) refl
        λ i more b₁ e.
          request_loop_lem ask stops now (suc position) j rest
            (last_response_of (ask index) response) (last_exception_of (ask index) exception) b₁
            calm)

Decides-exhausted :
    (ask : ℕ → Answer) (before : List ℕ) (k : ℕ) (response : Option Response)
    (exception : Option Text) (after : List ℕ) (outcome : Outcome)
    → Decides ask before k response exception after outcome
    → outcome ≢ exhausted
Decides-exhausted ask before k response exception after _ (by_response _ r e) = λ x. cc
Decides-exhausted ask before k response exception after _ (by_error _ error e) = λ x. cc
Decides-exhausted ask before k response exception _ _ (by_last_response r fails e) = λ x. cc
Decides-exhausted ask before k response exception _ _ (by_last_error error fails n e) = λ x. cc

not_zero : (n : ℕ) → nat_eq (suc n) 0 ≡ false
not_zero n = ground arith

-- A request that is not stopped: without a candidate it fails at once; else the candidates are asked
-- in their order up to the first whose answer is not a failure of the provider, and that answer is
-- the result. If all fail, the last response with an error is the result, and without one the last
-- exception. Each provider that is asked is counted, and each failover; the error of an exhausted
-- broker is never raised.
pub request_uncached_lem :
    (ask : ℕ → Answer) (stops : ℕ → Bool) (method : Text) (now : ℕ) (b : Broker)
    → ((p : ℕ) → stops p ≡ false)
    → let (b₁, indexes) = candidate_indexes method now b in
      let result = request_uncached ask false stops method now b in
      ((indexes ≡ []) × (result ≡ (b₁, circuits_open)))
      ⊎ (IsFailover ask indexes none none b₁ result.0 result.1 × (result.1 ≢ exhausted))
unfolding request_uncached
request_uncached_lem ask stops method now b calm =
    go (candidate_indexes method now b).0 (candidate_indexes method now b).1
  where
    go :
        (b₁ : Broker) (indexes : List ℕ)
        → let result =
            if nat_eq (length indexes) 0
            then (b₁, circuits_open)
            else request_loop ask stops now 0 indexes none none b₁ in
          ((indexes ≡ []) × (result ≡ (b₁, circuits_open)))
          ⊎ (IsFailover ask indexes none none b₁ result.0 result.1 × (result.1 ≢ exhausted))
    go b₁ [] = inl (refl, refl)
    go b₁ (index ∷ rest) =
        let f = request_loop_lem ask stops now 0 index rest none none b₁ calm in
        inr (
          rw (not_zero (length rest))
            (f, Decides-exhausted ask f.before f.k none none f.after _ f.decides))
