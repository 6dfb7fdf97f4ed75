-- ===== src/Universe/Targets.antt =====
-- What the router of app/universe/hot_path.py selects, and what it asks of the verifier.
use coinoskobi_dexbot.Common.{
  ℕ, suc, ◌≤◌, min, true, false, ◌≡◌, ◌≢◌, refl, sym, inl, inr, Option, some, List, [], ◌∷◌, length,
  length-take, take, All, arith, if_cases, Bool-cases, Option-cases, some_eq, ap,
}
use mathlib.Core.Path.{subst}
use coinoskobi_dexbot.Common.Text.{Text, text_eq}
use coinoskobi_dexbot.Universe.Registry.{MarketState, cold, warm, hot}
use coinoskobi_dexbot.Universe.Selection.{usdt, select, sort_by}
use coinoskobi_dexbot.Universe.Choosing.{All-select, All-sort_by, All-take}
use coinoskobi_dexbot.Universe.Routing.{
  UniverseRow, Candidate, SelectionReason, hot_seismic, universe_bootstrap,
  bootstrap_native_wss_limit, wbnb, token_text, is_base, candidate_with, candidate, candidates_of,
  is_hot_state, is_hot, hot_key, hot_pools, candidates, is_bootstrap, bootstrap_key, unscored,
  bootstrap_candidates,
}

-- The pair of a candidate that the router may watch: USDT against another token than WBNB.
abbrev pub IsRouted : Text → Text → Type 0
IsRouted token quote =
    (text_eq quote usdt ≡ true) × (text_eq token usdt ≡ false) × (text_eq token wbnb ≡ false)

module _ (R : UniverseRow → Type 0) (P : Candidate → Type 0)
    (keeps : (row : UniverseRow) (c : Candidate) → R row → candidate row ≡ some c → P c) where
  All-candidates_of : (rows : List UniverseRow) → All R rows → All P (candidates_of rows)
  unfolding candidates_of
  All-candidates_of [] a = tt
  All-candidates_of (row ∷ rows) a = elim (Option-cases (candidate row)) [
    | inl e ↦ rw (candidates_of, e) (All-candidates_of rows a.1)
    | inr (c, e) ↦ rw (candidates_of, e) (keeps row c a.0 e, All-candidates_of rows a.1)
  ]

length-candidates_of : (rows : List UniverseRow) → length (candidates_of rows) ≤ length rows
unfolding candidates_of
length-candidates_of [] = omega arith
length-candidates_of (row ∷ rows) = elim (Option-cases (candidate row)) [
  | inl e ↦ rw (candidates_of, e) (omega (arith, length-candidates_of rows))
  | inr (c, e) ↦ rw (candidates_of, e) (omega (arith, length-candidates_of rows))
]

-- What a candidate keeps of its row.
abbrev IsCandidate : UniverseRow → Candidate → Type 0
IsCandidate row c = IsRouted c.token c.quote_token × (c.market_state ≡ row.market_state)

candidate_with-IsCandidate :
    (token quote : Text) (row : UniverseRow) (c : Candidate)
    → text_eq quote usdt ≡ true
    → text_eq token usdt ≡ false
    → candidate_with token quote row ≡ some c
    → IsCandidate row c
unfolding candidate_with
candidate_with-IsCandidate token quote row c base other =
    if_cases (λ (o : Option Candidate). o ≡ some c → IsCandidate row c) (text_eq token wbnb)
      (λ _ e. cc) (λ found e. subst (IsCandidate row) (some_eq e) ((base, other, found), refl))

candidate-IsCandidate :
    (row : UniverseRow) (c : Candidate) → candidate row ≡ some c → IsCandidate row c
unfolding candidate is_base
candidate-IsCandidate row c =
    let P = λ (o : Option Candidate). o ≡ some c → IsCandidate row c in
    let token0 = token_text row.token0 in
    let token1 = token_text row.token1 in
    if_cases P (text_eq token0 usdt)
      (λ base.
        if_cases P (text_eq token1 usdt) (λ _ e. cc)
          (λ other. candidate_with-IsCandidate token1 token0 row c base other))
      (λ other.
        if_cases P (text_eq token1 usdt)
          (λ base. candidate_with-IsCandidate token0 token1 row c base other) (λ _ e. cc))

-- The market states that a search is for.
abbrev pub IsFor : SelectionReason → MarketState → Type 0
IsFor hot_seismic state = state ≡ hot
IsFor universe_bootstrap state = state ≢ hot

abbrev pub IsSought : SelectionReason → Candidate → Type 0
IsSought reason c = IsRouted c.token c.quote_token × IsFor reason c.market_state

sought :
    (reason : SelectionReason) (row : UniverseRow) (c : Candidate)
    → IsFor reason row.market_state
    → candidate row ≡ some c
    → IsSought reason c
sought reason row c a e =
    let (routed, same) = candidate-IsCandidate row c e in
    (routed, subst (IsFor reason) (sym same) a)

hot_state : (state : MarketState) → is_hot_state state ≡ true → state ≡ hot
hot_state cold e = cc
hot_state warm e = cc
hot_state hot e = refl

not_hot : (state : MarketState) → is_hot_state state ≡ false → state ≢ hot
not_hot cold e = λ x. cc
not_hot warm e = λ x. cc
not_hot hot e = cc

pub candidates-IsSought :
    (limit : ℕ) (rows : List UniverseRow) → All (IsSought hot_seismic) (candidates limit rows)
unfolding candidates hot_pools
candidates-IsSought limit rows =
    let R = λ (row : UniverseRow). row.market_state ≡ hot in
    All-candidates_of R (IsSought hot_seismic) (sought hot_seismic) (hot_pools limit rows) (
      All-take R limit _ (
        All-sort_by R hot_key (select is_hot rows)
          (All-select R is_hot rows λ row. hot_state row.market_state)))

pub length-candidates :
    (limit : ℕ) (rows : List UniverseRow) → length (candidates limit rows) ≤ limit
unfolding candidates hot_pools
length-candidates limit rows = omega (
  arith,
  length-candidates_of (hot_pools limit rows),
  length-take limit (sort_by hot_key (select is_hot rows)),
)

bootstrap-not_hot : (row : UniverseRow) → is_bootstrap row ≡ true → row.market_state ≢ hot
unfolding is_bootstrap
bootstrap-not_hot row e = elim (Bool-cases (is_hot_state row.market_state)) [
  | inl found ↦ absurd (ground (arith, e, found))
  | inr other ↦ not_hot row.market_state other
]

All-unscored :
    (rows : List UniverseRow)
    → All (λ row. row.market_state ≢ hot) rows
    → All (λ row. row.market_state ≢ hot) (unscored rows)
unfolding unscored
All-unscored [] a = tt
All-unscored (row ∷ rows) a = (a.0, All-unscored rows a.1)

length-unscored : (rows : List UniverseRow) → length (unscored rows) ≡ length rows
unfolding unscored
length-unscored [] = refl
length-unscored (row ∷ rows) = ap suc (length-unscored rows)

pub bootstrap-IsSought :
    (limit : ℕ) (rows : List UniverseRow)
    → All (IsSought universe_bootstrap) (bootstrap_candidates limit rows)
unfolding bootstrap_candidates
bootstrap-IsSought limit rows =
    let R = λ (row : UniverseRow). row.market_state ≢ hot in
    let taken =
      take (min limit bootstrap_native_wss_limit)
        (sort_by bootstrap_key (select is_bootstrap rows)) in
    All-candidates_of R (IsSought universe_bootstrap) (sought universe_bootstrap) (unscored taken) (
      All-unscored taken (
        All-take R (min limit bootstrap_native_wss_limit) _ (
          All-sort_by R bootstrap_key (select is_bootstrap rows)
            (All-select R is_bootstrap rows bootstrap-not_hot))))

pub length-bootstrap_candidates :
    (limit : ℕ) (rows : List UniverseRow)
    → length (bootstrap_candidates limit rows) ≤ min limit bootstrap_native_wss_limit
unfolding bootstrap_candidates
length-bootstrap_candidates limit rows =
    let sorted = sort_by bootstrap_key (select is_bootstrap rows) in
    let n = min limit bootstrap_native_wss_limit in
    omega (
      arith,
      length-candidates_of (unscored (take n sorted)),
      length-unscored (take n sorted),
      length-take n sorted,
    )
