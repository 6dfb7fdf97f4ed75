-- ===== src/Universe/Searching.antt =====
-- How the router of app/universe/hot_path.py searches for targets.
use coinoskobi_dexbot.Common.{
  ℕ, suc, ◌+◌, ◌≤◌, ◌<◌, min, Bool, true, ◌≡◌, refl, ◌⊎◌, inl, inr, List, [], ◌∷◌, ◌++◌, length,
  length-append, nat_eq, nat_eq_iff, leb, All, arith, if_cases,
}
use coinoskobi_dexbot.Common.Text.{Text, text_eq}
use coinoskobi_dexbot.Universe.Selection.{dex_v2}
use coinoskobi_dexbot.Universe.Routing.{
  UniverseRow, Candidate, SelectionReason, hot_seismic, universe_bootstrap, Target,
  bootstrap_native_wss_limit, candidates, bootstrap_candidates, Search, no_search, target_of, visit,
  verified_native_targets, native_wss_targets,
}
use coinoskobi_dexbot.Universe.Targets.{
  IsRouted, IsFor, IsSought, candidates-IsSought, length-candidates, bootstrap-IsSought,
  length-bootstrap_candidates,
}

nil-All : (P : Target → Type 0) (ts : List Target) → length ts ≡ 0 → All P ts
nil-All P [] e = tt
nil-All P (t ∷ ts) e = absurd (omega (arith, e))

append-All :
    (P : Target → Type 0) (ts : List Target) (t : Target) → All P ts → P t → All P (ts ++ (t ∷ []))
append-All P [] t a h = (h, tt)
append-All P (x ∷ ts) t a h = (a.0, append-All P ts t a.1 h)

module _ (verify : Text → Text → Text → Bool) where
  -- A target is verified, routed, and of a state that its search is for.
  pub record IsTarget (reason : SelectionReason) (t : Target) : Type 0 where
    pub verified : verify t.pair t.token t.quote_token ≡ true
    pub routed : IsRouted t.token t.quote_token
    pub reason_eq : t.selection_reason ≡ reason
    pub state : IsFor reason t.market_state

  -- At most so many targets, all of one search, and at most so many questions.
  abbrev pub IsWithin : SelectionReason → ℕ → ℕ → Search → Type 0
  IsWithin reason limit questions s =
      (length s.targets ≤ limit) × All (IsTarget reason) s.targets × (s.asked ≤ questions)

  visit-IsWithin :
      (reason : SelectionReason) (limit questions : ℕ) (c : Candidate) (s : Search)
      → IsSought reason c
      → IsWithin reason limit questions s
      → IsWithin reason (limit + 1) (questions + 1) (visit verify reason c s)
  unfolding visit
  visit-IsWithin reason limit questions c s sought (le, all, few) =
      let P = IsWithin reason (limit + 1) (questions + 1) in
      if_cases P (text_eq c.dex dex_v2)
        (λ _.
          if_cases P (verify c.pool c.token c.quote_token)
            (λ e. (
              omega (arith, length-append s.targets (target_of reason c ∷ []), le),
              append-All (IsTarget reason) s.targets (target_of reason c) all
                  (record { verified = e; routed = sought.0; reason_eq = refl; state = sought.1 }),
              omega (arith, few),
            ))
            (λ _. (omega (arith, le), all, omega (arith, few))))
        (λ _. (omega (arith, le), all, omega (arith, few)))

  verified_native_targets-IsWithin :
      (reason : SelectionReason) (limit questions : ℕ) (cs : List Candidate) (s : Search)
      → All (IsSought reason) cs
      → length s.targets < limit
      → All (IsTarget reason) s.targets
      → s.asked ≤ questions
      → IsWithin reason limit
          (questions + length cs)
          (verified_native_targets verify limit reason cs s)
  unfolding verified_native_targets
  verified_native_targets-IsWithin reason limit questions [] s sought lt all few =
      (omega (arith, lt), all, omega (arith, few))
  verified_native_targets-IsWithin reason limit questions (c ∷ cs) s sought lt all few =
      let s' = visit verify reason c s in
      let (le, all', few') =
        visit-IsWithin reason (length s.targets) questions c s sought.0 (omega arith, all, few) in
      let P = IsWithin reason limit (questions + suc (length cs)) in
      if_cases P (leb limit (length s'.targets))
        (λ _. (omega (arith, le, lt), all', omega (arith, few')))
        (λ e.
          let (le₂, all₂, few₂) =
            verified_native_targets-IsWithin reason limit (questions + 1) cs s' sought.1
              (ground (arith, e)) all' few' in
          (le₂, all₂, omega (arith, few₂)))

  -- The targets of a positive limit are at most as many as the limit, each is a pair of USDT with a
  -- token other than USDT and WBNB whose membership is verified, and all are HOT, or none is HOT
  -- and they are at most 16. The verifier is asked at most once for each of as many HOT rows as the
  -- limit and 16 others.
  pub native_wss_targets_lem :
      (limit : ℕ) (rows : List UniverseRow)
      → 1 ≤ limit
      → let found = native_wss_targets verify limit rows in
        IsWithin hot_seismic limit limit found
        ⊎ IsWithin universe_bootstrap
            (min limit bootstrap_native_wss_limit)
            (limit + min limit bootstrap_native_wss_limit)
            found
  unfolding native_wss_targets
  native_wss_targets_lem limit rows le =
      let found =
        verified_native_targets verify limit hot_seismic (candidates limit rows) no_search in
      let n = min limit bootstrap_native_wss_limit in
      let (few, all, asked) =
        verified_native_targets-IsWithin hot_seismic limit 0 (candidates limit rows) no_search
          (candidates-IsSought limit rows) (omega (arith, le)) tt (omega arith) in
      let asked' : found.asked ≤ limit = omega (arith, asked, length-candidates limit rows) in
      if_cases
        (λ (r : Search).
          IsWithin hot_seismic limit limit r ⊎ IsWithin universe_bootstrap n (limit + n) r)
        (nat_eq (length found.targets) 0)
        (λ e.
          let none_found : length found.targets ≡ 0 = (nat_eq_iff (length found.targets) 0).0 e in
          let (few₂, all₂, asked₂) =
            verified_native_targets-IsWithin universe_bootstrap n limit
              (bootstrap_candidates n rows) found (bootstrap-IsSought n rows)
              (omega (arith, none_found, le))
              (nil-All (IsTarget universe_bootstrap) found.targets none_found) asked' in
          inr (few₂, all₂, omega (arith, asked₂, length-bootstrap_candidates n rows)))
        (λ _. inl (few, all, asked'))
