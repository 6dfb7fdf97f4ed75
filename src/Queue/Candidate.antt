-- ===== src/Queue/Candidate.antt =====
-- The rows that `enqueue` of app/pipeline/candidate_queue.py looks at, and how far they get.
use coinoskobi_dexbot.Common.{
  ℕ, ◌≤◌, true, false, ◌≡◌, ap, ◌∙◌, Option, none, some, [], ◌∷◌, arith, length, not, ◌&&◌,
  if◌then◌else◌, if_cases,
}
use mathlib.Core.Path.{subst}
use coinoskobi_dexbot.Common.Dict.{lookup, get_or, get_or-none}
use coinoskobi_dexbot.Common.Text.{Text, text_Eq, text_eq, codes}
use coinoskobi_dexbot.Row.{Row, truthy, nonempty, market_state_of}
use coinoskobi_dexbot.Queue.Identity.{
  bsc, normalize_token, identity_key, identity_of, text_of, chain_of,
}
use coinoskobi_dexbot.Queue.Defs.{
  priority_of, Queue, max_cooldown_entries, maintenance, prune_cooldowns, compact_heaps_if_needed,
}
use coinoskobi_dexbot.Queue.Methods.{admit, enqueue_after, enqueue_at, enqueue, normalized_row}
use coinoskobi_dexbot.Queue.Invariant.{IsBounded, compact_heaps_cooldown, compact_heaps_same}

-- Within the bounds the maintenance leaves the cooldowns alone.
pub maintenance_cooldown :
    (now : ℕ) {q : Queue} → IsBounded q → (maintenance now q).cooldown_until ≡ q.cooldown_until
unfolding maintenance prune_cooldowns
maintenance_cooldown now {q} b =
    let r = compact_heaps_if_needed q in
    let same = compact_heaps_same q in
    let same_cooldown = compact_heaps_cooldown q in
    let le : length r.cooldown_until ≤ max_cooldown_entries r =
      rw (same_cooldown, same.max_eq, same.cooldown_factor_eq) b.cooldown_le in
    ground arith

nonempty_identity :
    (chain : Text) (pool token : Option Text) → nonempty (identity_of chain pool token) ≡ true
unfolding identity_of
nonempty_identity [] pool token = ground arith
nonempty_identity (c ∷ s) pool token = ground arith

identity_key_truthy : (row : Row) (k : Text) → identity_key row ≡ some k → nonempty k ≡ true
unfolding identity_key
identity_key_truthy row k h =
    if_cases (λ o. o ≡ some k → nonempty k ≡ true)
      (not (truthy (normalize_token row.token)) && not (truthy (normalize_token row.pool)))
      (λ _ e. cc)
      (λ _ e.
        subst (λ t. nonempty t ≡ true) (ap text_of e)
          (nonempty_identity (if nonempty (chain_of row.chain) then chain_of row.chain else bsc)
            (normalize_token row.pool) (normalize_token row.token)))
      h

-- A row that `enqueue` looks at: it has a token and an identity, and is not cold.
pub record IsCandidate (row : Row) (k : Text) : Type 0 where
  pub token_given : truthy (normalize_token row.token) ≡ true
  pub identity_eq : identity_key row ≡ some k
  pub not_cold : text_eq (market_state_of row) (codes "COLD") ≡ false

module _ (now : ℕ) {row : Row} {k : Text} (candidate : IsCandidate row k) where
  pub reaches :
      (q : Queue) → enqueue now row q ≡ enqueue_at now (text_of (normalize_token row.token)) k row q
  unfolding enqueue
  reaches q = rw (
    candidate.token_given,
    candidate.identity_eq,
    identity_key_truthy row k candidate.identity_eq,
    candidate.not_cold,
  )

  -- Without a cooldown the row is admitted, after the maintenance.
  pub admits :
      {q : Queue}
      → IsBounded q
      → lookup k q.cooldown_until ≡ none
      → enqueue now row q
        ≡ admit k
            (normalized_row (text_of (normalize_token row.token)) k row)
            (priority_of row)
            now
            (maintenance now q)
  unfolding enqueue_at
  admits {q} b p =
      let r = maintenance now q in
      let same : r.cooldown_until ≡ q.cooldown_until = maintenance_cooldown now b in
      let found : get_or k 0 r.cooldown_until ≡ 0 = get_or-none k 0 r.cooldown_until (rw same p) in
      reaches q
      ∙ ap (λ u. enqueue_after u now (text_of (normalize_token row.token)) k row r) found
      ∙ ground arith
