-- ===== src/Queue/Cooling.antt =====
-- `mark_analyzed` and `compact` of app/pipeline/candidate_queue.py: which identity is cooled, until
-- when, and what that does to later calls of `enqueue`.
use coinoskobi_dexbot.Common.{
  ℕ, suc, ◌+◌, ◌≤◌, ◌<◌, true, false, ◌≡◌, ◌↔◌, refl, sym, ap, ◌∙◌, inl, inr, some, List, [], ◌∷◌,
  All, arith, length, Option-cases, nat_eq, nat_eq_iff, if◌then◌else◌, if_cases,
}
use coinoskobi_dexbot.Common.Dict.{
  Dict, lookup, insert, lookup-insert, erase, length-erase-le, length-insert_new, length-insert_old,
}
use coinoskobi_dexbot.Common.Text.{Text, text_Eq, text_eq, text_eq_iff, lower, strip}
use coinoskobi_dexbot.Common.Text.Strip.{lower-strip_idem}
use coinoskobi_dexbot.Row.{Row, Field, given, truthy, nonempty, text_or}
use coinoskobi_dexbot.Queue.Identity.{
  bsc, pool_identity, normalize_token, identity_key, identity_of, text_of, chain_of,
}
use coinoskobi_dexbot.Queue.Defs.{
  Queue, max_cooldown_entries, prune_cooldowns, rebuild_heaps, expired_at, pop_all, evict_overflow,
}
use coinoskobi_dexbot.Queue.Methods.{mark_analyzed, compact, enqueue, enqueue_many}
use coinoskobi_dexbot.Queue.Invariant.{IsValid, IsBounded}
use coinoskobi_dexbot.Queue.Cooldown.{running_kept, kept_running}
use coinoskobi_dexbot.Queue.Candidate.{IsCandidate}
use coinoskobi_dexbot.Queue.Effects.{enqueue_cooling}
use coinoskobi_dexbot.Queue.Admission.{enqueue-IsGood}
use coinoskobi_dexbot.Queue.Reach.{mark_analyzed-IsGood}

-- The identity that `mark_analyzed` cools.
abbrev pub marked_identity : Field Text → Text → Field Text → Text
marked_identity token chain pool =
    identity_of (lower (strip chain)) (normalize_token pool) (normalize_token token)

length-insert-le : (k : Text) (v : ℕ) (d : Dict Text ℕ) → length (insert k v d) ≤ suc (length d)
length-insert-le k v d = elim (Option-cases (lookup k d)) [
  | inl new ↦ omega (arith, length-insert_new k v d new)
  | inr (w, old) ↦ omega (arith, length-insert_old k v w d old)
]

-- With room in the table the identity is cooled until the reading plus the cooldown, and the other
-- cooldowns stay.
pub lookup-mark_analyzed :
    (now : ℕ) (token : Field Text) (chain : Text) (pool : Field Text) (q : Queue) (k : Text)
    → length q.cooldown_until < max_cooldown_entries q
    → truthy (normalize_token token) ≡ true
    → lookup k (mark_analyzed now token chain pool q).cooldown_until ≡ (
        if text_eq k (marked_identity token chain pool)
        then some (now + q.cooldown_seconds)
        else lookup k q.cooldown_until)
unfolding mark_analyzed prune_cooldowns
lookup-mark_analyzed now token chain pool q k room named =
    let j = marked_identity token chain pool in
    let d = insert j (now + q.cooldown_seconds) q.cooldown_until in
    let le : length d ≤ max_cooldown_entries q =
      omega (arith, length-insert-le j (now + q.cooldown_seconds) q.cooldown_until) in
    let stays : (mark_analyzed now token chain pool q).cooldown_until ≡ d =
      rw named (ground arith) in
    ap (lookup k) stays ∙ lookup-insert k j (now + q.cooldown_seconds) q.cooldown_until

-- The identity of a row with a pool.
pool_key :
    (row : Row) (k : Text)
    → identity_key row ≡ some k
    → truthy (normalize_token row.pool) ≡ true
    → k
      ≡ pool_identity
          (if nonempty (chain_of row.chain) then chain_of row.chain else bsc)
          (text_of (normalize_token row.pool))
unfolding identity_key identity_of
pool_key row k h p = ground arith

-- The chain of a kept row is stripped and lowered already.
chain_of_idem : (chain : Field Text) → lower (strip (chain_of chain)) ≡ chain_of chain
unfolding chain_of
chain_of_idem chain = lower-strip_idem (text_or chain bsc)

-- A kept row with a pool and a chain is cooled under the identity that it was enqueued by.
pub marked_identity_lem :
    (row : Row) (token : Field Text) (k : Text)
    → identity_key row ≡ some k
    → truthy (normalize_token row.pool) ≡ true
    → nonempty (chain_of row.chain) ≡ true
    → marked_identity token (chain_of row.chain) row.pool ≡ k
unfolding identity_of
marked_identity_lem row token k h p c =
    rw (chain_of_idem row.chain, p) (sym (pool_key row k h p ∙ rw c))

-- What the engine cools after an analysis of the kept row, by the row's own token, chain and pool.
abbrev pub mark_kept : ℕ → Text → Row → Queue → Queue
mark_kept now token row q = mark_analyzed now (given token) (chain_of row.chain) row.pool q

-- A later call of `enqueue`, with a candidate of an identity.
abbrev pub IsCallOf : Text → ℕ → ℕ × Row → Type 0
IsCallOf k until (later, row) = IsCandidate row k × (later < until)

-- While a cooldown runs, no call of `enqueue` with its identity does anything.
calls_refused :
    (k : Text) (until : ℕ) (calls : List (ℕ × Row)) (q : Queue)
    → IsValid q
    → IsBounded q
    → lookup k q.cooldown_until ≡ some until
    → All (IsCallOf k until) calls
    → ((enqueue_many calls q).1 ≡ 0) × ((enqueue_many calls q).0.entries ≡ q.entries)
unfolding enqueue_many
calls_refused k until [] q v b cooled a = (refl, refl)
calls_refused k until ((later, row) ∷ calls) q v b cooled ((c, soon), a) =
    let r = (enqueue later row q).0 in
    let (refused, kept, same, _) = enqueue_cooling later c b cooled soon in
    let (v', b') = enqueue-IsGood later row v b in
    let (none_accepted, kept') =
      calls_refused k until calls r v' b' (ap (lookup k) same ∙ cooled) a in
    (rw refused none_accepted, kept' ∙ kept)

-- In a queue with the invariant, the bounds and room for one more cooldown: when the kept row of a
-- candidate with a pool and a chain is marked as analyzed, the calls of `enqueue` that come next,
-- with any candidates of the same identity and before the cooldown is over, are all refused, and
-- change no entry.
pub mark_then_refused :
    (now : ℕ) (calls : List (ℕ × Row)) (token k : Text) (row : Row) (q : Queue)
    → identity_key row ≡ some k
    → IsValid q
    → IsBounded q
    → length q.cooldown_until < max_cooldown_entries q
    → truthy (normalize_token (given token)) ≡ true
    → truthy (normalize_token row.pool) ≡ true
    → nonempty (chain_of row.chain) ≡ true
    → All (IsCallOf k (now + q.cooldown_seconds)) calls
    → ((enqueue_many calls (mark_kept now token row q)).1 ≡ 0)
      × ((enqueue_many calls (mark_kept now token row q)).0.entries
          ≡ (mark_kept now token row q).entries)
mark_then_refused now calls token k row q key v b room named pool chain soon =
    let r = mark_kept now token row q in
    let (v', b') = mark_analyzed-IsGood now (given token) (chain_of row.chain) row.pool v b in
    let same = marked_identity_lem row (given token) k key pool chain in
    let cooled : lookup k r.cooldown_until ≡ some (now + q.cooldown_seconds) =
      lookup-mark_analyzed now (given token) (chain_of row.chain) row.pool q k room named
      ∙ rw (same, (text_eq_iff k k).1 refl) in
    calls_refused k (now + q.cooldown_seconds) calls r v' b' cooled soon

nil_of_not_nonempty : (s : Text) → nonempty s ≡ false → s ≡ []
nil_of_not_nonempty [] h = refl
nil_of_not_nonempty (c ∷ s) h = cc

blank_identity :
    (row : Row) (token : Field Text)
    → truthy (normalize_token row.pool) ≡ true
    → nonempty (chain_of row.chain) ≡ false
    → marked_identity token (chain_of row.chain) row.pool
      ≡ pool_identity [] (text_of (normalize_token row.pool))
unfolding identity_of
blank_identity row token pool blank =
    rw (chain_of_idem row.chain, pool, nil_of_not_nonempty (chain_of row.chain) blank)

-- In a queue with room for one more cooldown: marking the kept row of a candidate with a pool and
-- a blank chain leaves the cooldown of the identity that the row was enqueued under as it was.
pub blank_chain_not_cooled :
    (now : ℕ) (token k : Text) (row : Row) (q : Queue)
    → identity_key row ≡ some k
    → length q.cooldown_until < max_cooldown_entries q
    → truthy (normalize_token (given token)) ≡ true
    → truthy (normalize_token row.pool) ≡ true
    → nonempty (chain_of row.chain) ≡ false
    → lookup k (mark_kept now token row q).cooldown_until ≡ lookup k q.cooldown_until
blank_chain_not_cooled now token k row q h room named pool blank =
    let key : k ≡ pool_identity bsc (text_of (normalize_token row.pool)) =
      pool_key row k h pool ∙ rw blank in
    lookup-mark_analyzed now (given token) (chain_of row.chain) row.pool q k room named
    ∙ rw (key, blank_identity row (given token) pool blank)

-- The eviction does nothing within the limit.
evict_within : (limit : ℕ) (d : Dict Text ℕ) → length d ≤ limit → (evict_overflow limit d).1 ≡ d
unfolding evict_overflow
evict_within limit d le = ground arith

length-pop_all-le : (ks : List Text) (d : Dict Text ℕ) → length (pop_all ks d) ≤ length d
unfolding pop_all
length-pop_all-le [] d = omega arith
length-pop_all-le (k ∷ ks) d = omega (arith, length-pop_all-le ks (erase k d), length-erase-le k d)

empty_expired : (now : ℕ) (d : Dict Text ℕ) → length d ≡ 0 → d ≡ pop_all (expired_at now d) d
unfolding pop_all expired_at
empty_expired now [] e = refl
empty_expired now (x ∷ d) e = absurd (omega arith)

cooldown-compact :
    (now : ℕ) {q : Queue}
    → IsBounded q
    → (compact now q).cooldown_until ≡ pop_all (expired_at now q.cooldown_until) q.cooldown_until
unfolding compact prune_cooldowns rebuild_heaps
cooldown-compact now {q} b =
    if_cases
      (λ (r : Queue). r.cooldown_until ≡ pop_all (expired_at now q.cooldown_until) q.cooldown_until)
      (nat_eq (length q.cooldown_until) 0)
      (λ e. empty_expired now q.cooldown_until ((nat_eq_iff _ 0).0 e))
      (λ _. evict_within (max_cooldown_entries q) _ (
        omega (
          arith,
          b.cooldown_le,
          length-pop_all-le (expired_at now q.cooldown_until) q.cooldown_until,
        )))

-- In a queue with the invariant and the bounds, `compact` keeps exactly the cooldowns that are
-- still running.
pub compact_cooldowns :
    (now : ℕ) {q : Queue} (k : Text) (until : ℕ)
    → IsValid q
    → IsBounded q
    → (lookup k (compact now q).cooldown_until ≡ some until)
      ↔ ((now < until) × (lookup k q.cooldown_until ≡ some until))
compact_cooldowns now {q} k until v b =
    let same = cooldown-compact now b in
    (
      λ p.
          kept_running now q.cooldown_until k until v.cooldown_unique
            (sym (ap (lookup k) same) ∙ p),
      λ p. ap (lookup k) same ∙ running_kept now q.cooldown_until k until v.cooldown_unique p.1 p.0,
    )
