-- ===== src/Queue/Reach.antt =====
-- Whole runs of `CandidateAdmissionQueue` (app/pipeline/candidate_queue.py): the states that its
-- public methods reach from a new queue, in any order and with any readings of the clock.
use coinoskobi_dexbot.Common.{
  ℕ, ◌+◌, ◌≤◌, ◌*◌, Bool, true, ◌≡◌, refl, sym, ◌∙◌, inl, inr, Option, arith, length, le→leb, not,
  if_cases,
}
use coinoskobi_dexbot.Common.Int.{ℤ}
use coinoskobi_dexbot.Common.Dict.{insert, insert-Unique}
use coinoskobi_dexbot.Common.Text.{Text, text_Eq, lower, strip}
use coinoskobi_dexbot.Row.{Row, Field, truthy}
use coinoskobi_dexbot.Queue.Identity.{normalize_token, identity_of}
use coinoskobi_dexbot.Queue.Defs.{Queue, init, over_limit, prune_cooldowns, rebuild_heaps}
use coinoskobi_dexbot.Queue.Methods.{enqueue, pop, mark_analyzed, compact, stats, returned}
use coinoskobi_dexbot.Queue.Invariant.{
  IsValid, IsBounded, rebuild-IsValid, length-rebuild, IsValid-recount,
}
use coinoskobi_dexbot.Queue.Maintenance.{
  prune-IsValid, prune_same, prune_heaps, prune_le, maintenance-IsValid, maintenance-IsBounded,
  clean_best-IsValid,
}
use coinoskobi_dexbot.Queue.Admission.{enqueue-IsGood}
use coinoskobi_dexbot.Queue.Popping.{pop-none, pop-some, no_entry_or_some}
use mathlib.Core.Path.{subst}

pub init-IsValid : (m c f g : ℤ) → IsValid (init m c f g) × IsBounded (init m c f g)
unfolding init
init-IsValid m c f g = (
  record {
    positive = omega arith;
    factor = omega arith;
    pending_le = omega arith;
    unique = tt;
    cooldown_unique = tt;
    best = record { sorted = tt; live = λ k w p. cc; faithful = tt };
    worst = record { sorted = tt; live = λ k w p. cc; faithful = tt };
  },
  record { best_le = omega arith; worst_le = omega arith; cooldown_le = omega arith },
)

pruned-IsBounded :
    (now : ℕ) (force : Bool) {q : Queue}
    → IsValid q
    → length q.best_heap ≤ q.max_pending * q.heap_compaction_factor
    → length q.worst_heap ≤ q.max_pending * q.heap_compaction_factor
    → IsBounded (prune_cooldowns now force q)
pruned-IsBounded now force {q} v b w =
    let same = prune_same now force q in
    let heaps = prune_heaps now force q in
    record {
      best_le = rw (heaps.0, same.max_eq, same.factor_eq) b;
      worst_le = rw (heaps.1, same.max_eq, same.factor_eq) w;
      cooldown_le = rw (same.max_eq, same.cooldown_factor_eq) (prune_le now force v);
    }

pub mark_analyzed-IsGood :
    (now : ℕ) (token : Field Text) (chain : Text) (pool : Field Text) {q : Queue}
    → IsValid q
    → IsBounded q
    → IsValid (mark_analyzed now token chain pool q)
      × IsBounded (mark_analyzed now token chain pool q)
unfolding mark_analyzed
mark_analyzed-IsGood now token chain pool {q} v b =
    let k = identity_of (lower (strip chain)) (normalize_token pool) (normalize_token token) in
    let q₁ = record q { cooldown_until = insert k (now + q.cooldown_seconds) q.cooldown_until } in
    let v₁ =
      IsValid-recount q₁ v refl refl refl refl refl refl
        (insert-Unique k (now + q.cooldown_seconds) q.cooldown_until v.cooldown_unique) in
    if_cases (λ (r : Queue). IsValid r × IsBounded r) (not (truthy (normalize_token token)))
      (λ _. (v, b))
      (λ _. (
        prune-IsValid now (over_limit q₁) v₁,
        pruned-IsBounded now (over_limit q₁) v₁ b.best_le b.worst_le,
      ))

le_times : (n m f : ℕ) → n ≤ m → 2 ≤ f → n ≤ m * f
le_times n m f h k = grind arith

pub compact-IsGood :
    (now : ℕ) {q : Queue} → IsValid q → IsValid (compact now q) × IsBounded (compact now q)
unfolding compact rebuild_heaps
compact-IsGood now {q} v =
    let v₁ = rebuild-IsValid v in
    let sizes = length-rebuild q in
    let le =
      le_times (length q.entries) q.max_pending q.heap_compaction_factor v.pending_le v.factor in
    (
      prune-IsValid now true v₁,
      pruned-IsBounded now true v₁ (omega (arith, sizes.0, le)) (omega (arith, sizes.1, le)),
    )

-- A call of a public method, with the clock's reading.
pub data Step : Queue → Queue → Type 0 where
  enqueued : (now : ℕ) (row : Row) (q : Queue) → Step q (enqueue now row q).0
  popped : (now : ℕ) {q r : Queue} (row : Option Row) → pop now q ≡ returned r row → Step q r
  marked :
      (now : ℕ) (token : Field Text) (chain : Text) (pool : Field Text) (q : Queue)
      → Step q (mark_analyzed now token chain pool q)
  compacted : (now : ℕ) (q : Queue) → Step q (compact now q)

-- The states that a queue reaches from its construction.
pub data Reach (m c f g : ℤ) : Queue → Type 0 where
  new : Reach m c f g (init m c f g)
  next : {q r : Queue} → Reach m c f g q → Step q r → Reach m c f g r

returned_same : {q r : Queue} {x y : Option Row} → returned q x ≡ returned r y → q ≡ r
returned_same e = cc

pop-IsGood :
    (now : ℕ) {q r : Queue} (row : Option Row)
    → IsValid q
    → pop now q ≡ returned r row
    → IsValid r × IsBounded r
pop-IsGood now {q} {r} row v e = elim (no_entry_or_some q.entries) [
  | inl empty ↦
      let c = clean_best-IsValid v in
      subst (λ s. IsValid s × IsBounded s) (returned_same (sym (pop-none now q empty) ∙ e))
        (maintenance-IsValid now c, maintenance-IsBounded now c)
  | inr (k, w, p) ↦
      let (j, x, s, is) = pop-some now k w v p in
      subst (λ s. IsValid s × IsBounded s) (returned_same (sym is.result ∙ e))
        (is.valid, is.bounded)
]

pub Step-IsGood : {q r : Queue} → Step q r → IsValid q × IsBounded q → IsValid r × IsBounded r
Step-IsGood (enqueued now row q) h = enqueue-IsGood now row h.0 h.1
Step-IsGood (popped now row e) h = pop-IsGood now row h.0 e
Step-IsGood (marked now token chain pool q) h = mark_analyzed-IsGood now token chain pool h.0 h.1
Step-IsGood (compacted now q) h = compact-IsGood now h.0

pub Reach-IsGood : {m c f g : ℤ} {q : Queue} → Reach m c f g q → IsValid q × IsBounded q
Reach-IsGood {m} {c} {f} {g} new = init-IsValid m c f g
Reach-IsGood (next r s) = Step-IsGood s (Reach-IsGood r)

-- Whatever public methods are called on a new queue, in any order and at any readings of the
-- clock, `stats` reports `strictly_bounded`: the entries, both heaps and the cooldowns are within
-- their limits.
pub strictly_bounded_lem :
    {m c f g : ℤ} {q : Queue} → Reach m c f g q → (stats q).strictly_bounded ≡ true
unfolding stats
strictly_bounded_lem {q = q} r =
    let (v, b) = Reach-IsGood r in
    rw (
      le→leb _ _ v.pending_le,
      le→leb _ _ b.best_le,
      le→leb _ _ b.worst_le,
      le→leb _ _ b.cooldown_le,
    )
