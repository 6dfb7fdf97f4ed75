-- ===== src/Queue/Maintenance.antt =====
-- `_prune_cooldowns`, `_maintenance` and the cleaning of the heaps of
-- `CandidateAdmissionQueue` (app/pipeline/candidate_queue.py) under its invariant.
use coinoskobi_dexbot.Common.{
  ℕ, ◌≤◌, Bool, ◌≡◌, ◌∙◌, arith, length, leb, ◌&&◌, not, nat_eq, nat_eq_iff, if_cases,
}
use coinoskobi_dexbot.Common.Text.{text_Eq}
use coinoskobi_dexbot.Queue.Defs.{
  Queue, best_of, worst_of, compact_heaps_if_needed, prune_cooldowns, over_limit, maintenance,
  clean_best_heap, clean_worst_heap, max_cooldown_entries, expired_at, pop_all,
}
use coinoskobi_dexbot.Queue.Backing.{Backs-clean}
use coinoskobi_dexbot.Queue.Cooldown.{pop_all-Unique, evict-Unique, length-evict}
use coinoskobi_dexbot.Queue.Invariant.{
  IsValid, IsBounded, SameEntries, best_names, worst_names, compact_heaps-IsValid,
  compact_heaps_same, compact_heaps_le,
}

-- The state with another cooldown table.
pub prune_same : (now : ℕ) (force : Bool) (q : Queue) → SameEntries q (prune_cooldowns now force q)
unfolding prune_cooldowns
prune_same now force q = ground arith

-- The invariant does not depend on the counters, and on the cooldown table only by its keys.
pub prune-IsValid :
    (now : ℕ) (force : Bool) {q : Queue} → IsValid q → IsValid (prune_cooldowns now force q)
unfolding prune_cooldowns
prune-IsValid now force {q} v =
    if_cases IsValid (nat_eq (length q.cooldown_until) 0) (λ _. v)
      (λ _.
        if_cases IsValid (not force && leb (length q.cooldown_until) (max_cooldown_entries q))
          (λ _. v)
          (λ _. record {
            positive = v.positive;
            factor = v.factor;
            pending_le = v.pending_le;
            unique = v.unique;
            cooldown_unique =
                evict-Unique (max_cooldown_entries q)
                  (pop_all (expired_at now q.cooldown_until) q.cooldown_until)
                  (pop_all-Unique (expired_at now q.cooldown_until) q.cooldown_until
                    v.cooldown_unique);
            best = v.best;
            worst = v.worst;
          }))

pub prune_heaps :
    (now : ℕ) (force : Bool) (q : Queue)
    → ((prune_cooldowns now force q).best_heap ≡ q.best_heap)
      × ((prune_cooldowns now force q).worst_heap ≡ q.worst_heap)
unfolding prune_cooldowns
prune_heaps now force q = ground arith

-- However it is called, the pruning leaves the cooldown table within its limit.
pub prune_le :
    (now : ℕ) (force : Bool) {q : Queue}
    → IsValid q
    → length (prune_cooldowns now force q).cooldown_until ≤ max_cooldown_entries q
unfolding prune_cooldowns
prune_le now force {q} v =
    if_cases (λ (r : Queue). length r.cooldown_until ≤ max_cooldown_entries q)
      (nat_eq (length q.cooldown_until) 0)
      (λ e. ground (arith, nat_eq_iff (length q.cooldown_until) 0))
      (λ _.
        if_cases (λ (r : Queue). length r.cooldown_until ≤ max_cooldown_entries q)
          (not force && leb (length q.cooldown_until) (max_cooldown_entries q))
          (λ within. ground arith)
          (λ _. omega (
            arith,
            length-evict (max_cooldown_entries q)
                (pop_all (expired_at now q.cooldown_until) q.cooldown_until)
                (pop_all-Unique (expired_at now q.cooldown_until) q.cooldown_until
                  v.cooldown_unique),
          )))

SameEntries-trans : {q r s : Queue} → SameEntries q r → SameEntries r s → SameEntries q s
SameEntries-trans a b = record {
  entries_eq = b.entries_eq ∙ a.entries_eq;
  version_eq = b.version_eq ∙ a.version_eq;
  max_eq = b.max_eq ∙ a.max_eq;
  factor_eq = b.factor_eq ∙ a.factor_eq;
  cooldown_factor_eq = b.cooldown_factor_eq ∙ a.cooldown_factor_eq;
  seconds_eq = b.seconds_eq ∙ a.seconds_eq;
}

pub maintenance-IsValid : (now : ℕ) {q : Queue} → IsValid q → IsValid (maintenance now q)
unfolding maintenance
maintenance-IsValid now {q} v = prune-IsValid now _ (compact_heaps-IsValid v)

pub maintenance_same : (now : ℕ) (q : Queue) → SameEntries q (maintenance now q)
unfolding maintenance
maintenance_same now q =
    SameEntries-trans (compact_heaps_same q) (prune_same now _ (compact_heaps_if_needed q))

-- The maintenance brings every auxiliary table within its bound.
pub maintenance-IsBounded : (now : ℕ) {q : Queue} → IsValid q → IsBounded (maintenance now q)
unfolding maintenance
maintenance-IsBounded now {q} v =
    let r = compact_heaps_if_needed q in
    let same = compact_heaps_same q in
    let after = prune_same now (over_limit r) r in
    let heaps = prune_heaps now (over_limit r) r in
    let le = compact_heaps_le v in
    record {
      best_le = rw (heaps.0, after.max_eq, after.factor_eq, same.max_eq, same.factor_eq) le.0;
      worst_le = rw (heaps.1, after.max_eq, after.factor_eq, same.max_eq, same.factor_eq) le.1;
      cooldown_le =
          rw (after.max_eq, after.cooldown_factor_eq)
            (prune_le now (over_limit r) (compact_heaps-IsValid v));
    }

pub clean_best-IsValid : {q : Queue} → IsValid q → IsValid (clean_best_heap q)
unfolding clean_best_heap
clean_best-IsValid {q} v = record {
  positive = v.positive;
  factor = v.factor;
  pending_le = v.pending_le;
  unique = v.unique;
  cooldown_unique = v.cooldown_unique;
  best = Backs-clean best_of best_names v.best;
  worst = v.worst;
}

pub clean_worst-IsValid : {q : Queue} → IsValid q → IsValid (clean_worst_heap q)
unfolding clean_worst_heap
clean_worst-IsValid {q} v = record {
  positive = v.positive;
  factor = v.factor;
  pending_le = v.pending_le;
  unique = v.unique;
  cooldown_unique = v.cooldown_unique;
  best = v.best;
  worst = Backs-clean worst_of worst_names v.worst;
}
