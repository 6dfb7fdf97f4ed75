-- ===== src/Queue/Invariant.antt =====
-- The invariant of `CandidateAdmissionQueue` (app/pipeline/candidate_queue.py), and the compaction of
-- its heaps under it.
use coinoskobi_dexbot.Common.{
  ℕ, suc, ◌*◌, ◌≤◌, max, ◌≡◌, refl, ap, ◌∙◌, some, List, [], ◌∷◌, map, arith, length, ltb, ◌||◌,
  nat_eq, nat_eq_iff, if_cases,
}
use coinoskobi_dexbot.Common.Dict.{Dict, lookup, Unique}
use coinoskobi_dexbot.Common.Text.{Text, text_Eq}
use coinoskobi_dexbot.Queue.Heap.{Item, length-heapify}
use coinoskobi_dexbot.Queue.Defs.{
  Entry, Queue, best_of, worst_of, rebuild_heaps, compact_heaps_if_needed,
}
use coinoskobi_dexbot.Queue.Backing.{KeepsNames, Backs}
use coinoskobi_dexbot.Queue.Updates.{Backs-rebuild, version-le}

pub record IsValid (q : Queue) : Type 0 where
  pub positive : 1 ≤ q.max_pending
  pub factor : 2 ≤ q.heap_compaction_factor
  pub pending_le : length q.entries ≤ q.max_pending
  pub unique : Unique q.entries
  pub cooldown_unique : Unique q.cooldown_until
  pub best : Backs best_of q.version q.entries q.best_heap
  pub worst : Backs worst_of q.version q.entries q.worst_heap

-- The bounds of the auxiliary tables, which hold between the calls of methods.
pub record IsBounded (q : Queue) : Type 0 where
  pub best_le : length q.best_heap ≤ q.max_pending * q.heap_compaction_factor
  pub worst_le : length q.worst_heap ≤ q.max_pending * q.heap_compaction_factor
  pub cooldown_le : length q.cooldown_until ≤ q.max_pending * q.cooldown_compaction_factor

-- What maintenance of the heaps leaves alone.
pub record SameEntries (q r : Queue) : Type 0 where
  pub entries_eq : r.entries ≡ q.entries
  pub version_eq : r.version ≡ q.version
  pub max_eq : r.max_pending ≡ q.max_pending
  pub factor_eq : r.heap_compaction_factor ≡ q.heap_compaction_factor
  pub cooldown_factor_eq : r.cooldown_compaction_factor ≡ q.cooldown_compaction_factor
  pub seconds_eq : r.cooldown_seconds ≡ q.cooldown_seconds

pub best_names : KeepsNames best_of
best_names = record { version_lem = λ x. refl; identity_lem = λ x. refl }

pub worst_names : KeepsNames worst_of
worst_names = record { version_lem = λ x. refl; identity_lem = λ x. refl }

-- A heap of an empty dict may be cleared.
Backs-none :
    (of : Text × Entry → Item) {v : ℕ} (entries : Dict Text Entry)
    → length entries ≡ 0
    → Backs of v entries []
Backs-none of [] e = record { sorted = tt; live = λ k w p. cc; faithful = tt }
Backs-none of (x ∷ d) e = absurd (omega arith)

length-map {ℓ κ} :
    {A : Type ℓ} {B : Type κ} (f : A → B) (xs : List A) → length (map f xs) ≡ length xs
length-map f [] = refl
length-map f (x ∷ xs) = ap suc (length-map f xs)

pub rebuild-IsValid : {q : Queue} → IsValid q → IsValid (rebuild_heaps q)
unfolding rebuild_heaps
rebuild-IsValid {q} v =
    let newest = λ (k : Text) (e : Entry) (p : lookup k q.entries ≡ some e).
      version-le best_of best_names k e v.best p in
    record {
      positive = v.positive;
      factor = v.factor;
      pending_le = v.pending_le;
      unique = v.unique;
      cooldown_unique = v.cooldown_unique;
      best = Backs-rebuild best_of best_names v.unique newest;
      worst = Backs-rebuild worst_of worst_names v.unique newest;
    }

pub length-rebuild :
    (q : Queue)
    → (length (rebuild_heaps q).best_heap ≡ length q.entries)
      × (length (rebuild_heaps q).worst_heap ≡ length q.entries)
unfolding rebuild_heaps
length-rebuild q = (
  length-heapify (map best_of q.entries) ∙ length-map best_of q.entries,
  length-heapify (map worst_of q.entries) ∙ length-map worst_of q.entries,
)

pub compact_heaps-IsValid : {q : Queue} → IsValid q → IsValid (compact_heaps_if_needed q)
unfolding compact_heaps_if_needed
compact_heaps-IsValid {q} v =
    if_cases IsValid (nat_eq (length q.entries) 0)
      (λ empty.
        if_cases IsValid (ltb 0 (length q.best_heap) || ltb 0 (length q.worst_heap))
          (λ _. record {
            positive = v.positive;
            factor = v.factor;
            pending_le = v.pending_le;
            unique = v.unique;
            cooldown_unique = v.cooldown_unique;
            best = Backs-none best_of q.entries ((nat_eq_iff _ 0).0 empty);
            worst = Backs-none worst_of q.entries ((nat_eq_iff _ 0).0 empty);
          })
          (λ _. v))
      (λ _.
        if_cases IsValid
          (ltb (max q.max_pending (length q.entries * q.heap_compaction_factor))
              (length q.best_heap)
            || ltb (max q.max_pending (length q.entries * q.heap_compaction_factor))
                (length q.worst_heap))
          (λ _. rebuild-IsValid v) (λ _. v))

pub compact_heaps_same : (q : Queue) → SameEntries q (compact_heaps_if_needed q)
unfolding compact_heaps_if_needed rebuild_heaps
compact_heaps_same q = ground arith

pub compact_heaps_cooldown :
    (q : Queue) → (compact_heaps_if_needed q).cooldown_until ≡ q.cooldown_until
unfolding compact_heaps_if_needed rebuild_heaps
compact_heaps_cooldown q = ground arith

le_product : (m n f : ℕ) → n ≤ m → 1 ≤ f → (n * f ≤ m * f) × (m ≤ m * f)
le_product m n f h k = (grind arith, grind arith)

-- After the compaction both heaps are within the declared maximum.
pub compact_heaps_le :
    {q : Queue}
    → IsValid q
    → (length (compact_heaps_if_needed q).best_heap ≤ q.max_pending * q.heap_compaction_factor)
      × (length (compact_heaps_if_needed q).worst_heap ≤ q.max_pending * q.heap_compaction_factor)
unfolding compact_heaps_if_needed
compact_heaps_le {q} v =
    ground (
      arith,
      le_product q.max_pending (length q.entries) q.heap_compaction_factor,
      length-rebuild q,
    )

-- The invariant reads neither the counters nor, but for its keys, the cooldown table.
pub IsValid-recount :
    {q : Queue} (r : Queue)
    → IsValid q
    → r.max_pending ≡ q.max_pending
    → r.heap_compaction_factor ≡ q.heap_compaction_factor
    → r.entries ≡ q.entries
    → r.version ≡ q.version
    → r.best_heap ≡ q.best_heap
    → r.worst_heap ≡ q.worst_heap
    → Unique r.cooldown_until
    → IsValid r
IsValid-recount r v m f e n b w u = record {
  positive = rw m v.positive;
  factor = rw f v.factor;
  pending_le = rw (m, e) v.pending_le;
  unique = rw e v.unique;
  cooldown_unique = u;
  best = rw (n, e, b) v.best;
  worst = rw (n, e, w) v.worst;
}

-- A state whose tables are no larger keeps the bounds.
pub IsBounded-shrink :
    {q : Queue} (r : Queue)
    → IsBounded q
    → r.max_pending ≡ q.max_pending
    → r.heap_compaction_factor ≡ q.heap_compaction_factor
    → r.cooldown_compaction_factor ≡ q.cooldown_compaction_factor
    → length r.best_heap ≤ length q.best_heap
    → length r.worst_heap ≤ length q.worst_heap
    → length r.cooldown_until ≤ length q.cooldown_until
    → IsBounded r
IsBounded-shrink r b e f g x y z = record {
  best_le = rw (e, f) (omega (arith, b.best_le));
  worst_le = rw (e, f) (omega (arith, b.worst_le));
  cooldown_le = rw (e, g) (omega (arith, b.cooldown_le));
}

pub IsBounded-recount :
    {q : Queue} (r : Queue)
    → IsBounded q
    → r.max_pending ≡ q.max_pending
    → r.heap_compaction_factor ≡ q.heap_compaction_factor
    → r.cooldown_compaction_factor ≡ q.cooldown_compaction_factor
    → r.best_heap ≡ q.best_heap
    → r.worst_heap ≡ q.worst_heap
    → r.cooldown_until ≡ q.cooldown_until
    → IsBounded r
IsBounded-recount r b e f g x y z =
    IsBounded-shrink r b e f g (omega (arith, ap length x)) (omega (arith, ap length y))
      (omega (arith, ap length z))
