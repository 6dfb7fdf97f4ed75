-- ===== src/Queue/Storing.antt =====
-- `enqueue` of app/pipeline/candidate_queue.py under the invariant: what is stored, and what makes
-- room for it.
use coinoskobi_dexbot.Common.{
  ℕ, ◌+◌, ◌≤◌, ◌<◌, true, ◌≡◌, refl, ap, ◌⊎◌, inl, inr, some, List, ◌∷◌, arith, length, take,
  Option-cases,
}
use mathlib.Core.Path.{subst}
use coinoskobi_dexbot.Common.Lex.{lex_leb}
use coinoskobi_dexbot.Common.Dict.{
  Dict, lookup, insert, erase, insert-Unique, erase-Unique, length-insert_new, length-insert_old,
  length-erase-le,
}
use coinoskobi_dexbot.Common.Text.{Text, text_Eq}
use coinoskobi_dexbot.Row.{Row}
use coinoskobi_dexbot.Queue.Heap.{Item}
use coinoskobi_dexbot.Queue.Defs.{
  Priority, priority_tuple, Entry, Queue, best_of, worst_of, push_heaps, compact_heaps_if_needed,
  is_current, clean_worst_heap, current_worst, worst_found, max_cooldown_entries,
}
use coinoskobi_dexbot.Queue.Methods.{store}
use coinoskobi_dexbot.Queue.Backing.{entry_is_current}
use coinoskobi_dexbot.Queue.Updates.{Backs-insert, Backs-erase}
use coinoskobi_dexbot.Queue.Invariant.{
  IsValid, IsBounded, best_names, worst_names, compact_heaps-IsValid, compact_heaps_same,
  compact_heaps_cooldown, compact_heaps_le,
}
use coinoskobi_dexbot.Queue.Front.{IsFront, clean-ne-nil, front_lem, worst_front_min}

-- The entry that `store` makes.
abbrev pub stored_entry : Row → Priority → ℕ → ℕ → Queue → Entry
stored_entry row p first_seen now q = record {
  row = row;
  priority = p;
  first_seen = first_seen;
  last_seen = now;
  version = q.version + 1;
}

-- There is room, or the identity is already there.
abbrev pub HasRoom : Text → Queue → Type 0
HasRoom k q = (length q.entries < q.max_pending) ⊎ ((e : Entry) × (lookup k q.entries ≡ some e))

length-insert-le :
    (k : Text) (e : Entry) (q : Queue)
    → length q.entries ≤ q.max_pending
    → HasRoom k q
    → length (insert k e q.entries) ≤ q.max_pending
length-insert-le k e q le (inl room) = elim (Option-cases (lookup k q.entries)) [
  | inl new ↦ omega (arith, length-insert_new k e q.entries new)
  | inr (w, old) ↦ omega (arith, length-insert_old k e w q.entries old)
]
length-insert-le k e q le (inr (w, old)) = omega (arith, length-insert_old k e w q.entries old)

module _ (k : Text) (row : Row) (p : Priority) (first_seen now : ℕ) where
  -- The state before the heaps are compacted.
  pub pushed : Queue → Queue
  pushed q = push_heaps k p (q.version + 1) first_seen (record q {
    version = q.version + 1;
    entries = insert k (stored_entry row p first_seen now q) q.entries;
  })

  store_lem : (q : Queue) → store k row p first_seen now q ≡ compact_heaps_if_needed (pushed q)
  unfolding store pushed
  store_lem q = refl

  pushed-IsValid : {q : Queue} → IsValid q → HasRoom k q → IsValid (pushed q)
  unfolding pushed push_heaps
  pushed-IsValid {q} v room =
      let e = stored_entry row p first_seen now q in
      record {
        positive = v.positive;
        factor = v.factor;
        pending_le = length-insert-le k e q v.pending_le room;
        unique = insert-Unique k e q.entries v.unique;
        cooldown_unique = v.cooldown_unique;
        best = Backs-insert best_of best_names (q.version + 1) k e (omega arith) refl v.best;
        worst = Backs-insert worst_of worst_names (q.version + 1) k e (omega arith) refl v.worst;
      }

  pub store-IsValid :
      {q : Queue} → IsValid q → HasRoom k q → IsValid (store k row p first_seen now q)
  store-IsValid {q} v room = rw (store_lem q) (compact_heaps-IsValid (pushed-IsValid v room))

  pub entries-store :
      (q : Queue)
      → (store k row p first_seen now q).entries
        ≡ insert k (stored_entry row p first_seen now q) q.entries
  unfolding store pushed push_heaps
  entries-store q = (compact_heaps_same (pushed q)).entries_eq

  pub store_limits :
      (q : Queue)
      → ((store k row p first_seen now q).max_pending ≡ q.max_pending)
        × ((store k row p first_seen now q).heap_compaction_factor ≡ q.heap_compaction_factor)
        × ((store k row p first_seen now q).cooldown_compaction_factor
            ≡ q.cooldown_compaction_factor)
        × ((store k row p first_seen now q).cooldown_until ≡ q.cooldown_until)
        × ((store k row p first_seen now q).cooldown_seconds ≡ q.cooldown_seconds)
  unfolding store pushed push_heaps
  store_limits q =
      let same = compact_heaps_same (pushed q) in
      (
        same.max_eq,
        same.factor_eq,
        same.cooldown_factor_eq,
        compact_heaps_cooldown (pushed q),
        same.seconds_eq,
      )

  pub store-IsBounded :
      {q : Queue}
      → IsValid q
      → HasRoom k q
      → length q.cooldown_until ≤ max_cooldown_entries q
      → IsBounded (store k row p first_seen now q)
  unfolding pushed push_heaps
  store-IsBounded {q} v room le =
      let limits = store_limits q in
      let heaps = compact_heaps_le (pushed-IsValid v room) in
      record {
        best_le = rw (limits.0, limits.1, store_lem q) heaps.0;
        worst_le = rw (limits.0, limits.1, store_lem q) heaps.1;
        cooldown_le = rw (limits.0, limits.2, limits.3) le;
      }

-- The worst live entry, as `_current_worst` finds it.
pub record IsWorst (entries : Dict Text Entry) (k : Text) (e : Entry) : Type 0 where
  pub found : lookup k entries ≡ some e
  pub least :
      (j : Text) (e' : Entry)
      → lookup j entries ≡ some e'
      → lex_leb (priority_tuple e.priority) (priority_tuple e'.priority) ≡ true

worst_found_front :
    {entries : Dict Text Entry} {h : List Item} {x : Item} {r : List Item} {w : Entry}
    → h ≡ x ∷ r
    → IsFront worst_of entries x w
    → worst_found entries h ≡ some (priority_tuple w.priority, x.identity)
worst_found_front {entries} {h} {x} {r} {w} c f =
    let current : is_current entries x.identity x.version ≡ true =
      subst (λ n. is_current entries x.identity n ≡ true) f.version_eq
        (entry_is_current entries x.identity w f.found) in
    let key : take 5 x.key ≡ priority_tuple w.priority = ap (λ y. take 5 y.key) f.tuple_eq in
    rw (c, current) (ap (λ t. some (t, x.identity)) key)

-- With a live entry, `_current_worst` finds one whose priority is at most every other's.
pub current_worst_lem :
    {q : Queue} (k : Text) (e : Entry)
    → IsValid q
    → lookup k q.entries ≡ some e
    → (j : Text) × (w : Entry) × (current_worst q
        ≡ (clean_worst_heap q, some (priority_tuple w.priority, j)))
      × IsWorst q.entries j w
unfolding current_worst
current_worst_lem {q} k e v p =
    let (x, r, c) = clean-ne-nil worst_of worst_names k e v.worst p in
    let (w, f) = front_lem worst_of worst_names v.worst c in
    (
      x.identity,
      w,
      ap (λ o. (clean_worst_heap q, o)) (worst_found_front c f),
      record { found = f.found; least = worst_front_min f },
    )

pub erase-IsValid :
    {q : Queue} (k : Text) (n : ℕ)
    → IsValid q
    → IsValid (record q { entries = erase k q.entries; evicted_low_priority = n })
erase-IsValid {q} k n v = record {
  positive = v.positive;
  factor = v.factor;
  pending_le = omega (arith, v.pending_le, length-erase-le k q.entries);
  unique = erase-Unique k q.entries v.unique;
  cooldown_unique = v.cooldown_unique;
  best = Backs-erase best_of k v.unique v.best;
  worst = Backs-erase worst_of k v.unique v.worst;
}
