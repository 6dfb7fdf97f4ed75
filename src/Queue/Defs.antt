-- ===== src/Queue/Defs.antt =====
-- `CandidateAdmissionQueue` of app/pipeline/candidate_queue.py, method by method. The clock's
-- readings are ticks, and each method that reads the clock takes the reading.
use coinoskobi_dexbot.Common.{
  ℕ, ◌+◌, ◌-◌, ◌*◌, max, Bool, false, Option, none, some, List, [], ◌∷◌, ◌++◌, map, if◌then◌else◌,
  not, ◌&&◌, ◌||◌, ltb, leb, nat_eq, length, take,
}
use coinoskobi_dexbot.Common.Int.{ℤ, pos, neg, pos_part}
use coinoskobi_dexbot.Common.Dict.{Dict, lookup, erase}
use coinoskobi_dexbot.Common.Text.{Text, codes, text_eq, text_Eq}
use coinoskobi_dexbot.Row.{Row, number_or_zero, number_or_other, market_state_of}
use coinoskobi_dexbot.Queue.Heap.{Item, heappush, heapify}

pub record Priority : Type 0 where
  pub heat : ℤ
  pub seismic : ℤ
  pub liquidity : ℤ
  pub volume : ℤ
  pub buys : ℤ

-- The tuple, which Python compares part by part.
abbrev pub priority_tuple : Priority → List ℤ
priority_tuple p = p.heat ∷ p.seismic ∷ p.liquidity ∷ p.volume ∷ p.buys ∷ []

pub record Entry : Type 0 where
  pub row : Row
  pub priority : Priority
  pub first_seen : ℕ
  pub last_seen : ℕ
  pub version : ℕ

pub record Queue : Type 0 where
  pub max_pending : ℕ
  pub cooldown_seconds : ℕ
  pub heap_compaction_factor : ℕ
  pub cooldown_compaction_factor : ℕ
  pub entries : Dict Text Entry
  pub best_heap : List Item
  pub worst_heap : List Item
  pub cooldown_until : Dict Text ℕ
  pub version : ℕ
  pub duplicate_collapsed : ℕ
  pub cooldown_skipped : ℕ
  pub overflow_rejected : ℕ
  pub evicted_low_priority : ℕ
  pub cold_skipped : ℕ
  pub heap_compactions : ℕ
  pub cooldown_prunes : ℕ

-- `__init__`
unfoldable pub init : ℤ → ℤ → ℤ → ℤ → Queue
init max_pending cooldown_seconds heap_factor cooldown_factor = record {
  max_pending = max 1 (pos_part max_pending);
  cooldown_seconds = pos_part cooldown_seconds;
  heap_compaction_factor = max 2 (pos_part heap_factor);
  cooldown_compaction_factor = max 2 (pos_part cooldown_factor);
  entries = [];
  best_heap = [];
  worst_heap = [];
  cooldown_until = [];
  version = 0;
  duplicate_collapsed = 0;
  cooldown_skipped = 0;
  overflow_rejected = 0;
  evicted_low_priority = 0;
  cold_skipped = 0;
  heap_compactions = 0;
  cooldown_prunes = 0;
}

-- `priority`
unfoldable pub priority_of : Row → Priority
unfolding market_state_of
priority_of row =
    let state = market_state_of row in
    record {
      heat =
          if text_eq state (codes "HOT")
          then pos 2
          else if text_eq state (codes "WARM")
          then pos 1
          else pos 0;
      seismic = number_or_zero row.seismic_score;
      liquidity = number_or_zero row.liquidity;
      volume = number_or_other row.volume_24h row.volume24;
      buys = number_or_other row.buys_24h row.buys24;
    }

abbrev pub max_heap_entries : Queue → ℕ
max_heap_entries q = q.max_pending * q.heap_compaction_factor

abbrev pub max_cooldown_entries : Queue → ℕ
max_cooldown_entries q = q.max_pending * q.cooldown_compaction_factor

-- `_is_current`
unfoldable pub is_current : Dict Text Entry → Text → ℕ → Bool
is_current entries identity version = elim (lookup identity entries) [
  | none ↦ false
  | some entry ↦ nat_eq entry.version version
]

-- The tuples that `_push_heaps` and `_rebuild_heaps` make.
abbrev pub best_item : Text → Priority → ℕ → ℕ → Item
best_item identity p version first_seen = record {
  key = map neg (priority_tuple p) ++ pos first_seen ∷ [];
  version = version;
  identity = identity;
}

abbrev pub worst_item : Text → Priority → ℕ → ℕ → Item
worst_item identity p version first_seen = record {
  key = priority_tuple p ++ neg (pos first_seen) ∷ [];
  version = version;
  identity = identity;
}

-- `_push_heaps`
unfoldable pub push_heaps : Text → Priority → ℕ → ℕ → Queue → Queue
push_heaps identity p version first_seen q = record q {
  best_heap = heappush (best_item identity p version first_seen) q.best_heap;
  worst_heap = heappush (worst_item identity p version first_seen) q.worst_heap;
}

-- The loops of `_rebuild_heaps`.
abbrev pub best_of : Text × Entry → Item
best_of x = best_item x.0 (x.1).priority (x.1).version (x.1).first_seen

abbrev pub worst_of : Text × Entry → Item
worst_of x = worst_item x.0 (x.1).priority (x.1).version (x.1).first_seen

-- `_rebuild_heaps`
unfoldable pub rebuild_heaps : Queue → Queue
rebuild_heaps q = record q {
  best_heap = heapify (map best_of q.entries);
  worst_heap = heapify (map worst_of q.entries);
  heap_compactions = q.heap_compactions + 1;
}

-- `_compact_heaps_if_needed`
unfoldable pub compact_heaps_if_needed : Queue → Queue
compact_heaps_if_needed q =
    let live = length q.entries in
    if nat_eq live 0
    then if ltb 0 (length q.best_heap) || ltb 0 (length q.worst_heap)
      then record q { best_heap = []; worst_heap = []; heap_compactions = q.heap_compactions + 1 }
      else q
    else let threshold = max q.max_pending (live * q.heap_compaction_factor) in
      if ltb threshold (length q.best_heap) || ltb threshold (length q.worst_heap)
      then rebuild_heaps q
      else q

-- The identities whose cooldown is over.
unfoldable pub expired_at : ℕ → Dict Text ℕ → List Text
expired_at now [] = []
expired_at now ((identity, until) ∷ d) =
    let rest = expired_at now d in if leb until now then identity ∷ rest else rest

-- `for identity in identities: d.pop(identity, None)`
unfoldable pub pop_all : List Text → Dict Text ℕ → Dict Text ℕ
pop_all [] d = d
pop_all (identity ∷ identities) d = pop_all identities (erase identity d)

-- `sorted(d.items(), key=lambda item: item[1])`, which keeps the order of equal keys.
unfoldable pub insort : Text × ℕ → Dict Text ℕ → Dict Text ℕ
insort x [] = x ∷ []
insort x (y ∷ d) = if leb x.1 y.1 then x ∷ y ∷ d else y ∷ insort x d

unfoldable pub sort_by_until : Dict Text ℕ → Dict Text ℕ
unfolding insort
sort_by_until [] = []
sort_by_until (x ∷ d) = insort x (sort_by_until d)

abbrev pub keys : Dict Text ℕ → List Text
keys = map (λ x. x.0)

-- The first `overflow` of the sorted cooldowns.
unfoldable pub victims : ℕ → Dict Text ℕ → Dict Text ℕ
unfolding sort_by_until
victims limit d = take (length d - limit) (sort_by_until d)

-- The earliest `overflow` cooldowns go, if the table is still too large.
unfoldable pub evict_overflow : ℕ → Dict Text ℕ → ℕ × Dict Text ℕ
unfolding victims pop_all
evict_overflow limit d =
    if ltb limit (length d)
    then (length (victims limit d), pop_all (keys (victims limit d)) d)
    else (0, d)

-- `_prune_cooldowns`
unfoldable pub prune_cooldowns : ℕ → Bool → Queue → Queue
unfolding expired_at pop_all
prune_cooldowns now force q =
    if nat_eq (length q.cooldown_until) 0
    then q
    else if not force && leb (length q.cooldown_until) (max_cooldown_entries q)
    then q
    else let expired = expired_at now q.cooldown_until in
      let (evicted, kept) =
        evict_overflow (max_cooldown_entries q) (pop_all expired q.cooldown_until) in
      record q {
        cooldown_until = kept;
        cooldown_prunes = q.cooldown_prunes + length expired + evicted;
      }

-- `len(self._cooldown_until) > self.max_cooldown_entries`
abbrev pub over_limit : Queue → Bool
over_limit q = ltb (max_cooldown_entries q) (length q.cooldown_until)

-- `_maintenance`
unfoldable pub maintenance : ℕ → Queue → Queue
maintenance now q = let q' = compact_heaps_if_needed q in prune_cooldowns now (over_limit q') q'

-- The loop of `_clean_best_heap` and `_clean_worst_heap`: what is not current is popped.
unfoldable pub clean : Dict Text Entry → List Item → List Item
clean entries [] = []
clean entries (x ∷ h) =
    let rest = clean entries h in if is_current entries x.identity x.version then x ∷ h else rest

unfoldable pub clean_best_heap : Queue → Queue
clean_best_heap q = record q { best_heap = clean q.entries q.best_heap }

unfoldable pub clean_worst_heap : Queue → Queue
clean_worst_heap q = record q { worst_heap = clean q.entries q.worst_heap }

-- `_current_worst`: the parts of the first tuple without the time, and the identity.
abbrev pub worst_found : Dict Text Entry → List Item → Option (List ℤ × Text)
worst_found entries [] = none
worst_found entries (x ∷ h) =
    if is_current entries x.identity x.version then some (take 5 x.key, x.identity) else none

unfoldable pub current_worst : Queue → Queue × Option (List ℤ × Text)
unfolding clean_worst_heap
current_worst q = let q' = clean_worst_heap q in (q', worst_found q'.entries q'.worst_heap)
