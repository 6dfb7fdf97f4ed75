-- ===== src/Queue/Methods.antt =====
-- The public methods of `CandidateAdmissionQueue`, app/pipeline/candidate_queue.py.
use coinoskobi_dexbot.Common.{
  ℕ, suc, zero, ◌+◌, ◌*◌, Bool, true, false, Option, none, some, List, [], ◌∷◌, if◌then◌else◌, not,
  ◌&&◌, ◌||◌, ltb, leb, nat_eq, length,
}
use coinoskobi_dexbot.Common.Int.{ℤ}
use coinoskobi_dexbot.Common.Lex.{lex_leb}
use coinoskobi_dexbot.Common.Dict.{lookup, get_or, insert, erase}
use coinoskobi_dexbot.Common.Text.{Text, codes, text_eq, text_Eq, lower, strip}
use coinoskobi_dexbot.Row.{Row, Field, given, truthy, market_state_of}
use coinoskobi_dexbot.Queue.Identity.{normalize_token, identity_key, chain_of, identity_of, text_of}
use coinoskobi_dexbot.Queue.Heap.{Item}
use coinoskobi_dexbot.Queue.Defs.{
  Priority, priority_tuple, Entry, Queue, priority_of, is_current, push_heaps, rebuild_heaps,
  compact_heaps_if_needed, prune_cooldowns, over_limit, maintenance, clean_best_heap, current_worst,
}

-- The row that is kept: `dict(row)` with its token, chain and identity normalised.
unfoldable pub normalized_row : Text → Text → Row → Row
unfolding chain_of
normalized_row token identity row = record row {
  token = given token;
  chain = given (chain_of row.chain);
  identity = given identity;
}

-- The end of `enqueue`: a new version of the entry, and its two tuples.
unfoldable pub store : Text → Row → Priority → ℕ → ℕ → Queue → Queue
store identity row p first_seen now q =
    let version = q.version + 1 in
    let entry : Entry = record {
      row = row;
      priority = p;
      first_seen = first_seen;
      last_seen = now;
      version = version;
    } in
    compact_heaps_if_needed (
      push_heaps identity p version first_seen
        (record q { version = version; entries = insert identity entry q.entries }))

-- What `enqueue` does with a full queue: the worst live entry makes room for a better one.
unfoldable pub replace_worst :
    Text → Row → Priority → ℕ → Queue × Option (List ℤ × Text) → Queue × Bool
replace_worst identity row p now (q, none) = (store identity row p now now q, true)
replace_worst identity row p now (q, some (worst_priority, worst_identity)) =
    if lex_leb (priority_tuple p) worst_priority
    then (record q { overflow_rejected = q.overflow_rejected + 1 }, false)
    else (
      store identity row p now now (record q {
        entries = erase worst_identity q.entries;
        evicted_low_priority = q.evicted_low_priority + 1;
      }),
      true,
    )

-- `enqueue` from `priority = self.priority(row)` on.
unfoldable pub admit : Text → Row → Priority → ℕ → Queue → Queue × Bool
unfolding replace_worst store
admit identity row p now q = elim (lookup identity q.entries) [
  | some existing ↦ (
    store identity row p existing.first_seen now
        (record q { duplicate_collapsed = q.duplicate_collapsed + 1 }),
    true,
  )
  | none ↦
      if leb q.max_pending (length q.entries)
      then replace_worst identity row p now (current_worst q)
      else (store identity row p now now q, true)
]

-- `enqueue` after the maintenance, with what the cooldown table holds for the identity (or 0).
unfoldable pub enqueue_after : ℕ → ℕ → Text → Text → Row → Queue → Queue × Bool
enqueue_after until now token identity row q =
    if ltb now until
    then (record q { cooldown_skipped = q.cooldown_skipped + 1 }, false)
    else admit identity (normalized_row token identity row) (priority_of row) now (
        if not (nat_eq until 0) && leb until now
        then record q { cooldown_until = erase identity q.cooldown_until }
        else q)

-- `enqueue` from `now = time.monotonic()` on, for a row that has an identity.
unfoldable pub enqueue_at : ℕ → Text → Text → Row → Queue → Queue × Bool
unfolding enqueue_after
enqueue_at now token identity row q =
    let q₁ = maintenance now q in
    enqueue_after (get_or identity 0 q₁.cooldown_until) now token identity row q₁

-- `enqueue`
unfoldable pub enqueue : ℕ → Row → Queue → Queue × Bool
enqueue now row q =
    let token = normalize_token row.token in
    let identity = identity_key row in
    if not (truthy token) || not (truthy identity)
    then (q, false)
    else if text_eq (market_state_of row) (codes "COLD")
    then (record q { cold_skipped = q.cold_skipped + 1 }, false)
    else enqueue_at now (text_of token) (text_of identity) row q

-- `enqueue_many`, with the clock's reading at each row: the rows that were accepted are counted.
unfoldable pub enqueue_many : List (ℕ × Row) → Queue → Queue × ℕ
unfolding enqueue
enqueue_many [] q = (q, 0)
enqueue_many ((now, row) ∷ rows) q =
    let (q₁, accepted) = enqueue now row q in
    let (q₂, n) = enqueue_many rows q₁ in (q₂, if accepted then suc n else n)

-- `pop` returns a row or None, or raises on a key that is not there.
pub data Popped : Type 0 where
  returned : Queue → Option Row → Popped
  key_error : Popped
  out_of_fuel : Popped

-- `self._entries.pop(identity)`, the maintenance, and the row.
unfoldable pub take_entry : ℕ → Text → Queue → Popped
take_entry now identity q = elim (lookup identity q.entries) [
  | none ↦ key_error
  | some entry ↦
      returned (maintenance now (record q { entries = erase identity q.entries })) (some entry.row)
]

-- A round of the loop of `pop` over the cleaned heap; `next` is the rest of the loop.
unfoldable pub pop_round : (Queue → Popped) → ℕ → Queue → List Item → Popped
unfolding take_entry
pop_round next now q [] = returned (maintenance now q) none
pop_round next now q (x ∷ h) =
    let q₁ = record q { best_heap = h } in
    let rest = next q₁ in
    if is_current q₁.entries x.identity x.version then take_entry now x.identity q₁ else rest

-- The loop of `pop`. The clock is read by the maintenance.
unfoldable pub pop_loop : ℕ → ℕ → Queue → Popped
unfolding pop_round
pop_loop zero now q = out_of_fuel
pop_loop (suc fuel) now q =
    let q₁ = clean_best_heap q in pop_round (pop_loop fuel now) now q₁ q₁.best_heap

-- `pop`
unfoldable pub pop : ℕ → Queue → Popped
unfolding pop_loop
pop now q = pop_loop (suc (length q.best_heap)) now q

-- `mark_analyzed`; `chain` is its text, which the method's default makes `bsc`.
unfoldable pub mark_analyzed : ℕ → Field Text → Text → Field Text → Queue → Queue
unfolding normalize_token identity_of lower strip
mark_analyzed now token chain pool q =
    let normalized = normalize_token token in
    if not (truthy normalized)
    then q
    else let identity = identity_of (lower (strip chain)) (normalize_token pool) normalized in
      let q₁ = record q {
        cooldown_until = insert identity (now + q.cooldown_seconds) q.cooldown_until;
      } in
      prune_cooldowns now (over_limit q₁) q₁

-- `compact`, whose result is `stats` of the new state.
unfoldable pub compact : ℕ → Queue → Queue
compact now q = prune_cooldowns now true (rebuild_heaps q)

-- `stats`
pub record Stats : Type 0 where
  pub pending : ℕ
  pub duplicates_collapsed : ℕ
  pub cooldown_skipped : ℕ
  pub overflow_rejected : ℕ
  pub evicted_low_priority : ℕ
  pub cold_skipped : ℕ
  pub best_heap_size : ℕ
  pub worst_heap_size : ℕ
  pub cooldown_size : ℕ
  pub max_pending : ℕ
  pub max_heap_entries : ℕ
  pub max_cooldown_entries : ℕ
  pub heap_compactions : ℕ
  pub cooldown_prunes : ℕ
  pub strictly_bounded : Bool
  pub trade_permission : Bool
  pub decision_authority : Bool
  pub execution_authority : Bool

unfoldable pub stats : Queue → Stats
stats q = record {
  pending = length q.entries;
  duplicates_collapsed = q.duplicate_collapsed;
  cooldown_skipped = q.cooldown_skipped;
  overflow_rejected = q.overflow_rejected;
  evicted_low_priority = q.evicted_low_priority;
  cold_skipped = q.cold_skipped;
  best_heap_size = length q.best_heap;
  worst_heap_size = length q.worst_heap;
  cooldown_size = length q.cooldown_until;
  max_pending = q.max_pending;
  max_heap_entries = q.max_pending * q.heap_compaction_factor;
  max_cooldown_entries = q.max_pending * q.cooldown_compaction_factor;
  heap_compactions = q.heap_compactions;
  cooldown_prunes = q.cooldown_prunes;
  strictly_bounded =
      leb (length q.entries) q.max_pending
      && leb (length q.best_heap) (q.max_pending * q.heap_compaction_factor)
      && leb (length q.worst_heap) (q.max_pending * q.heap_compaction_factor)
      && leb (length q.cooldown_until) (q.max_pending * q.cooldown_compaction_factor);
  trade_permission = false;
  decision_authority = false;
  execution_authority = false;
}
