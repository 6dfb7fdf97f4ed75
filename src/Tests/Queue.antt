-- ===== src/Tests/Queue.antt =====
-- `CandidateAdmissionQueue` of app/pipeline/candidate_queue.py on small inputs.
use coinoskobi_dexbot.Common.{List, ◌≤◌, ◌<◌, true, ◌≡◌, refl, none, some, [], ◌∷◌, length, arith}
use coinoskobi_dexbot.Common.Int.{ℤ, pos}
use coinoskobi_dexbot.Common.Dict.{lookup}
use coinoskobi_dexbot.Common.Lex.{lex_leb}
use coinoskobi_dexbot.Common.Text.{Text, codes, text_Eq}
use coinoskobi_dexbot.Row.{Row, missing, null, given, market_state_of}
use coinoskobi_dexbot.Queue.Identity.{bsc, normalize_token, chain_of, identity_key, text_of}
use coinoskobi_dexbot.Queue.Heap.{heappush}
use coinoskobi_dexbot.Queue.Defs.{
  Queue, Entry, init, priority_of, push_heaps, compact_heaps_if_needed, best_item, prune_cooldowns,
  evict_overflow, maintenance, clean, is_current, max_cooldown_entries, current_worst,
}
use coinoskobi_dexbot.Queue.Methods.{
  normalized_row, admit, enqueue_at, enqueue, enqueue_many, mark_analyzed, compact, stats,
}
use coinoskobi_dexbot.Queue.Invariant.{IsValid, IsBounded}
use coinoskobi_dexbot.Queue.Eviction.{prune_earliest}
use coinoskobi_dexbot.Queue.Storing.{IsWorst}
use coinoskobi_dexbot.Queue.Popping.{IsPopped, pop-some}
use coinoskobi_dexbot.Queue.Candidate.{IsCandidate}
use coinoskobi_dexbot.Queue.Effects.{Contest, enqueue_full, enqueue_duplicate}
use coinoskobi_dexbot.Queue.Cooling.{mark_kept, mark_then_refused, blank_chain_not_cooled}
use coinoskobi_dexbot.Queue.Reach.{
  Reach, new, next, enqueued, marked, compacted, Reach-IsGood, strictly_bounded_lem,
}
use mathlib.Core.List.{Perm}
use coinoskobi_dexbot.Scheduler.Lanes.{Lanes, Counts, Job, ordered_rows}
use coinoskobi_dexbot.Scheduler.Drain.{IsOrdered}
use coinoskobi_dexbot.Scheduler.Pool.{total_of}
use coinoskobi_dexbot.Scheduler.Feed.{drain_by_lane_and_chain}
use coinoskobi_dexbot.Scheduler.Serving.{live_rows, IsDrained, drain_by_lane_and_chain_lem}

abbrev row_of : Text → Text → Text → ℤ → Row
row_of token pool state liquidity = record {
  token = given token;
  pool = given pool;
  chain = missing;
  market_state = given state;
  seismic_score = missing;
  liquidity = given liquidity;
  volume_24h = missing;
  volume24 = missing;
  buys_24h = missing;
  buys24 = null;
  identity = missing;
  conveyor = missing;
  others = [];
}

abbrev calm : Row
calm = row_of (codes "0xA1") (codes "BSC_0xP1") (codes " warm") (pos 10)

abbrev hot : Row
hot = row_of (codes "0xA2") (codes "0xP2") (codes "hot") (pos 5)

abbrev small : Queue
small = init (pos 1) (pos 20) (pos 2) (pos 2)

calm_key : identity_key calm ≡ some (codes "bsc:pool:0xp1")
unfolding identity_key
calm_key = refl

abbrev calm_id : Text
calm_id = codes "bsc:pool:0xp1"

abbrev hot_id : Text
hot_id = codes "bsc:pool:0xp2"

abbrev one_row : Queue
one_row = (enqueue 5 calm small).0

abbrev two_seen : Queue
two_seen = (enqueue 6 hot one_row).0

-- The candidate that was taken last is marked.
abbrev cooled : Queue
cooled = mark_analyzed 7 (given (codes "0xa2")) bsc (given (codes "0xp2")) two_seen

abbrev roomy : Queue
roomy = (enqueue 5 calm (init (pos 3) (pos 20) (pos 2) (pos 2))).0

one_row_reached : Reach (pos 1) (pos 20) (pos 2) (pos 2) one_row
one_row_reached = next new (enqueued 5 calm small)

cooled_reached : Reach (pos 1) (pos 20) (pos 2) (pos 2) cooled
cooled_reached =
    next (next one_row_reached (enqueued 6 hot one_row))
      (marked 7 (given (codes "0xa2")) bsc (given (codes "0xp2")) two_seen)

strictly_bounded_example : (stats (compact 40 cooled)).strictly_bounded ≡ true
strictly_bounded_example = strictly_bounded_lem (next cooled_reached (compacted 40 cooled))

-- The better row takes the place of the other.
better_row_stays : length two_seen.entries ≡ 1
unfolding enqueue enqueue_at admit init maintenance compact_heaps_if_needed prune_cooldowns
    identity_key market_state_of push_heaps heappush current_worst priority_of clean is_current
    lex_leb
better_row_stays = refl

calm_candidate : IsCandidate calm calm_id
unfolding identity_key market_state_of
calm_candidate = record { token_given = refl; identity_eq = refl; not_cold = refl }

hot_candidate : IsCandidate hot hot_id
unfolding identity_key market_state_of
hot_candidate = record { token_given = refl; identity_eq = refl; not_cold = refl }

abbrev calm_entry : Entry
calm_entry = record {
  row = normalized_row (codes "0xa1") calm_id calm;
  priority = priority_of calm;
  first_seen = 5;
  last_seen = 5;
  version = 1;
}

calm_waits : lookup calm_id one_row.entries ≡ some calm_entry
unfolding enqueue enqueue_at admit init maintenance compact_heaps_if_needed prune_cooldowns
    identity_key market_state_of push_heaps heappush
calm_waits = refl

hot_unknown : lookup hot_id one_row.entries ≡ none
unfolding enqueue enqueue_at admit init maintenance compact_heaps_if_needed prune_cooldowns
    identity_key market_state_of push_heaps heappush
hot_unknown = refl

calm_free : lookup calm_id one_row.cooldown_until ≡ none
unfolding enqueue enqueue_at admit init maintenance compact_heaps_if_needed prune_cooldowns
    identity_key market_state_of push_heaps heappush
calm_free = refl

hot_free : lookup hot_id one_row.cooldown_until ≡ none
unfolding enqueue enqueue_at admit init maintenance compact_heaps_if_needed prune_cooldowns
    identity_key market_state_of push_heaps heappush
hot_free = refl

one_row_full : one_row.max_pending ≤ length one_row.entries
unfolding enqueue enqueue_at admit init maintenance compact_heaps_if_needed prune_cooldowns
    identity_key market_state_of push_heaps heappush
one_row_full = omega arith

pop-some_example : (j : Text) × (w : Entry) × (r : Queue) × IsPopped one_row 9 j w r
pop-some_example = pop-some 9 calm_id calm_entry (Reach-IsGood one_row_reached).0 calm_waits

-- The best heap still holds a tuple of a row that is gone.
abbrev stale : Queue
stale = record small { best_heap = best_item calm_id (priority_of calm) 1 5 ∷ [] }

enqueue_full_example :
    (j : Text) × (w : Entry) × IsWorst one_row.entries j w × Contest 6 hot_candidate one_row j w
enqueue_full_example =
    let good = Reach-IsGood one_row_reached in
    enqueue_full 6 hot_candidate good.0 good.1 hot_free hot_unknown one_row_full

enqueue_duplicate_example :
    (new_entry : Entry) × ((enqueue 8 calm one_row).1 ≡ true)
    × (lookup calm_id (enqueue 8 calm one_row).0.entries ≡ some new_entry)
    × (new_entry.row ≡ normalized_row (text_of (normalize_token calm.token)) calm_id calm)
    × (new_entry.priority ≡ priority_of calm)
    × (new_entry.first_seen ≡ calm_entry.first_seen)
    × (new_entry.last_seen ≡ 8)
    × (length (enqueue 8 calm one_row).0.entries ≡ length one_row.entries)
enqueue_duplicate_example =
    enqueue_duplicate 8 calm_candidate (Reach-IsGood one_row_reached).1 calm_free calm_waits

roomy-Reach : Reach (pos 3) (pos 20) (pos 2) (pos 2) roomy
roomy-Reach = next new (enqueued 5 calm (init (pos 3) (pos 20) (pos 2) (pos 2)))

roomy-IsBounded : IsBounded roomy
roomy-IsBounded = (Reach-IsGood roomy-Reach).1

roomy_free : lookup hot_id roomy.cooldown_until ≡ none
unfolding enqueue enqueue_at admit init maintenance compact_heaps_if_needed prune_cooldowns
    identity_key market_state_of push_heaps heappush
roomy_free = refl

roomy_unknown : lookup hot_id roomy.entries ≡ none
unfolding enqueue enqueue_at admit init maintenance compact_heaps_if_needed prune_cooldowns
    identity_key market_state_of push_heaps heappush
roomy_unknown = refl

roomy_room : length roomy.entries < roomy.max_pending
unfolding enqueue enqueue_at admit init maintenance compact_heaps_if_needed prune_cooldowns
    identity_key market_state_of push_heaps heappush
roomy_room = omega arith

hot_cooled : lookup hot_id cooled.cooldown_until ≡ some 27
unfolding mark_analyzed enqueue enqueue_at admit init maintenance compact_heaps_if_needed
    prune_cooldowns identity_key market_state_of push_heaps heappush current_worst priority_of clean
    is_current lex_leb
hot_cooled = refl

small_room : length small.cooldown_until < max_cooldown_entries small
unfolding init
small_room = omega arith

-- The same pool, under another spelling of its token and with another market state.
abbrev calm_again : Row
calm_again = record calm { token = given (codes "0xa1"); market_state = given (codes "hot") }

again_candidate : IsCandidate calm_again calm_id
unfolding identity_key normalize_token market_state_of
again_candidate = record { token_given = refl; identity_eq = refl; not_cold = refl }

mark_then_refused_example :
    ((enqueue_many ((20, calm) ∷ (21, calm_again) ∷ []) (mark_kept 7 (codes "0xa1") calm small)).1
      ≡ 0)
    × ((enqueue_many
          ((20, calm) ∷ (21, calm_again) ∷ [])
          (mark_kept 7 (codes "0xa1") calm small)).0.entries
        ≡ (mark_kept 7 (codes "0xa1") calm small).entries)
unfolding init normalize_token chain_of
mark_then_refused_example =
    let start : Reach (pos 1) (pos 20) (pos 2) (pos 2) small = new in
    let good = Reach-IsGood start in
    mark_then_refused 7 ((20, calm) ∷ (21, calm_again) ∷ []) (codes "0xa1") calm_id calm small
      calm_candidate.identity_eq good.0 good.1 small_room refl refl refl
      ((calm_candidate, omega arith), ((again_candidate, omega arith), tt))

-- The kept row of a candidate whose chain is blank.
abbrev blank : Row
blank = record (normalized_row (codes "0xa1") calm_id calm) { chain = given (codes "   ") }

blank_chain_not_cooled_example :
    lookup calm_id (mark_kept 7 (codes "0xa1") blank small).cooldown_until
    ≡ lookup calm_id small.cooldown_until
unfolding identity_key normalized_row normalize_token chain_of
blank_chain_not_cooled_example =
    blank_chain_not_cooled 7 (codes "0xa1") calm_id blank small refl small_room refl refl refl

abbrev both : Queue
both = (enqueue 6 hot roomy).0

drain_by_lane_and_chain_example :
    (r : Queue) × (lanes : Lanes) × (counts : Counts) × (rows : List Row) × (jobs : List Job)
    × (drain_by_lane_and_chain (λ n. 40) both ≡ some (r, (lanes, counts)))
    × IsDrained both r rows
    × Perm rows (live_rows both.entries)
    × (ordered_rows lanes ≡ some jobs)
    × IsOrdered rows jobs
    × (total_of counts ≡ length both.entries)
drain_by_lane_and_chain_example =
    drain_by_lane_and_chain_lem (λ n. 40) (Reach-IsGood (next roomy-Reach (enqueued 6 hot roomy))).0

-- Three cooldowns where two are allowed.
abbrev crowded : Queue
crowded = record small { cooldown_until = (codes "b", 40) ∷ (codes "a", 30) ∷ (codes "c", 50) ∷ [] }

crowded-IsValid : IsValid crowded
unfolding init
crowded-IsValid = record {
  positive = omega arith;
  factor = omega arith;
  pending_le = omega arith;
  unique = tt;
  cooldown_unique = (refl, (refl, (refl, tt)));
  best = record { sorted = tt; live = λ k w p. cc; faithful = tt };
  worst = record { sorted = tt; live = λ k w p. cc; faithful = tt };
}

first_goes : lookup (codes "a") (prune_cooldowns 10 true crowded).cooldown_until ≡ none
unfolding prune_cooldowns init evict_overflow
first_goes = refl

second_stays : lookup (codes "b") (prune_cooldowns 10 true crowded).cooldown_until ≡ some 40
unfolding prune_cooldowns init evict_overflow
second_stays = refl

prune_earliest_example : (30 ≤ 40) × (lookup (codes "b") crowded.cooldown_until ≡ some 40)
prune_earliest_example =
    prune_earliest 10 true (codes "a") (codes "b") 30 40 crowded-IsValid refl (omega arith)
      first_goes second_stays
