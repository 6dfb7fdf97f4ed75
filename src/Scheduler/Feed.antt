-- ===== src/Scheduler/Feed.antt =====
-- `_drain_by_lane_and_chain` of app/pipeline/work_scheduler.py over the queue of
-- app/pipeline/candidate_queue.py: the rows that `pop` returns until it returns None.
use coinoskobi_dexbot.Common.{ℕ, zero, suc, Option, none, some, List, [], ◌∷◌, length}
use mathlib.Core.Option
use coinoskobi_dexbot.Row.{Row}
use coinoskobi_dexbot.Queue.Defs.{Queue}
use coinoskobi_dexbot.Queue.Methods.{Popped, returned, key_error, out_of_fuel, pop}
use coinoskobi_dexbot.Scheduler.Lanes.{Lanes, Counts, sort_rows, no_lanes, no_counts}

-- What the loop does with the result of one `pop`; `next` is the rest of the loop.
unfoldable pub drain_next : (Queue → Option (Queue × List Row)) → Popped → Option (Queue × List Row)
drain_next next key_error = none
drain_next next out_of_fuel = none
drain_next next (returned q none) = some (q, [])
drain_next next (returned q (some row)) = Option.map (λ x. (x.0, row ∷ x.1)) (next q)

-- The loop, with the clock's reading at each `pop`. `none` is a `pop` that raises, or fuel that has
-- run out.
unfoldable pub drain_queue : ℕ → (ℕ → ℕ) → Queue → Option (Queue × List Row)
unfolding drain_next
drain_queue zero clock q = none
drain_queue (suc fuel) clock q = drain_next (drain_queue fuel clock) (pop (clock fuel) q)

-- `_drain_by_lane_and_chain`, with fuel for every live entry and the last `pop`.
unfoldable pub drain_by_lane_and_chain : (ℕ → ℕ) → Queue → Option (Queue × (Lanes × Counts))
unfolding drain_queue sort_rows
drain_by_lane_and_chain clock q =
    Option.map (λ x. (x.0, sort_rows x.1 no_lanes no_counts))
      (drain_queue (suc (length q.entries)) clock q)
