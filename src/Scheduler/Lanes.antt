-- ===== src/Scheduler/Lanes.antt =====
-- Lanes and chains of app/pipeline/work_scheduler.py: how the drained rows are sorted into queues,
-- and the order in which they are taken out again.
use coinoskobi_dexbot.Common.{
  ℕ, zero, suc, ◌+◌, Option, none, some, List, [], ◌∷◌, ◌++◌, map, if◌then◌else◌, length,
}
use mathlib.Core.Option
use coinoskobi_dexbot.Common.Dict.{Dict, lookup, get_or, insert}
use coinoskobi_dexbot.Common.Text.{Text, codes, text_eq, text_Eq}
use coinoskobi_dexbot.Row.{Field, given, Row, Conveyor}
use coinoskobi_dexbot.Queue.Identity.{chain_of}

-- `LANE_WARM`, `LANE_PARTIAL`, `LANE_COLD`, in the order of `LANE_ORDER`.
pub data Lane : Type 0 where
  warm partial cold : Lane

-- `state if state in LANE_ORDER else LANE_COLD`
abbrev pub lane_named : Text → Lane
lane_named s =
    if text_eq s (codes "WARM") then warm else if text_eq s (codes "PARTIAL") then partial else cold

-- `lane` on `row.get("conveyor") or {}`
unfoldable pub lane_of_label : Field Conveyor → Lane
lane_of_label (given c) = elim c.cache_state [ given s ↦ lane_named s | _ ↦ cold ]
lane_of_label _ = cold

unfoldable pub lane_of : Row → Lane
unfolding lane_of_label
lane_of row = lane_of_label row.conveyor

-- `chain`
unfoldable pub row_chain : Row → Text
unfolding chain_of
row_chain row = chain_of row.chain

-- The queues of one lane, by chain.
abbrev pub Chains : Type 0
Chains = Dict Text (List Row)

pub record Lanes : Type 0 where
  pub warm_chains : Chains
  pub partial_chains : Chains
  pub cold_chains : Chains

-- A count for each lane.
pub record Counts : Type 0 where
  pub warm_count : ℕ
  pub partial_count : ℕ
  pub cold_count : ℕ

abbrev pub no_counts : Counts
no_counts = record { warm_count = 0; partial_count = 0; cold_count = 0 }

abbrev pub count_in : Lane → Counts → ℕ
count_in warm c = c.warm_count
count_in partial c = c.partial_count
count_in cold c = c.cold_count

-- `counts[lane] += 1`
abbrev pub bump : Lane → Counts → Counts
bump warm c = record c { warm_count = c.warm_count + 1 }
bump partial c = record c { partial_count = c.partial_count + 1 }
bump cold c = record c { cold_count = c.cold_count + 1 }

-- `chains.setdefault(chain, deque()).append(row)`
unfoldable pub append_row : Text → Row → Chains → Chains
append_row chain row d = insert chain (get_or chain [] d ++ row ∷ []) d

unfoldable pub place : Row → Lanes → Lanes
unfolding append_row
place row l = elim (lane_of row) [
  | warm ↦ record l { warm_chains = append_row (row_chain row) row l.warm_chains }
  | partial ↦ record l { partial_chains = append_row (row_chain row) row l.partial_chains }
  | cold ↦ record l { cold_chains = append_row (row_chain row) row l.cold_chains }
]

-- The loop of `_drain_by_lane_and_chain` over the rows that `queue.pop()` returns before None.
unfoldable pub sort_rows : List Row → Lanes → Counts → Lanes × Counts
sort_rows [] l c = (l, c)
sort_rows (row ∷ rows) l c = sort_rows rows (place row l) (bump (lane_of row) c)

abbrev pub no_lanes : Lanes
no_lanes = record { warm_chains = []; partial_chains = []; cold_chains = [] }

-- The chains that wait after `chain` has given a row: it waits behind the others if it has more.
abbrev pub waiting : Text → List Row → List Text → List Text
waiting chain [] active = active
waiting chain (row ∷ rest) active = active ++ chain ∷ []

-- A round of `_round_robin_rows`, over what the queues hold for the chain in front; `next` is the
-- rest of the loop.
unfoldable pub robin_round :
    (List Text → Chains → Option (List Row))
    → Text
    → List Text
    → Chains
    → Option (List Row)
    → Option (List Row)
robin_round next chain active d none = none
robin_round next chain active d (some []) = next active d
robin_round next chain active d (some (row ∷ rest)) =
    Option.map (λ rows. row ∷ rows) (next (waiting chain rest active) (insert chain rest d))

-- The loop of `_round_robin_rows`. `none` is a chain that is not there, or fuel that has run out.
unfoldable pub round_robin : ℕ → List Text → Chains → Option (List Row)
unfolding robin_round
round_robin zero active d = none
round_robin (suc fuel) [] d = some []
round_robin (suc fuel) (chain ∷ active) d =
    robin_round (round_robin fuel) chain active d (lookup chain d)

-- The rows of all chains.
unfoldable pub rows_of : Chains → List Row
rows_of [] = []
rows_of ((chain, rows) ∷ d) = rows ++ rows_of d

abbrev pub chains_of : Chains → List Text
chains_of = map (λ x. x.0)

-- Enough for every row and every chain.
unfoldable pub round_robin_rows : Chains → Option (List Row)
unfolding round_robin rows_of
round_robin_rows d = round_robin (suc (length (rows_of d) + length d)) (chains_of d) d

-- A row with its lane and its chain, as `_ordered_rows` yields it.
pub record Job : Type 0 where
  pub lane : Lane
  pub chain : Text
  pub row : Row

abbrev pub job_in : Lane → Row → Job
job_in lane row = record { lane = lane; chain = row_chain row; row = row }

-- `_ordered_rows`
unfoldable pub ordered_rows : Lanes → Option (List Job)
unfolding round_robin_rows
ordered_rows l = Option.bind (round_robin_rows l.warm_chains) λ w.
    Option.bind (round_robin_rows l.partial_chains) λ p.
      Option.map (λ c. map (job_in warm) w ++ map (job_in partial) p ++ map (job_in cold) c)
        (round_robin_rows l.cold_chains)
