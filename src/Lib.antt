-- ===== src/Lib.antt =====
-- The admission and work pipeline of the DEX bot and its guards (app/pipeline, app/cache, app/dex,
-- app/paper, app/risk, app/universe), as definitions that compute, with what they promise.
--
-- Discovered candidates enter the bounded admission queue. The conveyor labels rows by what the
-- analyzer cache holds of them; the scheduler drains the queue, sorts the rows into lanes by that
-- label and into chains, and hands them to a pool of workers; the engine then marks each analyzed
-- candidate, which cools its identity down. In between, the risk gate, the paper admission, the
-- operating mode and the exit controller decide on single candidates and positions. The event buffer
-- bounds what the chain listeners deliver, the price histories what is kept of each pair. The provider
-- broker spreads their requests over several RPC endpoints; the ledger keeps the paper positions that
-- are admitted, and the capital that they leave. The universe scheduler chooses which of the registered
-- pools are looked at next, and when again, and the router which of their pairs are watched.
--
-- The files, and the code that they are about:
--   Common      shared helpers: Boolean tests and the conditional, lists measured by native numbers,
--               integers, texts, lexicographic order of tuples, dicts in insertion order.
--   Row         the columns of a candidate row that the code reads, and `x or default`.
--   Queue       `CandidateAdmissionQueue`, app/pipeline/candidate_queue.py. Identity: `normalize_token`
--               and `identity_key`. Heap: `heapq`. Defs: the state and the private methods. Methods:
--               the public ones. The other files are proofs: Backing and Front (which tuples of a
--               heap are live, and that the first of them is extreme), Updates and Storing (changes of
--               the entries), Cooldown and Eviction (pruning), Invariant and Maintenance, Admission,
--               Candidate and Effects (`enqueue`), Popping (`pop`), Reach (whole runs), Cooling
--               (`mark_analyzed`, `compact`).
--   Scheduler   `WorkScheduler`, app/pipeline/work_scheduler.py. Lanes: `lane`, `chain`,
--               `_drain_by_lane_and_chain`, `_round_robin_rows`, `_ordered_rows`. Pool: the loop of
--               `process_queue` and its result. Feed: the drain over the queue itself. Order, Drain,
--               Serving, Accounts, Steps, Reports, Outcome and Ending are proofs.
--   Cache       `AnalyzerCache`, app/cache/analyzer_cache.py: Table the methods, Laws the proofs.
--   Conveyor    `ConveyorLabeler`, app/pipeline/conveyor.py: Labels the methods, Laws the proofs.
--   Buffer      `EventBuffer` and `buffer_health`, app/dex/event_buffer.py.
--   Exit        `evaluate_hybrid_exit`, app/risk/hybrid_exit_controller.py.
--   Gate        `RiskGate.evaluate`, app/risk/gate.py.
--   Mode        `build_operating_mode_readmodel`, app/pipeline/operating_mode.py.
--   Provider    app/dex/provider_resilience.py: how long a provider rests after a failure.
--   Broker      app/dex/provider_broker.py. State, Responses, Circuits, Request: the attributes and the
--               methods of `ProviderBrokerHTTPProvider`. Flights: `make_request` of several threads.
--               Status: `status`. Sockets: `ProviderBrokerWSSRuntime`. Urls, Candidates, Rotation,
--               Failover, Skipping, Breaks and Caching are proofs, and so are Leaders, Coalescing and Landing,
--               on the calls that share a request.
--   History     `RuntimePriceHistory`, app/pipeline/runtime_price_history.py: Store the methods, Laws
--               the eviction, Use `setdefault`.
--   Paper       `paper_admission_decision`, app/pipeline/paper_admission.py.
--   Ledger      `PaperDatabase`, app/paper/database.py. Trade: a row of `paper_trades`. Contract:
--               app/paper/trade_contract.py and trade_routing.py. Control: app/paper/control_mode.py.
--               Store: the tables, reads and plain writes. Capital: `paper_available_capital_usdt`,
--               app/risk/paper_position_sizing.py. Insert and Partial: the guarded inserts and
--               `apply_partial_realization`. OneOpen, Reach, Tokens, Admitting, Spending, Realizing,
--               Proceeds, Closing, Axes and Manual are proofs.
--   Universe    `UniverseObservationScheduler`, app/universe/scheduler.py, over the rows of
--               app/universe/registry.py. Registry: the rows, `record_observations` and
--               `schedule_observations`. Schema: app/universe/schema.py.
--               Ingest: `ingest` and its checkpoints, with the proofs
--               Ingesting, Checkpoints and Tables. Selection: `_select_due` and its queries. Observing:
--               `_observe_rows`, `run_once`, `run_priority` and `reschedule_for_state`. Display:
--               app/universe/display_metadata.py. Choosing, Resting, Recording, Answers, Runs and
--               Priority are proofs. Routing: `HotDeepPathRouter`,
--               app/universe/hot_path.py, with the proofs Targets and Searching.
--   Tests       small runs.
--
-- State and time. A class is a record of its attributes and a method a function of the old state to
-- the new one. The clock is not modelled: a method that reads it takes the reading, in ticks. Scores
-- and amounts, floats in the code, are finite numbers scaled to integers; a NaN does not occur. Texts
-- are lists of code points with ASCII white space and letter case. A dict keeps its insertion order. A
-- heap is the sorted list of its tuples: the code only looks at its first element and its length.
--
-- Amounts of the ledger are in units of 1e-9; the product of two of its floats and `math.isclose` are
-- parameters. Times of the universe are in microseconds. A transaction that is rolled back leaves the tables as they were.
--
-- Fuel. `pop` runs on one unit more than its heap has tuples, since each round but the last takes one
-- out. The drain runs on one more than the live entries, each of which one `pop` takes; the eviction of
-- the histories on one more than the items; `round_robin_rows` on one more than the rows and the chains,
-- since each round uses up one of them.
--
-- Concurrency. The executor loop of `process_queue` is a step relation. Its environment chooses when
-- a stop is requested, which futures `cancel()` still catches, which future is done next, and how the
-- worker ended. The worker itself is not modelled. The cache's methods hold its lock, so each is one
-- step. The calls of the broker's `make_request` are a step relation too, one step for each block under
-- its lock: the environment interleaves them, and chooses what the providers answer and when a wait
-- ends. A method of the ledger holds its lock and is one step.
--
-- Not modelled: the engine's analysis of one candidate, the exits of the paper positions, strategy and risk sizing,
-- learning, the clients of the providers and their sockets, the discovery of pools and their seismic evaluation, the panel and all I/O.
pub mod Common
pub mod Row
pub mod Queue
pub mod Scheduler
pub mod Cache
pub mod Conveyor
pub mod Buffer
pub mod Exit
pub mod Gate
pub mod Mode
pub mod Provider
pub mod Broker
pub mod History
pub mod Paper
pub mod Ledger
pub mod Universe
mod Tests
