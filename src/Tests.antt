-- ===== src/Tests.antt =====
-- Runs of the code of app/pipeline, app/cache and app/dex on small inputs, and the theorems there.
mod Queue
mod Scheduler
mod Stores
mod Safety
mod Broker
mod Ledger
mod Universe
mod Routing
mod Ingest
