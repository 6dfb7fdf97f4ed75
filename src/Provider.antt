-- ===== src/Provider.antt =====
-- Failures of the providers, app/dex/provider_resilience.py.
pub mod Resilience
pub mod Laws
