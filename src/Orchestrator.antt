-- ===== src/Orchestrator.antt =====
-- orchestrator/orchestrator.go: a search, from the parameters to the hits, what it falls back to, and the
-- registration of the collections.
pub mod Negative
pub mod Exclude
pub mod Results
pub mod Routing
pub mod Tiers
pub mod Search
pub mod Registration
pub mod Observation
pub mod Tokens
mod Examples
