-- ===== src/Tests.antt =====
-- Runs of the model on concrete data, and each theorem at an input that meets its hypotheses.
pub mod Fixtures
mod Policy
mod Files
mod Scans
mod Sessions
mod Appends
mod Isolation
mod Requests
mod Tables
mod Exchanges
mod Starts
mod Stops
mod Acceptance
mod Restarts
mod Live
mod Overlaps
mod Finished
