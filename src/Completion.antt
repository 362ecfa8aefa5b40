-- ===== src/Completion.antt =====
-- completion.py: the artifacts of a job, its budget of reworks, and the gates before a success.
pub mod Artifacts
pub mod Rework
pub mod Gates
mod Fingerprints
mod Budgeting
mod Success
mod Tests
