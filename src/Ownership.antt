-- ===== src/Ownership.antt =====
-- framework/goal_ownership.py: the coordinator of a goal and the revisions of its plan, with the
-- autonomy checks of framework/delegation.py.
mod Json
mod Autonomy
mod Contract
mod Checks
mod Plans
mod Store
mod Grants
mod Revisions
mod Committing
mod Fencing
mod Legal
mod Ceiling
mod Limits
mod Sources
mod Gates
mod Outcomes
mod Submitting
mod Fixtures
mod Tests
