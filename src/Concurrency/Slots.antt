-- ===== src/Concurrency/Slots.antt =====
-- How many tasks may be started.
use teleagent_collab.Common.{ℕ, ◌+◌, ◌≤◌, ◌<◌, ◌↔◌, Option, none, some, string_eq, arith}
use teleagent_collab.Concurrency.{remaining_slots}

-- The backend's cap, where it declares one.
abbrev pub BackendFits : ℕ → Option ℕ → Type 0
BackendFits n none = Unit
BackendFits n (some cap) = n ≤ cap

module _ (per here cap total : ℕ) (backend : Option ℕ) (k : ℕ) where
  abbrev pub AllFit : Type 0
  AllFit = (here + k ≤ per) × (total + k ≤ cap) × BackendFits (total + k) backend

  fit_of_le : 0 < k → k ≤ remaining_slots per here cap total backend → AllFit
  unfolding remaining_slots
  fit_of_le p h = ground arith

  le_of_fit : AllFit → k ≤ remaining_slots per here cap total backend
  unfolding remaining_slots
  le_of_fit h = ground arith

  -- `k` more runs, at least one, are within the remaining slots exactly when with them the goal, the
  -- service and the backend are all within their caps: no cap is passed, and no slot is wasted.
  pub remaining_slots_iff : 0 < k → (k ≤ remaining_slots per here cap total backend) ↔ AllFit
  remaining_slots_iff p = (fit_of_le p, le_of_fit)
