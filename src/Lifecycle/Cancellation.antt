-- ===== src/Lifecycle/Cancellation.antt =====
-- Chains of allowed transitions: what is final, and what a cancellation can still lead to.
use teleagent_collab.Common.{◌≡◌, refl, ◌≢◌, Bool, true, List, [], ◌∷◌, arith}
use teleagent_collab.Lifecycle.{TaskState, GoalState, task_edge, goal_edge}

-- Each state of the list follows from the one before it by an allowed transition.
abbrev pub IsPath : {S : Type 0} → (S → S → Bool) → S → List S → Type 0
IsPath edge s [] = Unit
IsPath edge s (t ∷ ts) = (edge s t ≡ true) × IsPath edge t ts

abbrev pub All : {S : Type 0} → (S → Type 0) → List S → Type 0
All P [] = Unit
All P (t ∷ ts) = P t × All P ts

pub data IsFinal : TaskState → Type 0 where
  succeeded_final : IsFinal TaskState.succeeded
  cancelled_final : IsFinal TaskState.cancelled

abbrev pub ends_at {ℓ} : {S : Type ℓ} → S → List S → S
ends_at s [] = s
ends_at s (t ∷ ts) = ends_at t ts

succeeded_stuck : (t : TaskState) → ¬ (task_edge TaskState.succeeded t ≡ true)
unfolding task_edge
succeeded_stuck t = ground arith

cancelled_stuck : (t : TaskState) → ¬ (task_edge TaskState.cancelled t ≡ true)
unfolding task_edge
cancelled_stuck t = ground arith

-- No chain of transitions leaves `succeeded` or `cancelled`.
pub IsFinal-path :
    {s : TaskState} → IsFinal s → (ts : List TaskState) → IsPath task_edge s ts → ts ≡ []
IsFinal-path f [] p = refl
IsFinal-path succeeded_final (t ∷ ts) p = absurd (succeeded_stuck t p.0)
IsFinal-path cancelled_final (t ∷ ts) p = absurd (cancelled_stuck t p.0)

-- From every task state but `cancelled` some chain of transitions ends at `succeeded`.
IsPath-to_succeeded :
    (s : TaskState)
    → s ≢ TaskState.cancelled
    → (ts : List TaskState) × IsPath task_edge s ts × (ends_at s ts ≡ TaskState.succeeded)
unfolding task_edge
IsPath-to_succeeded TaskState.queued h =
    (TaskState.running ∷ TaskState.succeeded ∷ [], ground arith, refl)
IsPath-to_succeeded TaskState.running h = (TaskState.succeeded ∷ [], ground arith, refl)
IsPath-to_succeeded TaskState.awaiting_decision h =
    (TaskState.running ∷ TaskState.succeeded ∷ [], ground arith, refl)
IsPath-to_succeeded TaskState.review h = (TaskState.succeeded ∷ [], ground arith, refl)
IsPath-to_succeeded TaskState.blocked h =
    (TaskState.running ∷ TaskState.succeeded ∷ [], ground arith, refl)
IsPath-to_succeeded TaskState.unknown h =
    (TaskState.review ∷ TaskState.succeeded ∷ [], ground arith, refl)
IsPath-to_succeeded TaskState.succeeded h = ([], tt, refl)
IsPath-to_succeeded TaskState.failed h =
    (TaskState.queued ∷ TaskState.running ∷ TaskState.succeeded ∷ [], ground arith, refl)
IsPath-to_succeeded TaskState.cancel_requested h =
    (TaskState.unknown ∷ TaskState.review ∷ TaskState.succeeded ∷ [], ground arith, refl)
IsPath-to_succeeded TaskState.cancelled h = absurd (h refl)

goal_cancel_step :
    (t : GoalState)
    → goal_edge GoalState.cancel_requested t ≡ true
    → t ≢ GoalState.failed
    → t ≡ GoalState.cancelled
unfolding goal_edge
goal_cancel_step t e h = ground arith

goal_cancelled_stuck : (t : GoalState) → ¬ (goal_edge GoalState.cancelled t ≡ true)
unfolding goal_edge
goal_cancelled_stuck t = ground arith

after_cancelled :
    (s : GoalState) (ts : List GoalState)
    → s ≡ GoalState.cancelled
    → IsPath goal_edge s ts
    → ts ≡ []
after_cancelled s [] e p = refl
after_cancelled s (t ∷ ts) e p = absurd (goal_cancelled_stuck t (ground (arith, p.0)))

-- Once cancellation is requested, a goal that does not fail (and is not reopened) can only become
-- cancelled, and is then final: it never runs again and never completes.
pub goal_cancel_is_final :
    (t : GoalState) (ts : List GoalState)
    → IsPath goal_edge GoalState.cancel_requested (t ∷ ts)
    → All (λ u. u ≢ GoalState.failed) (t ∷ ts)
    → (t ≡ GoalState.cancelled) × (ts ≡ [])
goal_cancel_is_final t ts p h =
    let c = goal_cancel_step t p.0 h.0 in (c, after_cancelled t ts c p.1)
