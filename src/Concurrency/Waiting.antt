-- ===== src/Concurrency/Waiting.antt =====
-- Why a goal's tasks wait.
use teleagent_collab.Common.{
  ℕ, ◌+◌, ◌<◌, ◌≡◌, Bool, true, false, Option, List, string_eq, nat_eq, all, keep, arith,
}
use teleagent_collab.Concurrency.{
  Task, Decision, status_map, task_is_ready, global_decision_blocks, count_inflight,
  remaining_slots, SchedulerView, WaitingReason, scheduler_view,
}

module _ (pending : List Decision) (per_goal global_limit : ℕ) (backend_limit : Option ℕ)
    (elsewhere : ℕ) (directory_is_held : Task → Bool) (tasks : List Task) where
  abbrev pub view : SchedulerView
  view =
      scheduler_view pending per_goal global_limit backend_limit elsewhere directory_is_held tasks

  abbrev pub ready : List Task
  ready = keep (λ t. task_is_ready t (status_map tasks)) tasks

  abbrev slots : ℕ
  slots =
      remaining_slots per_goal (count_inflight tasks) global_limit
        (count_inflight tasks + elsewhere) backend_limit

  -- Where tasks are ready and the view gives no reason to wait, no decision of the whole goal is
  -- pending, a slot is left, and the directory of one of the ready tasks is free.
  pub not_waiting_can_dispatch :
      0 < view.queued_ready
      → view.waiting_reason ≡ WaitingReason.not_waiting
      → (global_decision_blocks pending ≡ false)
        × (0 < slots)
        × (count_inflight tasks < view.capacity_left)
        × (all directory_is_held ready ≡ false)
  unfolding scheduler_view
  not_waiting_can_dispatch p h = ground arith

  -- The reason "workdir_claim" is given only where slots are left and no decision of the whole goal
  -- is pending: then the directory of every ready task is held.
  workdir_claim_is_last :
      view.waiting_reason ≡ WaitingReason.workdir_claim
      → (0 < view.queued_ready)
        × (global_decision_blocks pending ≡ false)
        × (0 < slots)
        × (all directory_is_held ready ≡ true)
  unfolding scheduler_view
  workdir_claim_is_last h = ground arith
