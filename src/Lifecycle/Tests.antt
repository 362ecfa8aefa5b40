-- ===== src/Lifecycle/Tests.antt =====
-- Runs of the lifecycle functions at concrete inputs.
use teleagent_collab.Common.{◌≡◌, refl, List, [], string_eq, lookup, strip, lower, err, arith}
use teleagent_collab.Lifecycle.{
  TaskState, GoalState, task_edge, goal_edge, illegal_transition, check_edge, assert_transition,
}
use teleagent_collab.Lifecycle.Cancellation.{succeeded_final, IsFinal-path, goal_cancel_is_final}

reopen_done :
    assert_transition " Task" "succeeded" "queued" ≡ err (illegal_transition "succeeded" "queued")
unfolding assert_transition check_edge lookup string_eq strip lower task_edge
reopen_done = refl

IsFinal-path_example : ◌≡◌ {A = List TaskState} [] []
IsFinal-path_example = IsFinal-path succeeded_final [] tt

goal_cancel_is_final_example :
    (GoalState.cancelled ≡ GoalState.cancelled) × (◌≡◌ {A = List GoalState} [] [])
unfolding goal_edge
goal_cancel_is_final_example =
    goal_cancel_is_final GoalState.cancelled [] (refl, tt) (λ e. ground arith, tt)
