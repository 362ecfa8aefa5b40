-- ===== src/Failures/Tests.antt =====
-- Failed tasks at concrete inputs.
use native.Mathlib.Decide.{ℕ_discrete}
use teleagent_collab.Common.{
  ◌≡◌, refl, false, Option, none, some, [], ◌∷◌, string_eq, keep, length, ok, strip, lower,
  collapse, occurs, has_prefix, any, append,
}
use teleagent_collab.Failures.{
  Task, TaskResult, Failed, is_failed, project_failed_tasks, classify_failure_source,
  is_worker_timeout, is_cancelled, collapsed,
}
use teleagent_collab.Failures.Told.{IsTold, project_failed_tasks-IsTold}

abbrev no_result : TaskResult
no_result = record {
  error = none;
  failure_reason = none;
  error_source = "";
  acceptance_failed = false;
  has_contamination = false;
  state = "";
  controller_state = "";
  finish = "";
  missing = [];
  run_id = none;
  native_handle = none;
}

abbrev timed_out : Task
timed_out = record {
  task_id = "t1";
  title = "first";
  status = "failed";
  error = some "Budget_Exceeded  wall";
  failure_reason = none;
  run_id = none;
  native_handle = none;
  result = no_result;
}

project_failed_tasks-IsTold_example :
    (o : Option Failed) × ((project_failed_tasks (λ s. s) (timed_out ∷ []) ≡ ok o)
      × IsTold (λ s. s) (length (keep is_failed (timed_out ∷ []))) o)
project_failed_tasks-IsTold_example = project_failed_tasks-IsTold (λ s. s) (timed_out ∷ [])

wall_is_timeout :
    classify_failure_source timed_out no_result "Budget_Exceeded  wall" ≡ "worker_timeout"
unfolding classify_failure_source is_worker_timeout collapsed collapse strip lower occurs has_prefix
    any append string_eq ℕ_discrete
wall_is_timeout = refl

steps_are_no_timeout :
    classify_failure_source timed_out no_result "budget_exceeded steps 40" ≡ "task_failed"
unfolding classify_failure_source is_worker_timeout is_cancelled collapsed collapse strip lower
    occurs has_prefix any append string_eq ℕ_discrete
steps_are_no_timeout = refl
