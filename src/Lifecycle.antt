-- ===== src/Lifecycle.antt =====
-- framework/lifecycle.py: the vocabularies of states and errors, the allowed transitions, and the
-- projection of the scheduler's states. The sets and dicts of strings are data types with a parser.
mod Transitions
mod Cancellation
mod Projecting
mod Tests
use teleagent_collab.Common.{
  Bool, Option, none, some, List, [], ◌∷◌, ◌||◌, ◌&&◌, not, true, false, String, Result, ok, err,
  Dict, Eq, string_eq, lookup, contains, strip, lower, non_empty, ◌==◌, if◌then◌else◌,
}

pub data TaskState : Type 0 where
  queued running awaiting_decision review blocked unknown succeeded failed : TaskState
  cancel_requested cancelled : TaskState

pub data GoalState : Type 0 where
  queued running blocked completed failed cancel_requested cancelled : GoalState

pub data RunState : Type 0 where
  starting running awaiting_decision observing collecting succeeded failed : RunState
  cancel_requested cancelled unknown : RunState

pub data ErrorClass : Type 0 where
  implementation_failed acceptance_failed decision_channel_failed : ErrorClass
  backend_unavailable budget_exhausted awaiting_user unknown : ErrorClass

abbrev pub task_states : Dict String TaskState
task_states =
    ("queued", TaskState.queued)
    ∷ ("running", TaskState.running)
    ∷ ("awaiting_decision", TaskState.awaiting_decision)
    ∷ ("review", TaskState.review)
    ∷ ("blocked", TaskState.blocked)
    ∷ ("unknown", TaskState.unknown)
    ∷ ("succeeded", TaskState.succeeded)
    ∷ ("failed", TaskState.failed)
    ∷ ("cancel_requested", TaskState.cancel_requested)
    ∷ ("cancelled", TaskState.cancelled)
    ∷ []

abbrev pub goal_states : Dict String GoalState
goal_states =
    ("queued", GoalState.queued)
    ∷ ("running", GoalState.running)
    ∷ ("blocked", GoalState.blocked)
    ∷ ("completed", GoalState.completed)
    ∷ ("failed", GoalState.failed)
    ∷ ("cancel_requested", GoalState.cancel_requested)
    ∷ ("cancelled", GoalState.cancelled)
    ∷ []

abbrev pub error_classes : Dict String ErrorClass
error_classes =
    ("implementation_failed", ErrorClass.implementation_failed)
    ∷ ("acceptance_failed", ErrorClass.acceptance_failed)
    ∷ ("decision_channel_failed", ErrorClass.decision_channel_failed)
    ∷ ("backend_unavailable", ErrorClass.backend_unavailable)
    ∷ ("budget_exhausted", ErrorClass.budget_exhausted)
    ∷ ("awaiting_user", ErrorClass.awaiting_user)
    ∷ ("unknown", ErrorClass.unknown)
    ∷ []

abbrev pub decision_channel_lead_codes : List String
decision_channel_lead_codes =
    "timeout" ∷ "call_failed" ∷ "error" ∷ "illegal_json" ∷ "application_id_mismatch"
    ∷ "context_summary_mismatch" ∷ "illegal_verdict" ∷ "illegal_decision" ∷ "missing_reason"
    ∷ "unknown_kind" ∷ []

-- What the tests below the membership test of `map_error_class` choose.
class_of_source : String → String → ErrorClass
class_of_source k code =
    if contains decision_channel_lead_codes code
      || contains ("lead_protocol" ∷ "decision_channel" ∷ []) k
    then ErrorClass.decision_channel_failed
    else if contains ("review_fail" ∷ "verdict_fail" ∷ "artifact_gate" ∷ []) k
    then ErrorClass.acceptance_failed
    else if contains ("collect_fail" ∷ "worker_fail" ∷ []) k
    then ErrorClass.implementation_failed
    else if contains ("wall" ∷ "rework_denied" ∷ []) k
    then ErrorClass.budget_exhausted
    else ErrorClass.unknown

unfoldable pub map_error_class : String → String → ErrorClass
unfolding class_of_source
map_error_class kind lead_code = elim (lookup (strip kind) error_classes) [
  | some c ↦ c
  | none ↦ class_of_source (strip kind) (strip lead_code)
]

-- `dst in _TASK_EDGES.get(src, set())`
unfoldable pub task_edge : TaskState → TaskState → Bool
task_edge TaskState.queued TaskState.running = true
task_edge TaskState.queued TaskState.cancelled = true
task_edge TaskState.queued TaskState.blocked = true
task_edge TaskState.queued TaskState.failed = true
task_edge TaskState.running TaskState.awaiting_decision = true
task_edge TaskState.running TaskState.review = true
task_edge TaskState.running TaskState.succeeded = true
task_edge TaskState.running TaskState.failed = true
task_edge TaskState.running TaskState.cancel_requested = true
task_edge TaskState.running TaskState.unknown = true
task_edge TaskState.running TaskState.blocked = true
task_edge TaskState.awaiting_decision TaskState.running = true
task_edge TaskState.awaiting_decision TaskState.queued = true
task_edge TaskState.awaiting_decision TaskState.blocked = true
task_edge TaskState.awaiting_decision TaskState.failed = true
task_edge TaskState.awaiting_decision TaskState.cancel_requested = true
task_edge TaskState.awaiting_decision TaskState.unknown = true
task_edge TaskState.review TaskState.succeeded = true
task_edge TaskState.review TaskState.failed = true
task_edge TaskState.review TaskState.running = true
task_edge TaskState.review TaskState.awaiting_decision = true
task_edge TaskState.blocked TaskState.queued = true
task_edge TaskState.blocked TaskState.running = true
task_edge TaskState.blocked TaskState.cancelled = true
task_edge TaskState.blocked TaskState.failed = true
task_edge TaskState.cancel_requested TaskState.cancelled = true
task_edge TaskState.cancel_requested TaskState.unknown = true
task_edge TaskState.cancel_requested TaskState.failed = true
task_edge TaskState.unknown TaskState.running = true
task_edge TaskState.unknown TaskState.failed = true
task_edge TaskState.unknown TaskState.cancelled = true
task_edge TaskState.unknown TaskState.review = true
task_edge TaskState.failed TaskState.queued = true
task_edge _ _ = false

-- `dst in _GOAL_EDGES.get(src, set())`
unfoldable pub goal_edge : GoalState → GoalState → Bool
goal_edge GoalState.queued GoalState.running = true
goal_edge GoalState.queued GoalState.blocked = true
goal_edge GoalState.queued GoalState.failed = true
goal_edge GoalState.queued GoalState.cancelled = true
goal_edge GoalState.queued GoalState.completed = true
goal_edge GoalState.queued GoalState.cancel_requested = true
goal_edge GoalState.running GoalState.completed = true
goal_edge GoalState.running GoalState.failed = true
goal_edge GoalState.running GoalState.blocked = true
goal_edge GoalState.running GoalState.cancelled = true
goal_edge GoalState.running GoalState.cancel_requested = true
goal_edge GoalState.blocked GoalState.queued = true
goal_edge GoalState.blocked GoalState.running = true
goal_edge GoalState.blocked GoalState.failed = true
goal_edge GoalState.blocked GoalState.cancelled = true
goal_edge GoalState.blocked GoalState.cancel_requested = true
goal_edge GoalState.cancel_requested GoalState.cancelled = true
goal_edge GoalState.cancel_requested GoalState.failed = true
goal_edge GoalState.failed GoalState.queued = true
goal_edge _ _ = false

-- `LifecycleError`, by its three messages
pub data LifecycleError : Type 0 where
  unsupported_kind : String → LifecycleError
  unknown_state : String → String → LifecycleError
  illegal_transition : String → String → LifecycleError

-- The two membership tests and the look-up of the edge, for one vocabulary.
unfoldable pub check_edge :
    {S : Type 0}
    → Dict String S
    → (S → S → Bool)
    → String
    → String
    → Result LifecycleError (Unit {0})
check_edge states edge src dst = elim (lookup src states) [
  | none ↦ err (unknown_state src dst)
  | some s ↦ elim (lookup dst states) [
    | none ↦ err (unknown_state src dst)
    | some d ↦ if edge s d then ok tt else err (illegal_transition src dst)
  ]
]

unfoldable pub assert_transition : String → String → String → Result LifecycleError (Unit {0})
assert_transition kind src dst =
    let k = lower (strip kind) in
    if k == "task"
    then check_edge task_states task_edge src dst
    else if k == "goal"
    then check_edge goal_states goal_edge src dst
    else err (unsupported_kind kind)

-- `_JOB_TO_TASK_RUN`
abbrev pub job_to_task_run : Dict String (TaskState × RunState)
job_to_task_run =
    ("queued", (TaskState.queued, RunState.starting))
    ∷ ("starting", (TaskState.running, RunState.starting))
    ∷ ("running", (TaskState.running, RunState.running))
    ∷ ("pending_approval", (TaskState.awaiting_decision, RunState.awaiting_decision))
    ∷ ("cancel_requested", (TaskState.cancel_requested, RunState.cancel_requested))
    ∷ ("cancelled", (TaskState.cancelled, RunState.cancelled))
    ∷ ("done", (TaskState.succeeded, RunState.succeeded))
    ∷ ("fail", (TaskState.failed, RunState.failed))
    ∷ ("timeout", (TaskState.failed, RunState.failed))
    ∷ []

pub record Projection : Type 0 where
  pub job_state : String
  pub task_state : TaskState
  pub run_state : RunState
  pub error_class : Option ErrorClass
  pub goal_id : String
  pub task_id : String
  pub readonly : Bool

job_states_of : String → TaskState × RunState
job_states_of key = elim (lookup key job_to_task_run) [
  | some p ↦ p
  | none ↦ (TaskState.unknown, RunState.unknown)
]

-- The values of "task_state" and "error_class" for the stripped key.
task_state_of : String → Bool → TaskState
unfolding job_states_of
task_state_of key force_lead_review =
    if key == "done" && force_lead_review then TaskState.succeeded else (job_states_of key).0

error_class_of : String → Option ErrorClass
error_class_of key =
    if key == "timeout"
    then some ErrorClass.budget_exhausted
    else if key == "fail"
    then some ErrorClass.implementation_failed
    else none

unfoldable pub project_scheduler_state : String → Bool → Bool → String → String → Projection
unfolding job_states_of task_state_of error_class_of
project_scheduler_state job_state busy force_lead_review goal_id task_id =
    let key = strip job_state in
    record {
      job_state = key;
      task_state = task_state_of key force_lead_review;
      run_state = if key == "running" && busy then RunState.observing else (job_states_of key).1;
      error_class = error_class_of key;
      goal_id = goal_id;
      task_id = task_id;
      readonly = true;
    }
