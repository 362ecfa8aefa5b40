-- ===== src/Ownership/Plans.antt =====
-- framework/goal_ownership.py: the legality of a plan document, and the reason for which one is
-- rejected.
use teleagent_collab.Common.{
  ℕ, suc, Bool, Option, none, some, List, [], ◌∷◌, ◌||◌, ◌&&◌, not, true, false, String, Dict,
  string_eq, lookup, insert, contains, strip, non_empty, all, keep, append, join, has_prefix,
  occurs, Result, ok, err, ◌>>=◌, ◌==◌, if◌then◌else◌,
}
use teleagent_collab.Lifecycle.{
  LifecycleError, unsupported_kind, unknown_state, illegal_transition, task_states,
  assert_transition,
}
use teleagent_collab.PathScope.{PythonText}
use teleagent_collab.Ownership.Json.{
  Json, null, number, text, array, Document, Python, has_key, mapping, get_list, items_of, str_of,
  str_or_default, task_id_of, tasks_by_id,
}
use teleagent_collab.Ownership.Autonomy.{check_plan_against_autonomy}
use teleagent_collab.Ownership.Contract.{extract_goal_contract}
use teleagent_collab.Ownership.Checks.{check_contract_ceiling}

-- `sorted(_FORBIDDEN_PLAN_KEYS)`
abbrev pub forbidden_plan_keys : List String
forbidden_plan_keys = "coordinator_id" ∷ "ownership" ∷ "ownership_version" ∷ "version" ∷ []

abbrev pub active_task_statuses : List String
active_task_statuses = "running" ∷ "awaiting_decision" ∷ "review" ∷ "cancel_requested" ∷ []

abbrev pub new_task_statuses : List String
new_task_statuses = "queued" ∷ "blocked" ∷ []

-- The reasons of refusals, and `ready`
pub data Reason : Type 0 where
  ready stale_ownership not_coordinator no_owner already_owned illegal_plan stale_proposal : Reason
  unknown_proposal empty_coordinator contract_expansion path_escape gate_removed : Reason
  autonomy_denied : Reason

-- A text of some words after one another
abbrev pub words : List String → String
words ws = join "" ws

unfoldable pub is_text : Json → Bool
is_text (text s) = non_empty (strip s)
is_text _ = false

-- `tid in by_id`
abbrev pub has_task : String → Dict String Document → Bool
has_task tid by_id = elim (lookup tid by_id) [ none ↦ false | some _ ↦ true ]

module _ (py : Python) where
  -- `{x!r}` of a text, and a number in a text
  quoted : String → String
  quoted s = py.repr (text s)

  decimal : ℕ → String
  decimal n = py.repr (number record { below_zero = false; digits = n; scale = 0 })

  lifecycle_text : LifecycleError → String
  unfolding quoted
  lifecycle_text (unsupported_kind kind) =
      words ("unsupported kind=" ∷ quoted kind ∷ " (task or goal)" ∷ [])
  lifecycle_text (unknown_state src dst) =
      words ("unknown task state " ∷ quoted src ∷ " -> " ∷ quoted dst ∷ [])
  lifecycle_text (illegal_transition src dst) =
      words ("illegal task transition " ∷ src ∷ " -> " ∷ dst ∷ [])

  -- `str(task.get("status") or "queued")`
  unfoldable pub status_of : Document → String
  status_of task = str_or_default py (lookup "status" task) "queued"

  -- Whether "goal_id" names another goal
  names_other_goal : String → Document → Bool
  names_other_goal goal_id d =
      let gid = strip (str_or_default py (lookup "goal_id" d) "") in
      non_empty gid && not (gid == goal_id)

  check_depends_on : String → Document → Result String (Unit {0})
  check_depends_on tid task = elim (lookup "depends_on" task) [
    | none ↦ ok tt
    | some null ↦ ok tt
    | some (array deps) ↦
        (if all is_text (items_of deps)
          then ok tt
          else err (words ("task " ∷ tid ∷ " depends_on entries must be non-empty strings" ∷ [])))
    | some _ ↦ err (words ("task " ∷ tid ∷ " depends_on must be a list" ∷ []))
  ]

  check_status : String → Document → Result String (Unit {0})
  unfolding quoted
  check_status tid task = elim (lookup "status" task) [
    | none ↦ ok tt
    | some null ↦ ok tt
    | some j ↦ elim (lookup (str_of py j) task_states) [
      | some _ ↦ ok tt
      | none ↦ err (words ("task " ∷ tid ∷ " illegal status " ∷ quoted (str_of py j) ∷ []))
    ]
  ]

  -- One task of the loop, once it is an object
  unfoldable pub check_object :
      String → ℕ → Document → Dict String Document → Result String (Dict String Document)
  unfolding decimal names_other_goal check_depends_on check_status
  check_object goal_id i task new_by_id =
      let tid = task_id_of py task in
      if not (non_empty tid)
      then err (words ("plan.tasks[" ∷ decimal i ∷ "] task_id required" ∷ []))
      else if has_task tid new_by_id
      then err (append "duplicate task_id " tid)
      else if names_other_goal goal_id task
      then err (words ("task " ∷ tid ∷ " goal_id mismatch" ∷ []))
      else check_depends_on tid task >>= (λ _. check_status tid task) >>= λ _.
          ok (insert tid task new_by_id)

  unfoldable pub check_task :
      String → ℕ → Json → Dict String Document → Result String (Dict String Document)
  unfolding decimal
  check_task goal_id i j new_by_id = elim (mapping j) [
    | none ↦ err (words ("plan.tasks[" ∷ decimal i ∷ "] must be an object" ∷ []))
    | some task ↦ check_object goal_id i task new_by_id
  ]

  -- The loop over "tasks", with `new_by_id`
  unfoldable pub check_tasks :
      String → ℕ → List Json → Dict String Document → Result String (Dict String Document)
  check_tasks goal_id i [] new_by_id = ok new_by_id
  check_tasks goal_id i (j ∷ js) new_by_id =
      check_task goal_id i j new_by_id >>= check_tasks goal_id (suc i) js

  -- The loop over `old_by_id`: active tasks stay.
  unfoldable pub check_dropped :
      Dict String Document → Dict String Document → Result String (Unit {0})
  check_dropped [] new_by_id = ok tt
  check_dropped ((tid, old) ∷ rest) new_by_id =
      let more = check_dropped rest new_by_id in
      let st = status_of old in
      if not (has_task tid new_by_id) && contains active_task_statuses st
      then err (words ("cannot drop active task " ∷ tid ∷ " status=" ∷ st ∷ []))
      else more

  -- One task of the loop over `new_by_id`
  unfoldable pub check_change : String → Option Document → Document → Result String (Unit {0})
  unfolding lifecycle_text
  check_change tid none task =
      let new_st = status_of task in
      if contains new_task_statuses new_st
      then ok tt
      else err (words ("new task " ∷ tid ∷ " must start queued/blocked, not " ∷ new_st ∷ []))
  check_change tid (some old) task =
      let old_st = status_of old in
      let new_st = status_of task in
      if old_st == new_st then ok tt else elim (assert_transition "task" old_st new_st) [
        | ok _ ↦ ok tt
        | err e ↦ err (words ("illegal task transition " ∷ tid ∷ ": " ∷ lifecycle_text e ∷ []))
      ]

  unfoldable pub check_changes :
      Dict String Document → Dict String Document → Result String (Unit {0})
  check_changes old_by_id [] = ok tt
  check_changes old_by_id ((tid, task) ∷ rest) =
      check_change tid (lookup tid old_by_id) task >>= λ _. check_changes old_by_id rest

  -- The tests of a plan against the tasks of the current one
  unfoldable pub check_against_current : Document → Dict String Document → Result String (Unit {0})
  check_against_current current new_by_id =
      let old_by_id = tasks_by_id py current in
      check_dropped old_by_id new_by_id >>= λ _. check_changes old_by_id new_by_id

  unfoldable pub check_document : String → Document → Result String (Dict String Document)
  unfolding names_other_goal
  check_document goal_id plan =
      let rewritten = keep (λ k. has_key k plan) forbidden_plan_keys in
      let tasks : Result String (List Json) = elim (lookup "tasks" plan) [
        | none ↦ err "plan.tasks must be a list"
        | some j ↦ elim (get_list j) [ none ↦ err "plan.tasks must be a list" | some js ↦ ok js ]
      ] in
      elim rewritten [
        | k ∷ ks ↦ err (words ("plan cannot rewrite ownership (" ∷ join ", " (k ∷ ks) ∷ ")" ∷ []))
        | [] ↦
            (if names_other_goal goal_id plan
              then err "plan.goal_id mismatch"
              else tasks >>= λ js. check_tasks goal_id 0 js [])
      ]

  -- `extract_goal_contract(goal_contract)`, or that of the current plan
  unfoldable pub ceiling_of : Document → Document → Document
  ceiling_of goal_contract current = elim (extract_goal_contract py goal_contract) [
    | [] ↦ extract_goal_contract py current
    | kv ∷ rest ↦ kv ∷ rest
  ]

  unfoldable pub check_ceiling :
      PythonText → Document → Document → Option Document → Result String (Unit {0})
  unfolding ceiling_of
  check_ceiling py_text plan current none = ok tt
  check_ceiling py_text plan current (some contract) =
      check_contract_ceiling py py_text plan (ceiling_of contract current)

  -- `validate_plan_revision`, for a plan that is an object. `claim` leaves out the ceiling.
  unfoldable pub validate_document :
      PythonText → String → Document → Document → Option Document → Json → Result String (Unit {0})
  validate_document py_text goal_id plan current goal_contract autonomy =
      check_document goal_id plan
      >>= check_against_current current
      >>= (λ _. check_ceiling py_text plan current goal_contract)
      >>= λ _. check_plan_against_autonomy py autonomy current plan

  unfoldable pub validate_plan_revision :
      PythonText → String → Json → Document → Option Document → Json → Result String (Unit {0})
  validate_plan_revision py_text goal_id plan current goal_contract autonomy = elim (mapping plan) [
    | none ↦ err "plan must be an object"
    | some d ↦ validate_document py_text goal_id d current goal_contract autonomy
  ]

-- `_reject_reason_for_plan_detail`
unfoldable pub reject_reason : String → Reason
reject_reason detail =
    if detail == "path_escape" || has_prefix detail "path_escape:"
    then path_escape
    else if detail == "required_gate_removed" || has_prefix detail "required_gate_removed:"
    then gate_removed
    else if occurs "expands Goal contract" detail
    then contract_expansion
    else if detail == "autonomy_denied" || occurs "forbids" detail || occurs "autonomy" detail
    then autonomy_denied
    else illegal_plan
