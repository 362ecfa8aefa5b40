-- ===== src/Concurrency.antt =====
-- framework/concurrency.py: which tasks of a goal may be dispatched, and how many.
mod Slots
mod Progress
mod Caps
mod Waiting
mod Tests
use teleagent_collab.Common.{
  ℕ, suc, ◌+◌, ◌-◌, min, max, Bool, true, false, not, ◌&&◌, ◌||◌, Option, none, some, List, [], ◌∷◌,
  ◌++◌, String, Dict, string_eq, nat_eq, lookup, insert, contains, strip, non_empty, keep, any, all,
  length, ltb, leb, ◌==◌, if◌then◌else◌,
}
use text.Mathlib.Text.{starts_with}

-- The fields of a task's row that this module reads. `depends_on` is none where it is no list.
pub record Task : Type 0 where
  pub task_id : String
  pub status : String
  pub depends_on : Option (List String)
  pub run_parked : Bool
  pub parked_decision : String
  pub blocked_on_decision : String

abbrev pub in_flight : List String
in_flight = "running" ∷ "awaiting_decision" ∷ "review" ∷ "cancel_requested" ∷ []

-- none: not an int. A negative int is a limit of 0 here, which is none of use either.
unfoldable pub as_limit : Option ℕ → Option ℕ
as_limit none = none
as_limit (some n) = if ltb n 1 then none else some n

-- What `budget_block_reason` reads of the snapshot: the numbers that are numbers, and the "op" of
-- each row of the history. Times are exact.
pub record BudgetSnapshot : Type 0 where
  pub wall_sec : Option ℕ
  pub created_at : Option ℕ
  pub max_reworks : Option ℕ
  pub history : List String

pub data BlockReason : Type 0 where
  wall_exceeded reworks_exceeded not_blocked : BlockReason

wall_is_over : ℕ → Option ℕ → Option ℕ → Bool
wall_is_over now (some wall) (some created) = ltb 0 wall && leb (created + wall) now
wall_is_over now _ _ = false

reworks_are_over : Option ℕ → List String → Bool
reworks_are_over none history = false
reworks_are_over (some cap) history = ltb cap (length (keep (λ op. op == "retry_task") history))

unfoldable pub budget_block_reason : ℕ → BudgetSnapshot → BlockReason
unfolding wall_is_over reworks_are_over
budget_block_reason now snap =
    if wall_is_over now snap.wall_sec snap.created_at
    then wall_exceeded
    else if reworks_are_over snap.max_reworks snap.history
    then reworks_exceeded
    else not_blocked

-- `_deps`
unfoldable pub deps_of : Option (List String) → List String
deps_of none = []
deps_of (some raw) = keep (λ item. non_empty (strip item)) raw

-- `_status_map`: the last row of an id stays.
status_map_from : Dict String String → List Task → Dict String String
status_map_from d [] = d
status_map_from d (t ∷ ts) = status_map_from (insert t.task_id t.status d) ts

unfoldable pub status_map : List Task → Dict String String
unfolding status_map_from
status_map ts = status_map_from [] ts

-- `status_by_id.get(dep) == s`
unfoldable pub has_status : Dict String String → String → String → Bool
has_status status_by_id s dep = elim (lookup dep status_by_id) [ none ↦ false | some q ↦ q == s ]

unfoldable pub task_is_ready : Task → Dict String String → Bool
task_is_ready task status_by_id =
    task.status == "queued" && all (has_status status_by_id "succeeded") (deps_of task.depends_on)

abbrev is_nil : List String → Bool
is_nil [] = true
is_nil (_ ∷ _) = false

unfoldable pub dead_dep : Dict String String → String → Bool
dead_dep status_by_id dep =
    has_status status_by_id "failed" dep || has_status status_by_id "cancelled" dep

unfoldable pub task_waiting_on_live_dep : Task → Dict String String → Bool
task_waiting_on_live_dep task status_by_id =
    let deps = deps_of task.depends_on in
    if not (task.status == "queued")
    then false
    else if is_nil deps
    then false
    else if any (dead_dep status_by_id) deps
    then false
    else not (all (has_status status_by_id "succeeded") deps)

-- The tests of the loop's body for one row.
unfoldable pub makes_progress : Dict String String → Task → Bool
makes_progress status_by_id task =
    contains in_flight task.status
    || (task_is_ready task status_by_id || task_waiting_on_live_dep task status_by_id)

unfoldable pub goal_has_progress : List Task → Bool
goal_has_progress tasks = any (makes_progress (status_map tasks)) tasks

unfoldable pub occupies_run_slot : Task → Bool
occupies_run_slot task =
    if not (contains in_flight task.status)
    then false
    else if task.status == "awaiting_decision" && task.run_parked
    then not (non_empty task.parked_decision && task.parked_decision == task.blocked_on_decision)
    else true

unfoldable pub count_inflight : List Task → ℕ
count_inflight tasks = length (keep occupies_run_slot tasks)

pub record Decision : Type 0 where
  pub kind : String
  pub task_id : String
  pub return_to_upper : Bool

unfoldable pub decision_is_global : Decision → Bool
decision_is_global d =
    if d.return_to_upper
    then true
    else if contains ("plan_review" ∷ "return_to_upper" ∷ []) d.kind
        || starts_with d.kind "escalate_"
    then true
    else not (non_empty (strip d.task_id))

unfoldable pub global_decision_blocks : List Decision → Bool
global_decision_blocks pending = any decision_is_global pending

-- The caps and counts are not negative, so that each difference and `max(0, …)` is one subtraction.
unfoldable pub remaining_slots : ℕ → ℕ → ℕ → ℕ → Option ℕ → ℕ
remaining_slots per_goal running_here global_limit running_total backend_limit =
    let slots = min (per_goal - running_here) (global_limit - running_total) in
    elim backend_limit [ none ↦ slots | some b ↦ min slots (b - running_total) ]

limit_or : Option ℕ → ℕ → ℕ
limit_or none d = d
limit_or (some n) d = n

-- The labels that the backend declares, stripped, each once.
clean_labels : List String → List String → List String
clean_labels labels [] = labels
clean_labels labels (item ∷ items) =
    let item' = strip item in
    clean_labels
      (if non_empty item' && not (contains labels item') then labels ++ item' ∷ [] else labels)
      items

-- `for name in labels: if name not in reasons: reasons.append(name)`
add_missing : List String → List String → List String
add_missing reasons [] = reasons
add_missing reasons (name ∷ names) =
    add_missing (if contains reasons name then reasons else reasons ++ name ∷ []) names

pub record PublicConcurrency : Type 0 where
  pub max_parallel_per_goal : ℕ
  pub max_parallel_global : ℕ
  pub backend_max_runs : Option ℕ
  pub effective : ℕ
  pub limited_by : List String

backend_reasons : List String → List String → List String
unfolding add_missing
backend_reasons reasons [] =
    if contains reasons "backend_max_runs" then reasons else reasons ++ "backend_max_runs" ∷ []
backend_reasons reasons (l ∷ ls) = add_missing reasons (l ∷ ls)

lower_of : ℕ → Option ℕ → ℕ
lower_of e none = e
lower_of e (some b) = if ltb b e then b else e

is_cap : Option ℕ → ℕ → Bool
is_cap none e = false
is_cap (some b) e = b == e

-- `declared` is what the backend's "concurrency" says: "max_runs" and "limited_by".
unfoldable pub public_concurrency : Option ℕ → Option ℕ → Option ℕ → List String → PublicConcurrency
unfolding limit_or clean_labels backend_reasons lower_of is_cap
public_concurrency per_goal global max_runs raw_labels =
    let per = limit_or (as_limit per_goal) 2 in
    let glob = limit_or (as_limit global) 4 in
    let backend_num = as_limit max_runs in
    let effective = lower_of (if ltb per glob then per else glob) backend_num in
    let own =
      (if per == effective then "max_parallel_per_goal" ∷ [] else [])
      ++ (if glob == effective then "max_parallel_global" ∷ [] else []) in
    record {
      max_parallel_per_goal = per;
      max_parallel_global = glob;
      backend_max_runs = backend_num;
      effective = effective;
      limited_by =
          if is_cap backend_num effective
          then backend_reasons own (clean_labels [] raw_labels)
          else own;
    }

pub data WaitingReason : Type 0 where
  global_approval capacity workdir_claim not_waiting : WaitingReason

pub record SchedulerView : Type 0 where
  pub running : ℕ
  pub queued_ready : ℕ
  pub capacity_left : ℕ
  pub waiting_reason : WaitingReason

-- The least of `parts`
capacity_of : ℕ → ℕ → Option ℕ → ℕ → ℕ
capacity_of per_goal global_limit none elsewhere = min per_goal (global_limit - elsewhere)
capacity_of per_goal global_limit (some b) elsewhere =
    min (min per_goal (global_limit - elsewhere)) (b - elsewhere)

abbrev any_task : List Task → Bool
any_task [] = false
any_task (_ ∷ _) = true

module _ (pending : List Decision) (per_goal global_limit : ℕ) (backend_limit : Option ℕ)
    (running_elsewhere : ℕ) (directory_is_held : Task → Bool) where
  -- Whether a task's directory key is among the held ones is given by `directory_is_held`: the key is
  -- resolved by the file system.
  unfoldable pub scheduler_view : List Task → SchedulerView
  unfolding capacity_of
  scheduler_view tasks =
      let running = count_inflight tasks in
      let ready = keep (λ t. task_is_ready t (status_map tasks)) tasks in
      let cap = capacity_of per_goal global_limit backend_limit running_elsewhere in
      let slots =
        remaining_slots per_goal running global_limit (running + running_elsewhere) backend_limit in
      record {
        running = running;
        queued_ready = length ready;
        capacity_left = cap;
        waiting_reason =
            if not (any_task ready)
            then not_waiting
            else if global_decision_blocks pending
            then global_approval
            else if leb slots 0 || leb cap running
            then capacity
            else if all directory_is_held ready
            then workdir_claim
            else not_waiting;
      }

unfoldable pub all_tasks_succeeded : List Task → Bool
all_tasks_succeeded tasks = any_task tasks && all (λ t. t.status == "succeeded") tasks

unfoldable pub any_task_failed : List Task → Bool
any_task_failed tasks = any (λ t. t.status == "failed") tasks
