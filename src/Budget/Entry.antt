-- ===== src/Budget/Entry.antt =====
-- execution_backend/goal_budget.py: `can_enter_running`, the gate of a task's start, which asks
-- task_deps, workdir_claim and the account; and `attach_goal_budget`, which stands at its end.
mod Ready
mod Tests
use teleagent_collab.Common.{
  ℕ, ◌*◌, ◌-◌, min, ◌≡◌, Bool, true, false, not, ◌&&◌, ◌||◌, Option, none, some, List, [], ◌∷◌,
  ◌++◌, String, Dict, string_eq, strip, non_empty, str_or, ltb, ◌==◌, if◌then◌else◌,
}
use teleagent_collab.Budget.{
  BudgetCost, GoalBudget, Reason, remaining_wall_sec, can_reserve, over_budget,
}
use teleagent_collab.Lifecycle.{TaskState, ErrorClass, map_error_class}
use teleagent_collab.TaskDeps.{Item, Completed}
use teleagent_collab.TaskDeps as Deps
use teleagent_collab.Claim.{Occupancy, Registry, occupancy}

-- `estimate_dispatch_cost`: at most a second of what remains.
unfoldable pub estimate_dispatch_cost :
    (remaining_wall attempt_n : ℕ) → (need_review : Bool) → BudgetCost
estimate_dispatch_cost remaining_wall attempt_n need_review = record {
  wall_sec = min 1000000000 remaining_wall;
  attempts = 1;
  reworks = if ltb 1 attempt_n then 1 else 0;
  approvals = if need_review then 1 else 0;
  usage = 0;
}

-- The answer of the gate
pub record Gate : Type 0 where
  pub is_ready : Bool
  pub task_state : TaskState
  pub reason : Reason
  pub missing : List String
  pub holder : Option Occupancy
  pub error_class : Option ErrorClass

-- `depends_on` of the caller, of the task, or of the charter; none of them is no dependency.
unfoldable pub items_of : (depends_on of_task of_charter : Option (List Item)) → List Item
items_of (some items) of_task of_charter = items
items_of none (some items) of_charter = items
items_of none none (some items) = items
items_of none none none = []

-- The occupancy of the task's directory, where it and a registry are given
unfoldable pub held_by_other : (holder_id : String) → Option Occupancy → Bool
held_by_other holder_id none = false
held_by_other holder_id (some occ) =
    non_empty occ.holder_id && not (occ.holder_id == strip holder_id)

unfoldable pub occupancy_of : Option (Registry × Option Occupancy) → Option Occupancy
occupancy_of none = none
occupancy_of (some (registry, on_disk)) = occupancy registry on_disk

-- `reserve_cost or estimate_dispatch_cost(...)`; a cost object is always true.
unfoldable pub cost_of :
    (now : ℕ) → Option BudgetCost → (force_lead_review : Bool) → GoalBudget → BudgetCost
cost_of now (some cost) force_lead_review a = cost
cost_of now none force_lead_review a =
    estimate_dispatch_cost (remaining_wall_sec now a) 1 force_lead_review

unfoldable pub budget_allows :
    (now : ℕ) → Option BudgetCost → (force_lead_review : Bool) → Option GoalBudget → Bool
budget_allows now cost review none = true
budget_allows now cost review (some a) = can_reserve now (cost_of now cost review a) a

pass : Gate
pass = record {
  is_ready = true;
  task_state = TaskState.running;
  reason = Reason.ready;
  missing = [];
  holder = none;
  error_class = none;
}

stays_queued : Reason → List String → Option Occupancy → Gate
stays_queued reason missing holder = record {
  is_ready = false;
  task_state = TaskState.queued;
  reason = reason;
  missing = missing;
  holder = holder;
  error_class = none;
}

fails : Gate
fails = record {
  is_ready = false;
  task_state = TaskState.failed;
  reason = Reason.budget_exhausted;
  missing = [];
  holder = none;
  error_class = some (map_error_class "budget_exhausted" "");
}

-- The three tests in their order: dependencies, directory, budget
unfoldable pub gate :
    List String → (holder_id : String) → Option Occupancy → (can_pay : Bool) → Gate
unfolding pass stays_queued fails
gate (m ∷ missing) holder_id occ can_pay = stays_queued Reason.unsatisfied_deps (m ∷ missing) none
gate [] holder_id occ can_pay =
    if held_by_other holder_id occ
    then stays_queued Reason.workdir_occupied [] occ
    else if can_pay
    then pass
    else fails

module _ (has_suffix : String → Bool) (is_absolute_file : String → Bool)
    (is_in_root : String → String → Bool) (roots : List String)
    (completed : Option (Dict String Completed)) (enforce_named_deps : Option Bool) where
  unfoldable pub can_enter_running :
      (now : ℕ) (depends_on of_task of_charter : Option (List Item)) (holder_id : String)
      → Option (Registry × Option Occupancy)
      → Option BudgetCost
      → (force_lead_review : Bool) → Option GoalBudget
      → Gate
  can_enter_running now depends_on of_task of_charter holder_id claims cost review budget =
      gate
        (Deps.unsatisfied_deps has_suffix is_absolute_file is_in_root roots completed
          enforce_named_deps (items_of depends_on of_task of_charter))
        holder_id (occupancy_of claims) (budget_allows now cost review budget)

-- The fields of a job's result that `attach_goal_budget` reads or changes
pub record JobResult : Type 0 where
  pub goal_id : String
  pub is_ok : Bool
  pub state : String
  pub error_class : Option ErrorClass
  pub error : String
  pub notes : List String
  pub goal_budget : Option GoalBudget

refused : JobResult → JobResult
refused r = record r {
  is_ok = false;
  state = "fail";
  error_class = some (map_error_class "budget_exhausted" "");
  error = str_or r.error "goal budget over after reconcile; success refused";
  notes = r.notes ++ "over-budget must not report success" ∷ [];
}

unfoldable pub attach_goal_budget : (now : ℕ) → JobResult → Option GoalBudget → JobResult
unfolding refused
attach_goal_budget now r none = r
attach_goal_budget now r (some a) =
    let with_account : JobResult = record r {
      goal_budget = some a;
      goal_id = str_or r.goal_id a.goal_id;
    } in
    if over_budget now a && r.is_ok then refused with_account else with_account
