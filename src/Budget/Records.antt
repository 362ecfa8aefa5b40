-- ===== src/Budget/Records.antt =====
-- execution_backend/goal_budget.py: costs, limits, reservations and the account that holds them.
use teleagent_collab.Common.{
  ℕ, ◌+◌, ◌-◌, Bool, true, false, Option, none, some, List, [], ◌∷◌, ◌++◌, String, Dict, string_eq,
  ltb, if◌then◌else◌,
}

pub record BudgetCost : Type 0 where
  pub wall_sec : ℕ
  pub attempts : ℕ
  pub reworks : ℕ
  pub approvals : ℕ
  pub usage : ℕ

abbrev pub zero_cost : BudgetCost
zero_cost = record { wall_sec = 0; attempts = 0; reworks = 0; approvals = 0; usage = 0 }

unfoldable pub add : BudgetCost → BudgetCost → BudgetCost
add a b = record {
  wall_sec = a.wall_sec + b.wall_sec;
  attempts = a.attempts + b.attempts;
  reworks = a.reworks + b.reworks;
  approvals = a.approvals + b.approvals;
  usage = a.usage + b.usage;
}

-- `max(0, a - b)` is the subtraction of natural numbers.
unfoldable pub sub : BudgetCost → BudgetCost → BudgetCost
sub a b = record {
  wall_sec = a.wall_sec - b.wall_sec;
  attempts = a.attempts - b.attempts;
  reworks = a.reworks - b.reworks;
  approvals = a.approvals - b.approvals;
  usage = a.usage - b.usage;
}

pub record BudgetLimits : Type 0 where
  pub wall_sec : ℕ
  pub max_attempts : ℕ
  pub max_reworks : ℕ
  pub max_approvals : ℕ
  pub max_usage : Option ℕ

pub data Dimension : Type 0 where
  wall_dim attempts_dim reworks_dim approvals_dim usage_dim : Dimension

abbrev flag : Bool → Dimension → List Dimension
flag b d = if b then d ∷ [] else []

usage_exceeds : ℕ → Option ℕ → Bool
usage_exceeds used none = false
usage_exceeds used (some cap) = ltb (cap + 1) used

unfoldable pub used_exceeds : BudgetCost → BudgetLimits → List Dimension
unfolding usage_exceeds
used_exceeds used limits =
    flag (ltb (limits.wall_sec + 1) used.wall_sec) wall_dim
    ++ (flag (ltb limits.max_attempts used.attempts) attempts_dim
        ++ (flag (ltb limits.max_reworks used.reworks) reworks_dim
            ++ (flag (ltb limits.max_approvals used.approvals) approvals_dim
                ++ flag (usage_exceeds used.usage limits.max_usage) usage_dim)))

-- Unlimited usage is reported as 0 left.
unfoldable pub remaining_of : BudgetLimits → BudgetCost → BudgetCost
remaining_of limits used = record {
  wall_sec = limits.wall_sec - used.wall_sec;
  attempts = limits.max_attempts - used.attempts;
  reworks = limits.max_reworks - used.reworks;
  approvals = limits.max_approvals - used.approvals;
  usage = elim limits.max_usage [ none ↦ 0 | some cap ↦ cap - used.usage ];
}

pub data Status : Type 0 where
  held reconciled released denied : Status

abbrev pub is_held : Status → Bool
is_held held = true
is_held _ = false

pub data Reason : Type 0 where
  ready unsatisfied_deps budget_exhausted workdir_occupied max_parallel : Reason

pub record Reservation : Type 0 where
  pub reservation_id : String
  pub goal_id : String
  pub task_id : String
  pub run_id : String
  pub cost : BudgetCost
  pub granted : Bool
  pub status : Status
  pub reason : Reason
  pub created_at : ℕ

-- The entries of `ledger`, one constructor for each value of "op".
pub data LedgerEntry : Type 0 where
  reserve_op : (reservation_id task_id run_id : String) → BudgetCost → (at : ℕ) → LedgerEntry
  reserve_denied_op :
      (reservation_id task_id : String) → Reason → BudgetCost → (at : ℕ) → LedgerEntry
  reconcile_op :
      (reservation_id task_id run_id : String)
      → (reserved actual released : BudgetCost) → (over_budget : Bool) → (at : ℕ) → LedgerEntry
  reconcile_unheld_op : (reservation_id : String) → (actual : BudgetCost) → (at : ℕ) → LedgerEntry
  release_op : (reservation_id task_id : String) → (at : ℕ) → LedgerEntry

-- The lines of `notes`, by what each is formatted from.
pub data Note : Type 0 where
  opened_note : Note
  reserve_note : (reservation_id task_id : String) → BudgetCost → Note
  denied_note : (reservation_id task_id : String) → Reason → Note
  reconcile_note : (reservation_id : String) → BudgetCost → Bool → Note

pub record GoalBudget : Type 0 where
  pub goal_id : String
  pub limits : BudgetLimits
  pub started_at : ℕ
  pub wall_deadline : ℕ
  pub consumed : BudgetCost
  pub reserved : BudgetCost
  pub reservations : Dict String Reservation
  pub ledger : List LedgerEntry
  pub notes : List Note
