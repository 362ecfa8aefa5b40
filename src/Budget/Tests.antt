-- ===== src/Budget/Tests.antt =====
-- Accounts at concrete inputs.
use teleagent_collab.Common.{◌≡◌, refl, ◌↔◌, ◌<◌, true, none, [], string_eq, lookup, arith}
use teleagent_collab.Budget.{
  BudgetCost, zero_cost, BudgetLimits, attempts_dim, used_exceeds, Reservation, GoalBudget,
  committed, add, reserve_entry, reconcile_entry,
}
use teleagent_collab.Budget.Balance.{
  IsBalanced, held_sum, reserve_entry-IsBalanced, reconcile_entry-IsBalanced,
}
use teleagent_collab.Budget.Charges.{IsCharged, reconcile_entry-IsCharged, charged}
use teleagent_collab.Budget.Gate.{Fits, reserve_entry-granted_iff, used_exceeds-nil_iff}

abbrev pub limits : BudgetLimits
limits = record {
  wall_sec = 360000000000;
  max_attempts = 2;
  max_reworks = 1;
  max_approvals = 8;
  max_usage = none;
}

abbrev pub fresh_account : GoalBudget
fresh_account = record {
  goal_id = "goal";
  limits = limits;
  started_at = 0;
  wall_deadline = 360000000000;
  consumed = zero_cost;
  reserved = zero_cost;
  reservations = [];
  ledger = [];
  notes = [];
}

abbrev one_attempt : BudgetCost
one_attempt = record zero_cost { attempts = 1 }

abbrev three_attempts : BudgetCost
three_attempts = record zero_cost { attempts = 3 }

abbrev one_held : GoalBudget
one_held = (reserve_entry 5 "run_1" "task_1" "" one_attempt fresh_account).0

fresh_account-IsBalanced : IsBalanced fresh_account
unfolding held_sum
fresh_account-IsBalanced attempts_dim = refl
fresh_account-IsBalanced _ = refl

reserve_entry-IsBalanced_example : IsBalanced one_held
unfolding lookup
reserve_entry-IsBalanced_example =
    reserve_entry-IsBalanced 5 "run_1" "task_1" "" one_attempt fresh_account (λ r e. ground arith)
      fresh_account-IsBalanced

reconcile_entry-IsBalanced_example : IsBalanced (reconcile_entry 9 "run_1" one_attempt one_held).0
reconcile_entry-IsBalanced_example =
    reconcile_entry-IsBalanced 9 "run_1" one_attempt one_held reserve_entry-IsBalanced_example

fresh_account-IsCharged : IsCharged fresh_account
unfolding charged
fresh_account-IsCharged attempts_dim = refl
fresh_account-IsCharged _ = refl

reconcile_entry-IsCharged_example :
    IsCharged (reconcile_entry 9 "run_1" one_attempt fresh_account).0
reconcile_entry-IsCharged_example =
    reconcile_entry-IsCharged 9 "run_1" one_attempt fresh_account fresh_account-IsCharged

reserve_entry-granted_iff_example :
    ((reserve_entry 5 "run_1" "task_1" "" one_attempt fresh_account).1.granted ≡ true)
    ↔ ((5 < 360000000000) × Fits (add (committed fresh_account) one_attempt) limits)
reserve_entry-granted_iff_example =
    reserve_entry-granted_iff 5 "run_1" "task_1" "" one_attempt fresh_account

used_exceeds-nil_iff_example : (used_exceeds one_attempt limits ≡ []) ↔ Fits one_attempt limits
used_exceeds-nil_iff_example = used_exceeds-nil_iff one_attempt limits

abbrev first_reservation : Reservation
first_reservation = (reserve_entry 5 "run_1" "task_1" "" one_attempt fresh_account).1
