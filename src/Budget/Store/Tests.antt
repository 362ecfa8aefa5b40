-- ===== src/Budget/Store/Tests.antt =====
-- Sessions at concrete inputs.
use teleagent_collab.Common.{refl, none, some, [], ◌∷◌, string_eq, lookup, take_last, strip, arith}
use teleagent_collab.Budget.{opened_note, zero_cost, BudgetLimits, GoalBudget, reserve_entry}
use teleagent_collab.Budget.Store.{
  payload_of, Session, emptied, persist, reload, reload_from, reserve, open_account,
}
use teleagent_collab.Budget.Store.Steps.{Step, reserves, here, next, books_sound}
use teleagent_collab.Budget.Store.Recovery.{IsSoundFile}

abbrev caps : BudgetLimits
caps = record {
  wall_sec = 360000000000;
  max_attempts = 8;
  max_reworks = 1;
  max_approvals = 8;
  max_usage = some 5;
}

abbrev blank : GoalBudget
blank = record {
  goal_id = "goal";
  limits = caps;
  started_at = 1;
  wall_deadline = 360000000001;
  consumed = zero_cost;
  reserved = zero_cost;
  reservations = [];
  ledger = [];
  notes = opened_note ∷ [];
}

abbrev stale : GoalBudget
stale = record blank { wall_deadline = 0; consumed = record zero_cost { attempts = 7 } }

abbrev opened : Session
opened = persist blank

abbrev dispatched : Session
dispatched =
    persist
      (reserve_entry 5 "run_1" "task_1" "" (record zero_cost { attempts = 1 })
        (record blank { notes = opened_note ∷ [] })).0

dispatch-Step : Step opened dispatched
unfolding reserve reload reload_from persist payload_of strip take_last lookup emptied
dispatch-Step =
    reserves 5 "u" "run_1" "task_1" "" none
      (reserve_entry 5 "run_1" "task_1" "" (record zero_cost { attempts = 1 }) blank).1 refl
      (λ r e. ground arith) refl

books_sound_example : IsSoundFile dispatched.disk
unfolding open_account reload reload_from emptied strip
books_sound_example = books_sound 1 "goal" caps opened dispatched refl (next here dispatch-Step)
