-- ===== src/Concurrency/Tests.antt =====
-- The scheduler's rules on small goals.
use teleagent_collab.Common.{
  ◌≤◌, ◌≡◌, refl, ◌↔◌, Bool, false, some, List, [], ◌∷◌, String, string_eq, any, all, arith, ◌==◌,
  lookup, insert, keep, strip,
}
use teleagent_collab.Concurrency.{
  Task, deps_of, status_map, dead_dep, has_status, task_is_ready, task_waiting_on_live_dep,
  goal_has_progress, makes_progress, remaining_slots,
}
use teleagent_collab.Concurrency.Slots.{AllFit, remaining_slots_iff}

abbrev task : String → String → List String → Task
task i s deps = record {
  task_id = i;
  status = s;
  depends_on = some deps;
  run_parked = false;
  parked_decision = "";
  blocked_on_decision = "";
}

remaining_slots_iff_example : (1 ≤ remaining_slots 2 1 4 3 (some 8)) ↔ AllFit 2 1 4 3 (some 8) 1
remaining_slots_iff_example = remaining_slots_iff 2 1 4 3 (some 8) 1 (omega arith)

abbrev failed_chain : List Task
failed_chain = task "a" "failed" [] ∷ task "b" "queued" ("a" ∷ []) ∷ []

failed_chain-stops : goal_has_progress failed_chain ≡ false
unfolding goal_has_progress makes_progress task_is_ready task_waiting_on_live_dep any all deps_of
    keep strip has_status dead_dep status_map lookup insert string_eq
failed_chain-stops = refl

abbrev open_chain : List Task
open_chain = task "b" "queued" ("lost" ∷ []) ∷ []

abbrev waiter : Task
waiter = task "b" "queued" ("lost" ∷ [])

abbrev two_ready : List Task
two_ready = task "a" "queued" [] ∷ task "b" "queued" [] ∷ []

abbrev a_is_held : Task → Bool
a_is_held t = t.task_id == "a"
