-- ===== src/Budget/Entry/Tests.antt =====
-- The gate of a task's start at concrete inputs.
use teleagent_collab.Common.{◌≡◌, ◌↔◌, Bool, true, false, Option, none, some, List, [], ◌∷◌, String}
use teleagent_collab.Budget.Tests.{fresh_account}
use teleagent_collab.TaskDeps.{Item, entry, true_value, parse_depends_on}
use teleagent_collab.TaskDeps.Unsatisfied.{AllSatisfied}
use teleagent_collab.Claim.{Registry}
use teleagent_collab.Budget.Entry.{can_enter_running, items_of, occupancy_of, JobResult}
use teleagent_collab.Budget.Entry.Ready.{IsFreeFor, CanPay, can_enter_running-ready_iff}

abbrev no_suffix : String → Bool
no_suffix s = false

abbrev not_in_root : String → String → Bool
not_in_root root s = false

abbrev needed : Option (List Item)
needed = some (entry "task:t1" ∷ [])

abbrev held : Registry
held = record {
  held = some (record {
    holder_id = "h";
    job_name = "job";
    backend_id = "inprocess.local_v1";
    backend_instance_id = "";
    pid = 7;
    thread_id = 1;
    claimed_at = 5;
    write_paths = [];
    waiters = [];
    refcount = 1;
  });
  lock = some 3;
}

can_enter_running-ready_iff_example :
    ((can_enter_running no_suffix no_suffix not_in_root []
        (some (("t1", true_value) ∷ []))
        none
        5
        none
        needed
        none
        "h"
        (some (held, none))
        none
        true
        (some fresh_account)).is_ready
      ≡ true)
    ↔ (AllSatisfied no_suffix no_suffix not_in_root []
          (some (("t1", true_value) ∷ []))
          none
          (parse_depends_on no_suffix (items_of none needed none))
        × IsFreeFor "h" (occupancy_of (some (held, none)))
        × CanPay 5 none true (some fresh_account))
can_enter_running-ready_iff_example =
    can_enter_running-ready_iff no_suffix no_suffix not_in_root [] (some (("t1", true_value) ∷ []))
      none 5 none needed none "h" (some (held, none)) none true (some fresh_account)

abbrev done : JobResult
done = record {
  goal_id = "";
  is_ok = true;
  state = "done";
  error_class = none;
  error = "";
  notes = [];
  goal_budget = none;
}
