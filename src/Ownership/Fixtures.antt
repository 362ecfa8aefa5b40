-- ===== src/Ownership/Fixtures.antt =====
-- A goal with a coordinator, a contract and a plan, for the tests.
use teleagent_collab.Common.{
  ℕ, Bool, none, [], ◌∷◌, true, false, String, ltb, lower, ◌==◌, if◌then◌else◌, string_eq,
}
use teleagent_collab.PathScope.{PythonText}
use teleagent_collab.Ownership.Json.{
  Json, number, text, array, object, no_items, item, Fields, field, no_fields, Document, Python,
}
use teleagent_collab.Ownership.Store.{GoalOwnership, proposed, PlanRevisionProposal, OwnershipStore}

abbrev pub star_or_same : String → String → Bool
star_or_same name pat = if pat == "*" then true else name == pat

abbrev pub words_of : PythonText
words_of = record { lowered = lower; fnmatchcase = star_or_same }

abbrev pub is_number : Json → Bool
is_number (number n) = true
is_number _ = false

abbrev pub digits_of : Json → ℕ
digits_of (number n) = n.digits
digits_of _ = 0

abbrev pub exceeds : Json → Json → Bool
exceeds a b = ltb (digits_of b) (digits_of a)

abbrev pub nothing : Json → String
nothing _ = "?"

abbrev pub py : Python
py = record {
  repr = nothing;
  is_float = is_number;
  float_exceeds = exceeds;
  is_int = is_number;
  int_exceeds = exceeds;
}

abbrev pub num : ℕ → Json
num n = number record { below_zero = false; digits = n; scale = 0 }

abbrev pub task_fields : String → Fields
task_fields status = field "task_id" (text "t") (field "status" (text status) no_fields)

abbrev pub task_of : String → Json
task_of status = object (task_fields status)

abbrev pub current_plan : Document
current_plan = ("goal_id", text "g") ∷ ("tasks", array (item (task_of "running") no_items)) ∷ []

abbrev pub next_plan : Document
next_plan =
    ("goal_id", text "g")
    ∷ ("tasks", array (item (task_of "review") no_items))
    ∷ ("allow_paths", array (item (text "/safe/src/**") no_items))
    ∷ ("must", array (item (text "m") (item (text "n") no_items)))
    ∷ ("budget", object (field "wall_sec" (num 30) no_fields))
    ∷ []

abbrev pub contract : Document
contract =
    ("budget", object (field "wall_sec" (num 60) no_fields))
    ∷ (
      "boundaries",
      object (
          field "allow_paths" (array (item (text "/safe/**") no_items))
            (field "must" (array (item (text "m") no_items)) no_fields)),
    )
    ∷ []

abbrev pub owner : GoalOwnership
owner = record {
  goal_id = "g";
  coordinator_id = "a";
  version = 1;
  updated_at = 0;
  predecessor_id = "";
}

abbrev pub pending : PlanRevisionProposal
pending = record {
  proposal_id = "p";
  goal_id = "g";
  coordinator_id = "a";
  ownership_version = 1;
  plan = next_plan;
  reason = "";
  created_at = 0;
  status = proposed;
  reject_reason = none;
}

abbrev pub store : OwnershipStore
store = record {
  goal_id = "g";
  ownership = owner;
  plan = current_plan;
  plan_revision = 3;
  goal_contract = contract;
  autonomy = record {
    mode = "undeclared";
    allow_local_plan = true;
    allow_rework = true;
    allow_reassign = true;
    unknown = false;
  };
  proposals = ("p", pending) ∷ [];
  history = [];
}
