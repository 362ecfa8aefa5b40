-- ===== src/Lifecycle/Transitions.antt =====
-- What `assert_transition` accepts, and where chains of accepted transitions lead.
use text.Mathlib.TextEquality.{eq_iff}
use teleagent_collab.Common.{
  ◌≡◌, ◌≢◌, ◌↔◌, Bool, true, some, String, Dict, string_eq, lookup, strip, lower, ok, arith,
}
use teleagent_collab.Lifecycle.{
  task_states, goal_states, task_edge, goal_edge, check_edge, assert_transition,
}

-- Both names are in the vocabulary, and the edge is in the table.
abbrev pub IsLegal : {S : Type 0} → Dict String S → (S → S → Bool) → String → String → Type 0
IsLegal {S} states edge src dst =
    (s : S) × (d : S) × (lookup src states ≡ some s)
    × (lookup dst states ≡ some d)
    × (edge s d ≡ true)

module _ {S : Type 0} (states : Dict String S) (edge : S → S → Bool) (src dst : String) where
  check_edge_sound : check_edge states edge src dst ≡ ok tt → IsLegal states edge src dst
  unfolding check_edge
  check_edge_sound h = ground arith

  check_edge_complete : IsLegal states edge src dst → check_edge states edge src dst ≡ ok tt
  unfolding check_edge
  check_edge_complete (s, d, es, ed, e) = ground arith

-- A task transition is accepted exactly when both names are task states and the table has the edge,
-- for any spelling of the kind that strips and lowers to "task".
pub assert_transition-task_iff :
    (kind src dst : String)
    → lower (strip kind) ≡ "task"
    → (assert_transition kind src dst ≡ ok tt) ↔ IsLegal task_states task_edge src dst
unfolding assert_transition
assert_transition-task_iff kind src dst k = (
  λ h. check_edge_sound task_states task_edge src dst (ground arith),
  λ l. let e = check_edge_complete task_states task_edge src dst l in ground arith,
)

goal_not_task : ◌≢◌ {A = String} "goal" "task"
goal_not_task = ground (arith, eq_iff "goal" "task")

goal_branch :
    (kind src dst : String)
    → lower (strip kind) ≡ "goal"
    → assert_transition kind src dst ≡ ok tt
    → check_edge goal_states goal_edge src dst ≡ ok tt
unfolding assert_transition
goal_branch kind src dst k h = ground (arith, goal_not_task)

goal_branch_back :
    (kind src dst : String)
    → lower (strip kind) ≡ "goal"
    → check_edge goal_states goal_edge src dst ≡ ok tt
    → assert_transition kind src dst ≡ ok tt
unfolding assert_transition
goal_branch_back kind src dst k h = ground (arith, goal_not_task)

-- A goal transition is accepted exactly when both names are goal states and the table has the edge,
-- for any spelling of the kind that strips and lowers to "goal".
pub assert_transition-goal_iff :
    (kind src dst : String)
    → lower (strip kind) ≡ "goal"
    → (assert_transition kind src dst ≡ ok tt) ↔ IsLegal goal_states goal_edge src dst
unfolding assert_transition
assert_transition-goal_iff kind src dst k = (
  λ h. check_edge_sound goal_states goal_edge src dst (goal_branch kind src dst k h),
  λ l. goal_branch_back kind src dst k (check_edge_complete goal_states goal_edge src dst l),
)
