-- ===== src/Budget/Entry/Ready.antt =====
-- When a task may start.
use teleagent_collab.Common.{
  ℕ, ◌≡◌, ◌<◌, ◌↔◌, ◌⊎◌, refl, sym, ◌∙◌, arith, Bool, true, false, Option, none, some, List, [],
  String, Dict, string_eq, strip, non_empty,
}
use teleagent_collab.Budget.{BudgetCost, GoalBudget, add, committed, over_budget}
use teleagent_collab.Budget.Gate.{Fits, reserve_entry-granted_iff, granted-can, over_budget_iff}
use teleagent_collab.TaskDeps.{Item, Completed, parse_depends_on}
use teleagent_collab.TaskDeps as Deps
use teleagent_collab.TaskDeps.Unsatisfied.{AllSatisfied, unsatisfied_deps-nil_iff}
use teleagent_collab.Claim.{Occupancy, Registry}
use teleagent_collab.Budget.Entry.{
  items_of, held_by_other, occupancy_of, cost_of, budget_allows, gate, can_enter_running, JobResult,
  attach_goal_budget,
}

-- Nobody, or only the asking holder, has the directory.
abbrev pub IsFreeFor : String → Option Occupancy → Type 0
IsFreeFor holder_id none = Unit
IsFreeFor holder_id (some occ) =
    (non_empty occ.holder_id ≡ false) ⊎ (occ.holder_id ≡ strip holder_id)

-- The account, where there is one, has time and room for the cost.
abbrev pub CanPay : ℕ → Option BudgetCost → Bool → Option GoalBudget → Type 0
CanPay now cost review none = Unit
CanPay now cost review (some a) =
    (now < a.wall_deadline) × Fits (add (committed a) (cost_of now cost review a)) a.limits

gate-ready :
    (missing : List String) (hid : String) (occ : Option Occupancy) (can_pay : Bool)
    → (gate missing hid occ can_pay).is_ready ≡ true
    → (missing ≡ []) × (held_by_other hid occ ≡ false) × (can_pay ≡ true)
unfolding gate
gate-ready missing hid occ can_pay h = ground arith

gate-ready_back :
    (missing : List String) (hid : String) (occ : Option Occupancy) (can_pay : Bool)
    → missing ≡ []
    → held_by_other hid occ ≡ false
    → can_pay ≡ true
    → (gate missing hid occ can_pay).is_ready ≡ true
unfolding gate
gate-ready_back missing hid occ can_pay a b c = ground arith

free_iff :
    (hid : String) (occ : Option Occupancy) → (held_by_other hid occ ≡ false) ↔ IsFreeFor hid occ
unfolding held_by_other
free_iff hid none = (λ _. tt, λ _. refl)
free_iff hid (some occ) = (λ h. ground arith, λ h. ground arith)

allows_iff :
    (now : ℕ) (cost : Option BudgetCost) (review : Bool) (budget : Option GoalBudget)
    → (budget_allows now cost review budget ≡ true) ↔ CanPay now cost review budget
unfolding budget_allows
allows_iff now cost review none = (λ _. tt, λ _. refl)
allows_iff now cost review (some a) =
    let c = cost_of now cost review a in
    let (to, back) = reserve_entry-granted_iff now "" "" "" c a in
    (λ h. to (granted-can now "" "" "" c a ∙ h), λ h. sym (granted-can now "" "" "" c a) ∙ back h)

module _ (has_suffix : String → Bool) (is_absolute_file : String → Bool)
    (is_in_root : String → String → Bool) (roots : List String)
    (completed : Option (Dict String Completed)) (enforce : Option Bool) where
  -- A task may start exactly when every reference of its dependencies is satisfied, its directory is
  -- free or held by the asking holder, and the account, where there is one, is before its deadline
  -- and has room for the cost.
  pub can_enter_running-ready_iff :
      (now : ℕ) (depends_on of_task of_charter : Option (List Item)) (holder_id : String)
      (claims : Option (Registry × Option Occupancy)) (cost : Option BudgetCost) (review : Bool)
      (budget : Option GoalBudget)
      → ((can_enter_running has_suffix is_absolute_file is_in_root roots completed enforce now
            depends_on of_task of_charter holder_id claims cost review budget).is_ready
          ≡ true)
        ↔ (AllSatisfied has_suffix is_absolute_file is_in_root roots completed enforce
              (parse_depends_on has_suffix (items_of depends_on of_task of_charter))
            × IsFreeFor holder_id (occupancy_of claims)
            × CanPay now cost review budget)
  unfolding can_enter_running
  can_enter_running-ready_iff now depends_on of_task of_charter holder_id claims cost review
        budget =
      let items = items_of depends_on of_task of_charter in
      let missing =
        Deps.unsatisfied_deps has_suffix is_absolute_file is_in_root roots completed enforce
          items in
      let occ = occupancy_of claims in
      let deps =
        unsatisfied_deps-nil_iff has_suffix is_absolute_file is_in_root roots completed enforce
          items in
      let pay = allows_iff now cost review budget in
      (
        λ h.
            let (a, b, c) =
              gate-ready missing holder_id occ (budget_allows now cost review budget) h in
            (deps.0 a, (free_iff holder_id occ).0 b, pay.0 c),
        λ h.
            gate-ready_back missing holder_id occ (budget_allows now cost review budget)
              (deps.1 h.0) ((free_iff holder_id occ).1 h.1) (pay.1 h.2),
      )

-- Where `attach_goal_budget` lets a result stand as a success, what the account has consumed and
-- reserved is within its limits.
pub attach_goal_budget-Fits :
    (now : ℕ) (r : JobResult) (a : GoalBudget)
    → (attach_goal_budget now r (some a)).is_ok ≡ true
    → Fits (committed a) a.limits
unfolding attach_goal_budget
attach_goal_budget-Fits now r a h =
    let within : over_budget now a ≡ false = ground arith in ((over_budget_iff now a).0 within).0
