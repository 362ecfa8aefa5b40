-- ===== src/Budget/Gate.antt =====
-- What a grant, a refusal and the over-budget test say about the limits.
use teleagent_collab.Common.{
  ℕ, ◌+◌, ◌≤◌, ◌<◌, ◌≡◌, refl, sym, ◌∙◌, ◌↔◌, true, false, Option, none, some, [], ◌∷◌, ◌++◌,
  String, string_eq, lookup, insert, arith,
}
use teleagent_collab.Budget.{
  BudgetCost, BudgetLimits, add, Dimension, used_exceeds, denied, is_held, reserve_denied_op,
  budget_exhausted, Reservation, GoalBudget, committed, exhausted_wall, over_budget, can_reserve,
  new_reservation, reserve_granted, reserve_refused, reserve_entry,
}
use teleagent_collab.Budget.Balance.{amount, amount-add, held_sum, held_sum-insert, IsBalanced}

-- The usage cap, where there is one.
abbrev pub UsageFits : ℕ → Option ℕ → Type 0
UsageFits used none = Unit
UsageFits used (some cap) = used ≤ cap + 1

-- A cost is within the limits; the two float dimensions with their tolerance.
pub record Fits (used : BudgetCost) (limits : BudgetLimits) : Type 0 where
  pub wall_fits : used.wall_sec ≤ limits.wall_sec + 1
  pub attempts_fit : used.attempts ≤ limits.max_attempts
  pub reworks_fit : used.reworks ≤ limits.max_reworks
  pub approvals_fit : used.approvals ≤ limits.max_approvals
  pub usage_fits : UsageFits used.usage limits.max_usage

Fits-of_none_exceeded :
    (used : BudgetCost) (limits : BudgetLimits) → used_exceeds used limits ≡ [] → Fits used limits
unfolding used_exceeds
Fits-of_none_exceeded used limits h = ground arith

none_exceeded_of_Fits :
    (used : BudgetCost) (limits : BudgetLimits) → Fits used limits → used_exceeds used limits ≡ []
unfolding used_exceeds
none_exceeded_of_Fits used limits h = ground arith

-- No dimension is reported as exceeded exactly when every dimension is within its limit.
pub used_exceeds-nil_iff :
    (used : BudgetCost) (limits : BudgetLimits) → (used_exceeds used limits ≡ []) ↔ Fits used limits
used_exceeds-nil_iff used limits =
    (Fits-of_none_exceeded used limits, none_exceeded_of_Fits used limits)

granted_fits :
    (now : ℕ) (cost : BudgetCost) (a : GoalBudget)
    → can_reserve now cost a ≡ true
    → (now < a.wall_deadline) × (used_exceeds (add (committed a) cost) a.limits ≡ [])
unfolding can_reserve
granted_fits now cost a h = ground arith

granted_of_fits :
    (now : ℕ) (cost : BudgetCost) (a : GoalBudget)
    → now < a.wall_deadline
    → used_exceeds (add (committed a) cost) a.limits ≡ []
    → can_reserve now cost a ≡ true
unfolding can_reserve
granted_of_fits now cost a l h = ground arith

add_assoc : (a b c : BudgetCost) → add (add a b) c ≡ add a (add b c)
unfolding add
add_assoc a b c = ground arith

module _ (now : ℕ) (rid task_id run_id : String) (cost : BudgetCost) (a : GoalBudget) where
  abbrev after : GoalBudget
  after = (reserve_entry now rid task_id run_id cost a).0

  abbrev answer : Reservation
  answer = (reserve_entry now rid task_id run_id cost a).1

  pub granted-can : answer.granted ≡ can_reserve now cost a
  unfolding reserve_entry
  granted-can = refl

  -- A reservation is granted exactly before the deadline and when what is consumed and reserved,
  -- with the new cost, is within every limit.
  pub reserve_entry-granted_iff :
      (answer.granted ≡ true) ↔ ((now < a.wall_deadline) × Fits (add (committed a) cost) a.limits)
  reserve_entry-granted_iff = (
    λ h.
        let (l, e) = granted_fits now cost a (sym granted-can ∙ h) in
        (l, Fits-of_none_exceeded _ _ e),
    λ (l, f). granted-can ∙ granted_of_fits now cost a l (none_exceeded_of_Fits _ _ f),
  )

  committed-after : can_reserve now cost a ≡ true → committed after ≡ add (committed a) cost
  unfolding reserve_entry reserve_granted committed
  committed-after h = rw h (sym (add_assoc a.consumed a.reserved cost))

  -- After a grant the account, the new reservation included, is within its limits.
  pub reserve_entry-Fits : answer.granted ≡ true → Fits (committed after) a.limits
  reserve_entry-Fits h =
      rw (committed-after (sym granted-can ∙ h)) ((reserve_entry-granted_iff).0 h).1

  -- A refusal changes no amount and no reservation; it is recorded as denied.
  reserve_entry_refused :
      answer.granted ≡ false
      → (after.reserved ≡ a.reserved)
        × (after.consumed ≡ a.consumed)
        × (after.reservations ≡ a.reservations)
        × (answer.status ≡ denied)
        × (after.ledger ≡ a.ledger ++ reserve_denied_op rid task_id budget_exhausted cost now ∷ [])
  unfolding reserve_entry reserve_refused
  reserve_entry_refused h = rw h (refl, refl, refl, refl, refl)

committed_ge :
    (a : GoalBudget)
    → used_exceeds (committed a) a.limits ≡ []
    → used_exceeds a.consumed a.limits ≡ []
unfolding used_exceeds committed
committed_ge a h = ground arith

-- The account is not over budget exactly when what is consumed and reserved is within the limits
-- and, once the deadline has passed, the consumed wall time is within its limit with no tolerance.
pub over_budget_iff :
    (now : ℕ) (a : GoalBudget)
    → (over_budget now a ≡ false) ↔ (
        Fits (committed a) a.limits
        × (exhausted_wall now a ≡ true → a.consumed.wall_sec ≤ a.limits.wall_sec))
unfolding over_budget
over_budget_iff now a = (
  λ h. (Fits-of_none_exceeded _ _ (ground arith), λ e. ground arith),
  λ (f, w).
      let none_over = none_exceeded_of_Fits _ _ f in
      let none_consumed = committed_ge a none_over in ground arith,
)

leak :
    (now : ℕ) (d : Dimension) (r' r : Reservation) (a : GoalBudget)
    → lookup r'.reservation_id a.reservations ≡ some r
    → is_held r.status ≡ true
    → is_held r'.status ≡ true
    → IsBalanced a
    → amount d (add a.reserved r'.cost)
      ≡ held_sum d (insert r'.reservation_id r' a.reservations) + amount d r.cost
leak now d r' r a e h h' b = ground (
  arith,
  b d,
  amount-add d a.reserved r'.cost,
  held_sum-insert d r'.reservation_id r' a.reservations,
)

-- A second grant under an id that is still held loses the first one's record and keeps its cost
-- reserved: the total exceeds what the held reservations hold by exactly that cost.
reserve_twice_leaks :
    (now : ℕ) (rid task_id run_id : String) (cost : BudgetCost) (a : GoalBudget) (r : Reservation)
    → lookup rid a.reservations ≡ some r
    → is_held r.status ≡ true
    → IsBalanced a
    → (reserve_entry now rid task_id run_id cost a).1.granted ≡ true
    → (d : Dimension)
    → amount d (reserve_entry now rid task_id run_id cost a).0.reserved
      ≡ held_sum d (reserve_entry now rid task_id run_id cost a).0.reservations + amount d r.cost
unfolding reserve_entry reserve_granted
reserve_twice_leaks now rid task_id run_id cost a r e h b g d =
    let rec = new_reservation now rid task_id run_id cost true a in
    rw g (leak now d rec r a e h refl b)
