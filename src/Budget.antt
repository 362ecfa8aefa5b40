-- ===== src/Budget.antt =====
-- execution_backend/goal_budget.py: the account of a goal. Seconds and usage are floats in the source;
-- here they are exact numbers of nanoseconds (of 1e-9 usage units), so that the tolerance 1e-9 is 1.
-- The operations of the account without its file; Budget/Store.antt adds the file.
pub mod Store
pub mod Entry
mod Balance
mod Gate
mod Charges
mod Tests
mod Records
unfoldable pub use Records.*
use teleagent_collab.Common.{
  ℕ, ◌+◌, ◌-◌, min, max, Bool, true, false, not, ◌&&◌, ◌||◌, Option, none, some, List, [], ◌∷◌,
  ◌++◌, String, Dict, string_eq, lookup, insert, strip, str_or, ltb, leb, if◌then◌else◌,
}

-- The clock readings of one operation are taken to be one reading, `now`.
unfoldable pub remaining_wall_sec : ℕ → GoalBudget → ℕ
remaining_wall_sec now a = a.wall_deadline - now

unfoldable pub exhausted_wall : ℕ → GoalBudget → Bool
exhausted_wall now a = leb a.wall_deadline now

unfoldable pub committed : GoalBudget → BudgetCost
unfolding add
committed a = add a.consumed a.reserved

unfoldable pub remaining : ℕ → GoalBudget → BudgetCost
unfolding committed remaining_of remaining_wall_sec
remaining now a =
    let rem = remaining_of a.limits (committed a) in
    record rem { wall_sec = min rem.wall_sec (remaining_wall_sec now a) }

abbrev pub non_empty_list {ℓ} : {A : Type ℓ} → List A → Bool
non_empty_list [] = false
non_empty_list (_ ∷ _) = true

abbrev is_wall : Dimension → Bool
is_wall wall_dim = true
is_wall _ = false

abbrev has_wall : List Dimension → Bool
has_wall [] = false
has_wall (d ∷ ds) = is_wall d || has_wall ds

abbrev add_wall : Bool → List Dimension → List Dimension
add_wall b ds = if b && not (has_wall ds) then ds ++ (wall_dim ∷ []) else ds

unfoldable pub over_budget : ℕ → GoalBudget → Bool
unfolding used_exceeds exhausted_wall committed
over_budget now a =
    let dims = used_exceeds a.consumed a.limits in
    let late = exhausted_wall now a && ltb a.limits.wall_sec a.consumed.wall_sec in
    non_empty_list (add_wall late dims) || non_empty_list (used_exceeds (committed a) a.limits)

-- `(False, budget_exhausted)` or `(True, ready)`
unfoldable pub can_reserve : ℕ → BudgetCost → GoalBudget → Bool
unfolding used_exceeds exhausted_wall remaining_wall_sec committed add
can_reserve now cost a =
    if exhausted_wall now a || leb (remaining_wall_sec now a) 0
    then false
    else not (non_empty_list (used_exceeds (add (committed a) cost) a.limits))

-- The record that `reserve` makes, granted or not.
unfoldable pub new_reservation :
    ℕ → String → String → String → BudgetCost → Bool → GoalBudget → Reservation
new_reservation now rid task_id run_id cost granted a = record {
  reservation_id = rid;
  goal_id = a.goal_id;
  task_id = task_id;
  run_id = str_or run_id rid;
  cost = cost;
  granted = granted;
  status = if granted then held else denied;
  reason = if granted then ready else budget_exhausted;
  created_at = now;
}

unfoldable pub reserve_granted : ℕ → Reservation → GoalBudget → GoalBudget
reserve_granted now rec a = record a {
  reserved = add a.reserved rec.cost;
  reservations = insert rec.reservation_id rec a.reservations;
  ledger = a.ledger ++ reserve_op rec.reservation_id rec.task_id rec.run_id rec.cost now ∷ [];
  notes = a.notes ++ reserve_note rec.reservation_id rec.task_id rec.cost ∷ [];
}

unfoldable pub reserve_refused : ℕ → Reservation → GoalBudget → GoalBudget
reserve_refused now rec a = record a {
  ledger =
      a.ledger ++ reserve_denied_op rec.reservation_id rec.task_id rec.reason rec.cost now ∷ [];
  notes = a.notes ++ denied_note rec.reservation_id rec.task_id rec.reason ∷ [];
}

-- The body of `reserve` under the lock, for the id that it settled on.
unfoldable pub reserve_entry :
    ℕ → String → String → String → BudgetCost → GoalBudget → GoalBudget × Reservation
unfolding new_reservation
reserve_entry now rid task_id run_id cost a =
    let granted = can_reserve now cost a in
    let rec = new_reservation now rid task_id run_id cost granted a in
    (if granted then reserve_granted now rec a else reserve_refused now rec a, rec)

-- What `reconcile` returns; `reserved` and `dims` only where the reservation was held.
pub record Reconciled : Type 0 where
  pub ok_flag : Bool
  pub over : Bool
  pub was_held : Bool
  pub consumed : BudgetCost
  pub reserved : Option BudgetCost
  pub dims : Option (List Dimension)

-- The branch of `reconcile` for an unknown reservation, or one that is not held.
unfoldable pub reconcile_unheld : ℕ → String → BudgetCost → GoalBudget → GoalBudget × Reconciled
reconcile_unheld now rid actual a =
    let charged = record a {
      consumed = add a.consumed actual;
      ledger = a.ledger ++ reconcile_unheld_op rid actual now ∷ [];
    } in
    let over = over_budget now charged in
    (
      charged,
      record {
        ok_flag = not over;
        over = over;
        was_held = false;
        consumed = charged.consumed;
        reserved = none;
        dims = none;
      },
    )

unfoldable pub reconcile_held :
    ℕ → String → BudgetCost → Reservation → GoalBudget → GoalBudget × Reconciled
reconcile_held now rid actual rec a =
    let reserved' = sub a.reserved rec.cost in
    let consumed' = add a.consumed actual in
    let over = non_empty_list (used_exceeds consumed' a.limits) in
    (
      record a {
        reserved = reserved';
        consumed = consumed';
        reservations =
            insert rid (record rec { status = reconciled; granted = true }) a.reservations;
        ledger =
            a.ledger
            ++ reconcile_op rid rec.task_id rec.run_id rec.cost actual (sub rec.cost actual) over
                now
              ∷ [];
        notes = a.notes ++ reconcile_note rid actual over ∷ [];
      },
      record {
        ok_flag = not over;
        over = over;
        was_held = true;
        consumed = consumed';
        reserved = some reserved';
        dims = some (used_exceeds consumed' a.limits);
      },
    )

unfoldable pub reconcile_entry : ℕ → String → BudgetCost → GoalBudget → GoalBudget × Reconciled
reconcile_entry now rid actual a = elim (lookup rid a.reservations) [
  | none ↦ reconcile_unheld now rid actual a
  | some rec ↦
      if is_held rec.status
      then reconcile_held now rid actual rec a
      else reconcile_unheld now rid actual a
]

unfoldable pub release_held : ℕ → String → Reservation → GoalBudget → GoalBudget
release_held now rid rec a = record a {
  reserved = sub a.reserved rec.cost;
  reservations = insert rid (record rec { status = released; granted = false }) a.reservations;
  ledger = a.ledger ++ release_op rid rec.task_id now ∷ [];
}

-- `none`: nothing was held, and nothing is written.
unfoldable pub release_entry : ℕ → String → GoalBudget → Option GoalBudget
release_entry now rid a = elim (lookup rid a.reservations) [
  | none ↦ none
  | some rec ↦ if is_held rec.status then some (release_held now rid rec a) else none
]
