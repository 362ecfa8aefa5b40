-- ===== src/Budget/Balance.antt =====
-- The books of an account: what is reserved against what the held reservations hold.
use teleagent_collab.Common.{
  ℕ, ◌+◌, ◌-◌, ◌≡◌, refl, true, false, Option, none, some, [], ◌∷◌, String, Dict, string_eq, lookup,
  insert, arith, if◌then◌else◌,
}
use teleagent_collab.Budget.{
  BudgetCost, add, sub, Dimension, wall_dim, attempts_dim, reworks_dim, approvals_dim, usage_dim,
  reconciled, released, new_reservation, reserve_granted, reserve_refused, is_held, Reservation,
  GoalBudget, reserve_entry, reconcile_unheld, reconcile_held, reconcile_entry, release_held,
  release_entry,
}

abbrev pub amount : Dimension → BudgetCost → ℕ
amount wall_dim c = c.wall_sec
amount attempts_dim c = c.attempts
amount reworks_dim c = c.reworks
amount approvals_dim c = c.approvals
amount usage_dim c = c.usage

pub amount-add : (d : Dimension) (a b : BudgetCost) → amount d (add a b) ≡ amount d a + amount d b
unfolding add
amount-add wall_dim a b = refl
amount-add _ a b = refl

pub amount-sub : (d : Dimension) (a b : BudgetCost) → amount d (sub a b) ≡ amount d a - amount d b
unfolding sub
amount-sub wall_dim a b = refl
amount-sub _ a b = refl

abbrev pub held_amount : Dimension → Reservation → ℕ
held_amount d r = if is_held r.status then amount d r.cost else 0

-- What the held reservations hold of one dimension.
unfoldable pub held_sum : Dimension → Dict String Reservation → ℕ
held_sum d [] = 0
held_sum d ((_, r) ∷ rs) = held_amount d r + held_sum d rs

abbrev held_before : Dimension → Option Reservation → ℕ
held_before d none = 0
held_before d (some r) = held_amount d r

-- A write replaces what its key held.
pub held_sum-insert :
    (d : Dimension) (k : String) (r : Reservation) (rs : Dict String Reservation)
    → held_sum d (insert k r rs) + held_before d (lookup k rs) ≡ held_sum d rs + held_amount d r
unfolding held_sum insert lookup
held_sum-insert d k r [] = omega arith
held_sum-insert d k r ((j, q) ∷ rs) = ground (arith, held_sum-insert d k r rs)

-- The account's total of each dimension is what its held reservations hold.
abbrev pub IsBalanced : GoalBudget → Type 0
IsBalanced a = (d : Dimension) → amount d a.reserved ≡ held_sum d a.reservations

-- No held reservation has the id.
abbrev pub IsFree : String → GoalBudget → Type 0
IsFree rid a = (r : Reservation) → lookup rid a.reservations ≡ some r → is_held r.status ≡ false

held_before-free :
    (d : Dimension) (o : Option Reservation)
    → ((r : Reservation) → o ≡ some r → is_held r.status ≡ false)
    → held_before d o ≡ 0
held_before-free d none h = refl
held_before-free d (some r) h = ground (arith, h r refl)

-- A granted or refused reservation under an id that nothing holds keeps the balance.
pub reserve_entry-IsBalanced :
    (now : ℕ) (rid task_id run_id : String) (cost : BudgetCost) (a : GoalBudget)
    → IsFree rid a
    → IsBalanced a
    → IsBalanced (reserve_entry now rid task_id run_id cost a).0
unfolding reserve_entry reserve_granted reserve_refused
reserve_entry-IsBalanced now rid task_id run_id cost a free b = λ d. ground (
  arith,
  b d,
  amount-add d a.reserved cost,
  held_before-free d (lookup rid a.reservations) free,
  held_sum-insert d rid (new_reservation now rid task_id run_id cost true a) a.reservations,
)

settled :
    (d : Dimension) (rid : String) (r r' : Reservation) (a : GoalBudget)
    → lookup rid a.reservations ≡ some r
    → is_held r.status ≡ true
    → is_held r'.status ≡ false
    → IsBalanced a
    → amount d (sub a.reserved r.cost) ≡ held_sum d (insert rid r' a.reservations)
settled d rid r r' a e h h' b =
    ground (arith, b d, amount-sub d a.reserved r.cost, held_sum-insert d rid r' a.reservations)

-- Reconciling any id, held or not, keeps the balance.
pub reconcile_entry-IsBalanced :
    (now : ℕ) (rid : String) (actual : BudgetCost) (a : GoalBudget)
    → IsBalanced a
    → IsBalanced (reconcile_entry now rid actual a).0
unfolding reconcile_entry reconcile_held reconcile_unheld
reconcile_entry-IsBalanced now rid actual a b = λ d. go d (lookup rid a.reservations) refl
  where
    go :
        (d : Dimension) (o : Option Reservation)
        → lookup rid a.reservations ≡ o
        → amount d (reconcile_entry now rid actual a).0.reserved
          ≡ held_sum d (reconcile_entry now rid actual a).0.reservations
    go d none e = ground (arith, b d)
    go d (some r) e =
        ground (arith, b d, settled d rid r (record r { status = reconciled; granted = true }) a)

-- Releasing a held reservation keeps the balance.
pub release_entry-IsBalanced :
    (now : ℕ) (rid : String) (a a' : GoalBudget)
    → release_entry now rid a ≡ some a'
    → IsBalanced a
    → IsBalanced a'
unfolding release_entry release_held
release_entry-IsBalanced now rid a a' h b = λ d. go d (lookup rid a.reservations) refl
  where
    go :
        (d : Dimension) (o : Option Reservation)
        → lookup rid a.reservations ≡ o
        → amount d a'.reserved ≡ held_sum d a'.reservations
    go d none e = ground arith
    go d (some r) e =
        ground (arith, settled d rid r (record r { status = released; granted = false }) a e)
