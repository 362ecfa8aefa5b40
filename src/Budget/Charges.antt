-- ===== src/Budget/Charges.antt =====
-- What a goal has consumed, and what its ledger charged.
use teleagent_collab.Common.{ℕ, ◌+◌, ◌≡◌, some, List, [], ◌∷◌, ◌++◌, String, string_eq, arith}
use teleagent_collab.Budget.{
  BudgetCost, Dimension, LedgerEntry, reconcile_op, reconcile_unheld_op, GoalBudget,
  reserve_granted, reserve_refused, reserve_entry, reconcile_unheld, reconcile_held,
  reconcile_entry, release_held, release_entry,
}
use teleagent_collab.Budget.Balance.{amount, amount-add}

abbrev pub entry_charge : Dimension → LedgerEntry → ℕ
entry_charge d (reconcile_op _ _ _ _ actual _ _ _) = amount d actual
entry_charge d (reconcile_unheld_op _ actual _) = amount d actual
entry_charge d _ = 0

-- The sum of the actual costs in the ledger.
unfoldable pub charged : Dimension → List LedgerEntry → ℕ
charged d [] = 0
charged d (e ∷ es) = entry_charge d e + charged d es

pub charged-append :
    (d : Dimension) (es : List LedgerEntry) (e : LedgerEntry)
    → charged d (es ++ e ∷ []) ≡ charged d es + entry_charge d e
unfolding charged
charged-append d [] e = omega arith
charged-append d (x ∷ es) e = omega (arith, charged-append d es e)

abbrev pub IsCharged : GoalBudget → Type 0
IsCharged a = (d : Dimension) → amount d a.consumed ≡ charged d a.ledger

module _ (now : ℕ) (rid : String) where
  pub reserve_entry-IsCharged :
      (task_id run_id : String) (cost : BudgetCost) (a : GoalBudget)
      → IsCharged a
      → IsCharged (reserve_entry now rid task_id run_id cost a).0
  unfolding reserve_entry reserve_granted reserve_refused
  reserve_entry-IsCharged task_id run_id cost a c = λ d. grind (arith, c d, charged-append)

  pub reconcile_entry-IsCharged :
      (actual : BudgetCost) (a : GoalBudget)
      → IsCharged a
      → IsCharged (reconcile_entry now rid actual a).0
  unfolding reconcile_entry reconcile_held reconcile_unheld
  reconcile_entry-IsCharged actual a c = λ d. grind (arith, c d, charged-append, amount-add)

  pub release_entry-IsCharged :
      (a a' : GoalBudget) → release_entry now rid a ≡ some a' → IsCharged a → IsCharged a'
  unfolding release_entry release_held
  release_entry-IsCharged a a' h c = λ d. grind (arith, c d, charged-append)
