-- ===== src/Budget/Store/Named.antt =====
-- The ids of an account's reservations, on which reading the file back depends.
use teleagent_collab.Common.{
  ℕ, ◌≡◌, refl, true, some, [], ◌∷◌, String, Dict, string_eq, lookup, insert, non_empty, arith,
}
use teleagent_collab.Budget.{
  BudgetCost, Reservation, GoalBudget, new_reservation, reserve_granted, reserve_refused,
  reserve_entry, reconcile_unheld, reconcile_held, reconcile_entry, release_held, release_entry,
}
use teleagent_collab.Budget.Store.{readable}

abbrev pub AllNamed : Dict String Reservation → Type 0
AllNamed [] = Unit
AllNamed ((_, r) ∷ rs) = (non_empty r.reservation_id ≡ true) × AllNamed rs

pub readable_of_AllNamed : (rs : Dict String Reservation) → AllNamed rs → readable rs ≡ rs
unfolding readable
readable_of_AllNamed [] h = refl
readable_of_AllNamed ((k, r) ∷ rs) h = ground (arith, readable_of_AllNamed rs h.1)

pub readable-AllNamed : (rs : Dict String Reservation) → AllNamed (readable rs)
unfolding readable
readable-AllNamed [] = tt
readable-AllNamed ((k, r) ∷ rs) = ground (arith, readable-AllNamed rs)

insert-AllNamed :
    (k : String) (r : Reservation) (rs : Dict String Reservation)
    → non_empty r.reservation_id ≡ true
    → AllNamed rs
    → AllNamed (insert k r rs)
unfolding insert
insert-AllNamed k r [] n h = (n, tt)
insert-AllNamed k r ((j, q) ∷ rs) n h = ground (arith, insert-AllNamed k r rs n h.1)

lookup-AllNamed :
    (k : String) (rs : Dict String Reservation) (r : Reservation)
    → AllNamed rs
    → lookup k rs ≡ some r
    → non_empty r.reservation_id ≡ true
unfolding lookup
lookup-AllNamed k [] r h e = ground arith
lookup-AllNamed k ((j, q) ∷ rs) r h e = ground (arith, lookup-AllNamed k rs r h.1)

module _ (now : ℕ) (rid : String) (a : GoalBudget) (h : AllNamed a.reservations) where
  pub reserve_entry-AllNamed :
      (task_id run_id : String) (cost : BudgetCost)
      → non_empty rid ≡ true
      → AllNamed (reserve_entry now rid task_id run_id cost a).0.reservations
  unfolding reserve_entry reserve_granted reserve_refused
  reserve_entry-AllNamed task_id run_id cost n = ground (
    arith,
    insert-AllNamed rid (new_reservation now rid task_id run_id cost true a) a.reservations n h,
  )

  pub reconcile_entry-AllNamed :
      (actual : BudgetCost) → AllNamed (reconcile_entry now rid actual a).0.reservations
  unfolding reconcile_entry reconcile_held reconcile_unheld
  reconcile_entry-AllNamed actual =
      grind (arith, lookup-AllNamed rid a.reservations, insert-AllNamed)

  pub release_entry-AllNamed :
      (a' : GoalBudget) → release_entry now rid a ≡ some a' → AllNamed a'.reservations
  unfolding release_entry release_held
  release_entry-AllNamed a' e = grind (arith, lookup-AllNamed rid a.reservations, insert-AllNamed)
