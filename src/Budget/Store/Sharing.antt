-- ===== src/Budget/Store/Sharing.antt =====
-- Several account objects on one file.
use teleagent_collab.Common.{ℕ, ◌≡◌, refl, ap, Option, String, Result, ok, false}
use teleagent_collab.Budget.{BudgetCost, GoalBudget}
use teleagent_collab.Budget.Store.{
  Payload, file, StoreError, readable, load_into, Session, reload_from, reload, reserve, reconcile,
  release,
}

module _ (p : Payload) (a b : GoalBudget) (same : a.goal_id ≡ b.goal_id) where
  loaded_same : load_into p a ≡ load_into p b
  unfolding load_into
  loaded_same = λ i. record {
    goal_id = same i;
    limits = p.limits;
    started_at = p.started_at;
    wall_deadline = p.wall_deadline;
    consumed = p.consumed;
    reserved = p.reserved;
    reservations = readable p.reservations;
    ledger = p.ledger;
    notes = p.notes;
  }

  abbrev mine : Session
  mine = record { account = a; disk = file p }

  abbrev theirs : Session
  theirs = record { account = b; disk = file p }

  reload_same : reload false mine ≡ reload false theirs
  unfolding reload reload_from
  reload_same =
      ap {B = Result StoreError Session} (λ l. ok (record { account = l; disk = file p }))
        loaded_same

  -- Two objects of one goal, whatever each remembers, give the same answer and write the same file:
  -- no update of the other object is lost.
  pub memory_is_ignored :
      (now : ℕ) (fresh rid task_id run_id : String) (cost : Option BudgetCost)
      → (reserve now fresh rid task_id run_id cost mine
          ≡ reserve now fresh rid task_id run_id cost theirs)
        × (reconcile now rid cost mine ≡ reconcile now rid cost theirs)
        × (release now rid mine ≡ release now rid theirs)
  unfolding reserve reconcile release
  memory_is_ignored now fresh rid task_id run_id cost =
      (rw reload_same refl, rw reload_same refl, rw reload_same refl)
