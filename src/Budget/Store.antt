-- ===== src/Budget/Store.antt =====
-- execution_backend/goal_budget.py: the account with its file. Every operation takes the persist lock,
-- reads the file, works on what it read and writes it back (`_rmw`, framework/persist_lock.py).
mod Named
mod Recovery
mod Steps
mod Sharing
mod Tests
use teleagent_collab.Common.{
  ℕ, ◌+◌, Bool, true, false, Option, none, some, List, [], ◌∷◌, String, Dict, strip, str_or,
  non_empty, take_last, Result, ok, err, ◌>>=◌, if◌then◌else◌,
}
use teleagent_collab.Budget.{
  BudgetCost, zero_cost, BudgetLimits, Reservation, LedgerEntry, Note, opened_note, GoalBudget,
  reserve_entry, Reconciled, reconcile_entry, release_entry,
}

-- What the file holds.
pub record Payload : Type 0 where
  pub goal_id : String
  pub limits : BudgetLimits
  pub consumed : BudgetCost
  pub reserved : BudgetCost
  pub started_at : ℕ
  pub wall_deadline : ℕ
  pub reservations : Dict String Reservation
  pub ledger : List LedgerEntry
  pub notes : List Note

-- No file, a path that is no file, a file that cannot be read or fails `_validate_payload`, a payload.
pub data LedgerFile : Type 0 where
  missing : LedgerFile
  incompatible : LedgerFile
  corrupt : LedgerFile
  file : Payload → LedgerFile

pub data StoreError : Type 0 where
  store_incompatible store_corrupt : StoreError

-- `_persist_unlocked`: the last 50 notes are written.
unfoldable pub payload_of : GoalBudget → Payload
payload_of a = record {
  goal_id = a.goal_id;
  limits = a.limits;
  consumed = a.consumed;
  reserved = a.reserved;
  started_at = a.started_at;
  wall_deadline = a.wall_deadline;
  reservations = a.reservations;
  ledger = a.ledger;
  notes = take_last 50 a.notes;
}

-- `Reservation.from_dict` gives None for an empty id, and `_load_into_unlocked` drops that entry.
unfoldable pub readable : Dict String Reservation → Dict String Reservation
readable [] = []
readable ((k, r) ∷ rs) =
    let rest = readable rs in if non_empty r.reservation_id then (k, r) ∷ rest else rest

unfoldable pub load_into : Payload → GoalBudget → GoalBudget
unfolding readable
load_into p a = record a {
  started_at = p.started_at;
  wall_deadline = p.wall_deadline;
  consumed = p.consumed;
  reserved = p.reserved;
  reservations = readable p.reservations;
  ledger = p.ledger;
  notes = p.notes;
  limits = p.limits;
}

-- An account object and the file of its goal.
pub record Session : Type 0 where
  pub account : GoalBudget
  pub disk : LedgerFile

unfoldable pub emptied : List Note → GoalBudget → GoalBudget
emptied ns a = record a {
  consumed = zero_cost;
  reserved = zero_cost;
  reservations = [];
  ledger = [];
  notes = ns;
}

-- `_persist_unlocked`
unfoldable pub persist : GoalBudget → Session
unfolding payload_of
persist a = record { account = a; disk = file (payload_of a) }

reload_from : Bool → LedgerFile → GoalBudget → Result StoreError Session
unfolding emptied load_into
reload_from true missing a = ok (persist (emptied (opened_note ∷ []) a))
reload_from false missing a = ok (record { account = emptied [] a; disk = missing })
reload_from _ incompatible a = err store_incompatible
reload_from _ corrupt a = err store_corrupt
reload_from _ (file p) a = ok (record { account = load_into p a; disk = file p })

-- `_reload_unlocked`
unfoldable pub reload : Bool → Session → Result StoreError Session
unfolding reload_from
reload init_if_missing s = reload_from init_if_missing s.disk s.account

-- `cost or default`
abbrev cost_or : Option BudgetCost → BudgetCost → BudgetCost
cost_or none c = c
cost_or (some c) _ = c

-- `reserve`; `fresh` is the id that uuid4 would give.
unfoldable pub reserve :
    ℕ
    → String
    → String
    → String
    → String
    → Option BudgetCost
    → Session
    → Result StoreError (Session × Reservation)
reserve now fresh reservation_id task_id run_id cost s = do
  let rid = str_or (strip reservation_id) fresh
  let cost' = cost_or cost (record zero_cost { attempts = 1 })
  t ← reload false s
  let (a, rec) = reserve_entry now rid task_id run_id cost' t.account
  ok (persist a, rec)

unfoldable pub reconcile :
    ℕ → String → Option BudgetCost → Session → Result StoreError (Session × Reconciled)
reconcile now reservation_id actual s = do
  t ← reload false s
  let actual' = cost_or actual zero_cost
  let (a, r) = reconcile_entry now reservation_id actual' t.account
  ok (persist a, r)

written : Session → Option GoalBudget → Result StoreError (Session × Bool)
written t none = ok (t, false)
written t (some a) = ok (persist a, true)

unfoldable pub release : ℕ → String → Session → Result StoreError (Session × Bool)
unfolding written
release now reservation_id s = do
  t ← reload false s
  written t (release_entry now reservation_id t.account)

-- `GoalBudget.open` without the cache: the constructor's defaults, then the file.
unfoldable pub open_account : ℕ → String → BudgetLimits → LedgerFile → Result StoreError Session
open_account now goal_id limits disk = reload true (record {
  account = record {
    goal_id = str_or (strip goal_id) "goal";
    limits = limits;
    started_at = now;
    wall_deadline = now + limits.wall_sec;
    consumed = zero_cost;
    reserved = zero_cost;
    reservations = [];
    ledger = [];
    notes = [];
  };
  disk = disk;
})
