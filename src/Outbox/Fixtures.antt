-- ===== src/Outbox/Fixtures.antt =====
-- A small store and its requests, for the tests.
use teleagent_collab.Common.{
  ℕ, zero, suc, true, false, none, some, [], ◌∷◌, String, string_eq, append,
}
use teleagent_collab.Outbox.{Subject}
use teleagent_collab.Outbox.Store.{Entity, Journal, missing, file, Disk, Memory, Session}
use teleagent_collab.Outbox.Store.Commit.{Txn}
use teleagent_collab.Outbox.Transit.{Request}

abbrev pub new_ids : String → ℕ → String
new_ids s zero = s
new_ids s (suc n) = append s (new_ids s n)

abbrev pub txn : Txn
txn = record {
  txn_id = "t";
  now = 5;
  now_iso = "5";
  event_ids = new_ids "e";
  outbox_ids = new_ids "o";
  unlinks = true;
}

abbrev pub empty_memory : Memory
empty_memory = record { entities = []; rows = []; history = []; notes = [] }

abbrev pub running_entity : Entity
running_entity = record {
  kind = "task";
  entity_id = "a";
  state = "running";
  prev_state = some "queued";
  goal_id = "g";
  task_id = "a";
  run_id = "";
  reason = "";
  updated_at = 1;
  updated_at_iso = "1";
  extra = [];
  carried = [];
}

abbrev pub disk : Disk
disk = record {
  journal = missing;
  entities = file (("task:a", running_entity) ∷ []);
  outbox = missing;
}

abbrev pub store : Session
store = record { memory = empty_memory; disk = disk }

abbrev pub task_a : Subject
task_a = record {
  kind = "";
  entity_kind = "";
  task_id = "a";
  goal_id = "g";
  entity_id = "";
  id = "";
  desired_outcome = false;
  status = "";
  state = "";
  run_id = "";
  carried = [];
}

abbrev pub request : String → Request
request dst = record {
  subject = task_a;
  new_state = some dst;
  events = [];
  kind = "";
  entity_id = "";
  from_state = none;
  goal_id = "";
  task_id = "";
  run_id = "";
  reason = "";
  extra = [];
}

abbrev pub any_journal : Journal
any_journal = record {
  txn_id = "t";
  ts = 5;
  entities = ("task:a", running_entity) ∷ [];
  outbox = [];
  history = [];
  notes = [];
}
