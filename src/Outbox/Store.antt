-- ===== src/Outbox/Store.antt =====
-- framework/outbox.py: `OutboxStore`. One journal is one transaction.
-- An operation holds the persist lock, reads the files (`_rmw`), works on what it read and commits.
-- The dict of rows has each row under its own id, so that it is kept as the list of its values. The
-- time "saved_at" of the two live files is read by nobody and left out.
pub mod Commit
pub mod Claims
pub mod Rows
pub mod Atomic
use teleagent_collab.Common.{
  ℕ, zero, suc, ◌+◌, ◌-◌, Bool, true, false, not, ◌&&◌, ◌||◌, Option, none, some, List, [], ◌∷◌,
  ◌++◌, String, Dict, string_eq, lookup, insert, take, take_last, strip, non_empty, str_or, append,
  keep, length, Result, ok, err, ◌>>=◌, ◌==◌, if◌then◌else◌,
}
use teleagent_collab.Outbox.{
  Value, nothing, words, number, OutboxError, Event, RawEvent, make_event, delivery_key_of,
  set_default, entity_key,
}

pub record Entity : Type 0 where
  pub kind : String
  pub entity_id : String
  pub state : String
  pub prev_state : Option String
  pub goal_id : String
  pub task_id : String
  pub run_id : String
  pub reason : String
  pub updated_at : ℕ
  pub updated_at_iso : String
  pub extra : Dict String Value
  pub carried : Dict String Value

pub record Row : Type 0 where
  pub outbox_id : String
  pub event_id : String
  pub delivery_key : String
  pub status : String
  pub event : Event
  pub created_at : ℕ
  pub claimed_at : ℕ
  pub sent_at : ℕ
  pub attempts : ℕ
  pub txn_id : String

-- `OutboxRow.from_dict` of what `to_dict` wrote
unfoldable pub reread : Row → Option Row
reread r =
    if non_empty r.outbox_id
    then some (record r {
      event_id = str_or r.event_id r.event.event_id;
      delivery_key = str_or r.delivery_key (str_or r.event.dedupe_key r.event.event_id);
      status = str_or r.status "pending";
    })
    else none

-- `self.rows[row.outbox_id] = row`
unfoldable pub put : Row → List Row → List Row
put r [] = r ∷ []
put r (q ∷ rs) = if r.outbox_id == q.outbox_id then r ∷ rs else q ∷ put r rs

-- `self.rows.get(oid)`
unfoldable pub find : String → List Row → Option Row
find oid [] = none
find oid (q ∷ rs) = if oid == q.outbox_id then some q else find oid rs

taken_in : List Row → Option Row → List Row
taken_in acc none = acc
taken_in acc (some r) = put r acc

unfoldable pub load_from : List Row → List Row → List Row
unfolding taken_in
load_from acc [] = acc
load_from acc (raw ∷ raws) = load_from (taken_in acc (reread raw)) raws

-- The loop that fills `self.rows` from the written rows
unfoldable pub load_rows : List Row → List Row
load_rows raws = load_from [] raws

pub record Journal : Type 0 where
  pub txn_id : String
  pub ts : ℕ
  pub entities : Dict String Entity
  pub outbox : List Row
  pub history : List (Dict String Value)
  pub notes : List String

-- A path with nothing there, one whose reading or validation raises, a file with its payload.
pub data File (A : Type 0) : Type 0 where
  missing : File A
  unreadable : OutboxError → File A
  file : A → File A

pub record Disk : Type 0 where
  pub journal : File Journal
  pub entities : File (Dict String Entity)
  pub outbox : File (List Row)

pub record Memory : Type 0 where
  pub entities : Dict String Entity
  pub rows : List Row
  pub history : List (Dict String Value)
  pub notes : List String

pub record Session : Type 0 where
  pub memory : Memory
  pub disk : Disk

-- The writes of a transaction, each of which happens at once.
pub data Write : Type 0 where
  write_journal : Journal → Write
  write_entities : Dict String Entity → Write
  write_outbox : List Row → Write
  drop_journal : Write

unfoldable pub perform : Write → Disk → Disk
perform (write_journal j) d = record d { journal = file j }
perform (write_entities e) d = record d { entities = file e }
perform (write_outbox rs) d = record d { outbox = file rs }
perform drop_journal d = record d { journal = missing }

unfoldable pub perform_all : List Write → Disk → Disk
perform_all [] d = d
perform_all (w ∷ ws) d = perform_all ws (perform w d)

-- The memory that `_apply_snapshot_unlocked` leaves; its two writes are those of `apply_writes`.
unfoldable pub applied : Journal → Memory
applied j = record {
  entities = j.entities;
  rows = load_rows j.outbox;
  history = j.history;
  notes = j.notes;
}

unfoldable pub apply_writes : Journal → List Write
apply_writes j = write_entities j.entities ∷ write_outbox (load_rows j.outbox) ∷ []

noted : String → Memory → Memory
noted n m = record m { notes = m.notes ++ n ∷ [] }

-- `_drop_journal_unlocked`; `unlinks` says whether the file can be removed.
dropped : Bool → Session → Session
unfolding noted perform
dropped true s = record s { disk = perform drop_journal s.disk }
dropped false s = record s { memory = noted "journal unlink failed" s.memory }

-- `_replay_journal_unlocked`, the case of a journal that is a file
replayed : Bool → Journal → Session → Result OutboxError Session
unfolding noted dropped
replayed unlinks j s =
    if non_empty j.txn_id
    then ok (
        dropped unlinks (record {
          memory = noted (append "replayed journal txn=" j.txn_id) (applied j);
          disk = perform_all (apply_writes j) s.disk;
        }))
    else err OutboxError.store_incompatible

content : {A : Type 0} → A → File A → Result OutboxError A
content empty missing = ok empty
content empty (unreadable e) = err e
content empty (file a) = ok a

-- `_load_live_unlocked`: the history and the notes in memory stay.
load_live : Session → Result OutboxError Session
unfolding content
load_live s = do
  entities ← content [] s.disk.entities
  raws ← content [] s.disk.outbox
  ok (record s { memory = record s.memory { entities = entities; rows = load_rows raws } })

live_or_opened : Bool → Session → Result OutboxError Session
unfolding load_live noted
live_or_opened init_if_missing s = do
  t ← load_live s
  ok (if init_if_missing then record t { memory = noted "opened outbox store" t.memory } else t)

-- `_reload_unlocked`
unfoldable pub reload : Bool → Bool → Session → Result OutboxError Session
unfolding replayed live_or_opened
reload unlinks init_if_missing s = elim s.disk.journal [
  | missing ↦ live_or_opened init_if_missing s
  | unreadable e ↦ err e
  | file j ↦ replayed unlinks j s
]

-- `get_entity`
unfoldable pub get_entity :
    Bool → String → String → Session → Result OutboxError (Session × Option Entity)
get_entity unlinks kind entity_id s = do
  r ← reload unlinks false s
  ok (r, lookup (entity_key kind entity_id) r.memory.entities)
