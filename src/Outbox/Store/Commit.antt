-- ===== src/Outbox/Store/Commit.antt =====
-- framework/outbox.py: the transactions of `OutboxStore`, written as a journal and then applied.
use teleagent_collab.Common.{
  ℕ, suc, Bool, true, false, Option, none, some, List, [], ◌∷◌, ◌++◌, String, Dict, string_eq,
  insert, take, take_last, str_or, Result, ok, ◌>>=◌,
}
use teleagent_collab.Outbox.{
  Value, words, number, OutboxError, RawEvent, make_event, delivery_key_of, set_default,
}
use teleagent_collab.Outbox.Store.{
  Entity, Row, put, load_rows, Journal, Memory, Session, Write, perform_all, applied, dropped,
  reload, write_journal, write_entities, write_outbox, drop_journal,
}

pub data CrashPoint : Type 0 where
  no_crash after_journal after_apply : CrashPoint

-- What a transaction draws from outside: the id, the clock, the i-th new ids, and whether the journal
-- can be removed.
pub record Txn : Type 0 where
  pub txn_id : String
  pub now : ℕ
  pub now_iso : String
  pub event_ids : ℕ → String
  pub outbox_ids : ℕ → String
  pub unlinks : Bool

-- `_row_from_event`
unfoldable pub row_from_event : Txn → ℕ → RawEvent → Row
row_from_event t i raw =
    let ev =
      make_event (t.event_ids i) t.now_iso
        (record raw { type_name = str_or raw.type_name "unknown" }) in
    record {
      outbox_id = str_or raw.outbox_id (t.outbox_ids i);
      event_id = ev.event_id;
      delivery_key = delivery_key_of ev "";
      status = "pending";
      event = ev;
      created_at = t.now;
      claimed_at = 0;
      sent_at = 0;
      attempts = 0;
      txn_id = t.txn_id;
    }

unfoldable pub new_rows : Txn → ℕ → List RawEvent → List Row
new_rows t i [] = []
new_rows t i (ev ∷ evs) = row_from_event t i ev ∷ new_rows t (suc i) evs

unfoldable pub put_all : List Row → List Row → List Row
put_all [] rows = rows
put_all (r ∷ rs) rows = put_all rs (put r rows)

unfoldable pub update_all : Dict String Entity → Dict String Entity → Dict String Entity
update_all [] d = d
update_all ((k, e) ∷ us) d = update_all us (insert k e d)

history_with :
    Txn → Option (Dict String Value) → List (Dict String Value) → List (Dict String Value)
unfolding set_default
history_with t none history = history
history_with t (some item) history =
    history
    ++ set_default "at_iso" (words t.now_iso)
        (set_default "at" (number t.now) (set_default "txn_id" (words t.txn_id) item))
      ∷ []

-- The memory with the changes of a transaction, before the journal is written
unfoldable pub changed :
    Txn → Dict String Entity → List RawEvent → Option (Dict String Value) → Memory → Memory
unfolding history_with
changed t updates events history_item m = record m {
  entities = update_all updates m.entities;
  rows = put_all (new_rows t 0 events) m.rows;
  history = history_with t history_item m.history;
}

unfoldable pub journal_of : Txn → Memory → Journal
journal_of t m = record {
  txn_id = t.txn_id;
  ts = t.now;
  entities = m.entities;
  outbox = m.rows;
  history = take_last 200 m.history;
  notes = take_last 50 m.notes;
}

-- All the writes of a transaction, in their order
unfoldable pub commit_writes : Journal → List Write
commit_writes j =
    write_journal j
    ∷ write_entities j.entities
    ∷ write_outbox (load_rows j.outbox)
    ∷ drop_journal
    ∷ []

pub record Outcome : Type 0 where
  pub session : Session
  pub crashed : Bool
  pub appended : List Row

-- `_commit_unlocked`, on a session that has been read
unfoldable pub commit_unlocked :
    Txn
    → Dict String Entity
    → List RawEvent
    → CrashPoint
    → Option (Dict String Value)
    → Session
    → Outcome
unfolding dropped
commit_unlocked t updates events crash history_item s =
    let m = changed t updates events history_item s.memory in
    let j = journal_of t m in
    let journaled = perform_all (take 1 (commit_writes j)) s.disk in
    let done : Session = record {
      memory = applied j;
      disk = perform_all (take 3 (commit_writes j)) s.disk;
    } in
    elim crash [
      | after_journal ↦ record {
        session = record { memory = m; disk = journaled };
        crashed = true;
        appended = [];
      }
      | after_apply ↦ record { session = done; crashed = true; appended = [] }
      | no_crash ↦ record {
        session = dropped t.unlinks done;
        crashed = false;
        appended = new_rows t 0 events;
      }
    ]

-- `append_in_txn` (and `_commit`): read, then commit.
unfoldable pub append_in_txn :
    Bool
    → Txn
    → List RawEvent
    → Dict String Entity
    → CrashPoint
    → Session
    → Result OutboxError Outcome
append_in_txn unlinks t events entities crash s = do
  r ← reload unlinks false s
  ok (commit_unlocked t entities events crash none r)
