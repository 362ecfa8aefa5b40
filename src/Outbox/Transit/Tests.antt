-- ===== src/Outbox/Transit/Tests.antt =====
-- Transitions of one task on a small store.
use teleagent_collab.Common.{
  ◌≡◌, refl, true, none, some, [], ◌∷◌, String, string_eq, lookup, strip, lower, append, take,
  take_last, drop, insert, Option, ok, err, ℕ_discrete,
}
use teleagent_collab.Lifecycle.{check_edge, task_edge, assert_transition, illegal_transition}
use teleagent_collab.Outbox.{
  OutboxError, entity_key, infer_kind, infer_entity_id, blank_event, normalize_event,
}
use teleagent_collab.Outbox.Store.{
  applied, perform, Session, perform_all, reload, get_entity, load_rows, load_from,
}
use teleagent_collab.Outbox.Store.Commit.{
  changed, journal_of, update_all, commit_writes, no_crash, after_journal, Outcome, commit_unlocked,
  append_in_txn,
}
use teleagent_collab.Outbox.Transit.{
  Target, Prepared, target, prepare, birth_or_transition, previous_of, events_for, entity_for,
  change_for, raws_of, commit_transition,
}
use teleagent_collab.Outbox.Transit.Refused.{IsUntouched, refused_writes_nothing}
use teleagent_collab.Outbox.Transit.Legal.{IsStepTo, committed_is_legal}
use teleagent_collab.Outbox.Fixtures.{txn, empty_memory, running_entity, store, request}

-- Nobody works between the two locks.
abbrev alone : Session → Session
alone s = s

refused_writes_nothing_example :
    IsUntouched alone store
      (commit_transition true txn (request "queued") no_crash alone store).store
unfolding commit_transition target infer_kind string_eq lower strip infer_entity_id get_entity
    reload prepare birth_or_transition lookup previous_of entity_key append assert_transition
    check_edge task_edge ℕ_discrete
refused_writes_nothing_example =
    refused_writes_nothing true txn (request "queued") no_crash alone store
      (OutboxError.lifecycle_error (illegal_transition "running" "queued")) refl

abbrev done_prepared : Prepared
done_prepared = record {
  key = "task:a";
  entity = record running_entity {
    state = "succeeded";
    prev_state = some "running";
    updated_at = 5;
    updated_at_iso = "5";
  };
  events =
      normalize_event "e" "5"
        (record {
          kind = "task";
          entity_id = "a";
          new_state = "succeeded";
          from_state = some "running";
          goal_id = "g";
          task_id = "a";
          run_id = "";
          reason = "";
        })
        blank_event
      ∷ [];
}

abbrev store_read : Session
store_read = record store {
  memory = record empty_memory { entities = ("task:a", running_entity) ∷ [] };
}

abbrev done_outcome : Outcome
done_outcome =
    commit_unlocked txn (("task:a", done_prepared.entity) ∷ []) (raws_of done_prepared.events)
      after_journal none store_read

done_is_committed :
    (commit_transition true txn (request "succeeded") after_journal alone store).answer
    ≡ ok (done_prepared, done_outcome)
unfolding commit_transition target infer_kind string_eq lower strip infer_entity_id get_entity
    reload prepare birth_or_transition lookup previous_of entity_key append assert_transition
    check_edge task_edge ℕ_discrete events_for entity_for change_for append_in_txn load_rows
    load_from
done_is_committed = refl

abbrev the_target : Target
the_target = record { kind = "task"; entity_id = "a"; state = "succeeded" }

target_is : target (request "succeeded") ≡ ok the_target
unfolding target infer_kind infer_entity_id string_eq lower strip ℕ_discrete
target_is = refl

entity_is_read : get_entity true "task" "a" store ≡ ok (store_read, some running_entity)
unfolding get_entity reload lookup entity_key append string_eq strip ℕ_discrete load_rows load_from
entity_is_read = refl

committed_is_legal_example :
    IsStepTo true txn
      (request "succeeded")
      after_journal
      alone
      running_entity
      the_target
      done_prepared
committed_is_legal_example =
    committed_is_legal true txn (request "succeeded") after_journal alone running_entity the_target
      store store_read done_prepared done_outcome target_is entity_is_read refl refl
      done_is_committed

abbrev state_after : Session → Option String
state_after s = elim (lookup "task:a" s.memory.entities) [ none ↦ none | some e ↦ some e.state ]

-- Another process commits the task as succeeded between the reading of the entity and the
-- transaction.
abbrev succeeding : Session → Session
succeeding s = (commit_transition true txn (request "succeeded") no_crash alone s).store

-- The transition that was checked against the state before is committed.
late_commit :
    (state_after (succeeding store) ≡ some "succeeded")
    × (state_after (commit_transition true txn (request "failed") no_crash succeeding store).store
        ≡ some "failed")
unfolding commit_transition target infer_kind string_eq lower strip infer_entity_id get_entity
    reload prepare birth_or_transition lookup insert previous_of entity_key append assert_transition
    check_edge task_edge ℕ_discrete events_for entity_for change_for append_in_txn load_rows
    load_from commit_unlocked changed journal_of applied update_all perform_all commit_writes
    perform take take_last drop
late_commit = (refl, refl)

-- The table does not have the edge that the two commits make.
no_such_edge :
    assert_transition "task" "succeeded" "failed" ≡ err (illegal_transition "succeeded" "failed")
unfolding assert_transition check_edge task_edge lower strip lookup string_eq ℕ_discrete
no_such_edge = refl
