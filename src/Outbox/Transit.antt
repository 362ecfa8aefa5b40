-- ===== src/Outbox/Transit.antt =====
-- framework/outbox.py: a transition of one entity, with its events, in one transaction.
pub mod Answers
pub mod Refused
pub mod Seen
pub mod Legal
mod Tests
use teleagent_collab.Common.{
  ℕ, zero, suc, Bool, true, false, not, ◌&&◌, ◌||◌, Option, none, some, List, [], ◌∷◌, String, Dict,
  string_eq, lookup, strip, non_empty, str_or, Result, ok, err, ◌>>=◌, raise_unless, ◌==◌,
  if◌then◌else◌,
}
use teleagent_collab.Lifecycle.{
  LifecycleError, unknown_state, task_states, goal_states, assert_transition,
}
use teleagent_collab.Outbox.{
  Value, OutboxError, Subject, entity_key, infer_kind, infer_entity_id, Event, RawEvent, Change,
  blank_event, normalize_event,
}
use teleagent_collab.Outbox.Store.{Entity, Session, reload, get_entity}
use teleagent_collab.Outbox.Store.Commit.{CrashPoint, Txn, Outcome, append_in_txn}

abbrev is_known : {S : Type 0} → Option S → Bool
is_known none = false
is_known (some _) = true

lifecycle : Result LifecycleError (Unit {0}) → Result OutboxError (Unit {0})
lifecycle (ok u) = ok u
lifecycle (err e) = err (OutboxError.lifecycle_error e)

is_state : String → String → Bool
is_state kind dst =
    if kind == "task" then is_known (lookup dst task_states) else is_known (lookup dst goal_states)

-- `_birth_or_transition`; no source is "".
unfoldable pub birth_or_transition : String → String → String → Result OutboxError (Unit {0})
unfolding is_state lifecycle
birth_or_transition kind src dst =
    if not (is_state kind dst)
    then err (OutboxError.lifecycle_error (unknown_state kind dst))
    else if not (non_empty src) || src == dst
    then ok tt
    else lifecycle (assert_transition kind src dst)

-- The arguments of `commit_transition`. An event that is no mapping is none; an absent text is "".
pub record Request : Type 0 where
  pub subject : Subject
  pub new_state : Option String
  pub events : List (Option RawEvent)
  pub kind : String
  pub entity_id : String
  pub from_state : Option String
  pub goal_id : String
  pub task_id : String
  pub run_id : String
  pub reason : String
  pub extra : Dict String Value

unfoldable pub target_of : Option String → Subject → String
target_of (some s) rec = strip s
target_of none rec = strip (str_or rec.status rec.state)

-- The state in the store, `none` where there is no entity or its state is empty.
state_in_store : Option Entity → Option String
state_in_store none = none
state_in_store (some e) = if non_empty e.state then some e.state else none

or_else : Option String → Option String → Option String
or_else (some s) o = some s
or_else none o = o

unfoldable pub previous_of : Option String → Option Entity → String → String → Option String
unfolding state_in_store or_else
previous_of from_state current status dst = or_else from_state (
    or_else (state_in_store current)
      (if non_empty status && not (status == dst) then some status else none))

abbrev pub text_or_empty : Option String → String
text_or_empty none = ""
text_or_empty (some s) = s

-- The events that are mappings, normalised; the number is the position in the transaction.
normalize_all : Txn → Change → ℕ → List (Option RawEvent) → List Event
normalize_all t c i [] = []
normalize_all t c i (none ∷ evs) = normalize_all t c i evs
normalize_all t c i (some ev ∷ evs) =
    normalize_event (t.event_ids i) t.now_iso c ev ∷ normalize_all t c (suc i) evs

at_least_one : List Event → Result OutboxError (List Event)
at_least_one [] = err OutboxError.events_must_be_objects
at_least_one (e ∷ es) = ok (e ∷ es)

unfoldable pub events_for : Txn → Change → List (Option RawEvent) → Result OutboxError (List Event)
unfolding normalize_all at_least_one
events_for t c [] = ok (normalize_event (t.event_ids 0) t.now_iso c blank_event ∷ [])
events_for t c (ev ∷ evs) = at_least_one (normalize_all t c 0 (ev ∷ evs))

-- An event is handed to the store as it is; it has no "outbox_id".
unfoldable pub raw_of : Event → RawEvent
raw_of ev = record {
  outbox_id = "";
  event_id = ev.event_id;
  ts = ev.ts;
  type_name = ev.type_name;
  goal_id = ev.goal_id;
  task_id = ev.task_id;
  run_id = ev.run_id;
  payload = ev.payload;
  dedupe_key = ev.dedupe_key;
}

abbrev pub raws_of : List Event → List RawEvent
raws_of [] = []
raws_of (e ∷ es) = raw_of e ∷ raws_of es

-- What is known before the store is read
pub record Target : Type 0 where
  pub kind : String
  pub entity_id : String
  pub state : String

unfoldable pub target : Request → Result OutboxError Target
unfolding target_of
target q = do
  k ← infer_kind q.subject q.kind
  let eid = infer_entity_id q.subject k q.entity_id
  _ ← raise_unless (non_empty eid) OutboxError.entity_id_required
  let dst = target_of q.new_state q.subject
  _ ← raise_unless (non_empty dst) OutboxError.new_state_required
  ok (record { kind = k; entity_id = eid; state = dst })

pub record Prepared : Type 0 where
  pub key : String
  pub entity : Entity
  pub events : List Event

unfoldable pub entity_for : Txn → Request → Target → Option String → Entity
entity_for t q a prev = record {
  kind = a.kind;
  entity_id = a.entity_id;
  state = a.state;
  prev_state = prev;
  goal_id =
      str_or q.goal_id (str_or q.subject.goal_id (if a.kind == "goal" then a.entity_id else ""));
  task_id =
      if a.kind == "task"
      then str_or q.task_id (str_or q.subject.task_id a.entity_id)
      else q.subject.task_id;
  run_id = str_or q.run_id q.subject.run_id;
  reason = q.reason;
  updated_at = t.now;
  updated_at_iso = t.now_iso;
  extra = q.extra;
  carried = q.subject.carried;
}

unfoldable pub change_for : Request → Target → Option String → Change
change_for q a prev = record {
  kind = a.kind;
  entity_id = a.entity_id;
  new_state = a.state;
  from_state = prev;
  goal_id =
      str_or q.goal_id (str_or q.subject.goal_id (if a.kind == "goal" then a.entity_id else ""));
  task_id =
      str_or q.task_id (str_or q.subject.task_id (if a.kind == "task" then a.entity_id else ""));
  run_id = q.run_id;
  reason = q.reason;
}

-- The part between reading the entity and the transaction
unfoldable pub prepare : Txn → Request → Target → Option Entity → Result OutboxError Prepared
prepare t q a current = do
  let prev = previous_of q.from_state current q.subject.status a.state
  _ ← birth_or_transition a.kind (text_or_empty prev) a.state
  evs ← events_for t (change_for q a prev) q.events
  ok (record { key = entity_key a.kind a.entity_id; entity = entity_for t q a prev; events = evs })

-- The store after the call, and the error or the outcome
pub record Reply : Type 0 where
  pub store : Session
  pub answer : Result OutboxError (Prepared × Outcome)

appended : Prepared → Session → Result OutboxError Outcome → Reply
appended p s (err e) = record { store = s; answer = err e }
appended p s (ok out) = record { store = out.session; answer = ok (p, out) }

-- `get_entity` and `append_in_txn` each take and give back the lock: `others` is what is done to the
-- store between the two, by any thread or process.
on_prepared :
    Bool
    → Txn
    → CrashPoint
    → (others : Session → Session) → Session
    → Result OutboxError Prepared
    → Reply
unfolding appended
on_prepared unlinks t crash others s (err e) = record { store = s; answer = err e }
on_prepared unlinks t crash others s (ok p) =
    appended p (others s)
      (append_in_txn unlinks t (raws_of p.events) ((p.key, p.entity) ∷ []) crash (others s))

on_entity :
    Bool
    → Txn
    → Request
    → CrashPoint
    → (others : Session → Session) → Target
    → Session
    → Result OutboxError (Session × Option Entity)
    → Reply
unfolding on_prepared
on_entity unlinks t q crash others a s (err e) = record { store = s; answer = err e }
on_entity unlinks t q crash others a s (ok (r, current)) =
    on_prepared unlinks t crash others r (prepare t q a current)

on_target :
    Bool
    → Txn
    → Request
    → CrashPoint
    → (others : Session → Session) → Session
    → Result OutboxError Target
    → Reply
unfolding on_entity
on_target unlinks t q crash others s (err e) = record { store = s; answer = err e }
on_target unlinks t q crash others s (ok a) =
    on_entity unlinks t q crash others a s (get_entity unlinks a.kind a.entity_id s)

unfoldable pub commit_transition :
    Bool → Txn → Request → CrashPoint → (others : Session → Session) → Session → Reply
unfolding on_target
commit_transition unlinks t q crash others s = on_target unlinks t q crash others s (target q)
