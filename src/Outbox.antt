-- ===== src/Outbox.antt =====
-- framework/outbox.py: the events that tell of a state change, and the ids and kinds they carry.
-- Times are exact numbers; `iso` is `_iso`, the text of a time. New ids (`new_event_id`,
-- `new_outbox_id`, `new_txn_id`) are arguments: they come from uuid4.
pub mod Store
pub mod Inbox
pub mod Transit
pub mod Delivery
mod Fixtures
mod Tests
use teleagent_collab.Common.{
  ℕ, suc, Bool, true, false, not, ◌&&◌, ◌||◌, Option, none, some, List, [], ◌∷◌, ◌++◌, String, Dict,
  string_eq, lookup, insert, contains, strip, lower, non_empty, str_or, append, Result, ok, err,
  ◌==◌, if◌then◌else◌,
}
use teleagent_collab.Lifecycle.{LifecycleError}

-- A JSON value. `other` stands for a value of another kind.
pub data Value : Type 0 where
  nothing : Value
  words : String → Value
  number : ℕ → Value
  other : ℕ → Value

pub data OutboxError : Type 0 where
  cannot_infer_kind entity_id_required new_state_required events_must_be_objects : OutboxError
  lifecycle_error : LifecycleError → OutboxError
  store_incompatible store_corrupt crash_simulated : OutboxError

-- What is read of a goal's or a task's mapping. An absent field is "", an absent `carried` field
-- ("title", "name" and "depends_on") has no entry.
pub record Subject : Type 0 where
  pub kind : String
  pub entity_kind : String
  pub task_id : String
  pub goal_id : String
  pub entity_id : String
  pub id : String
  pub desired_outcome : Bool
  pub status : String
  pub state : String
  pub run_id : String
  pub carried : Dict String Value

unfoldable pub entity_key : String → String → String
entity_key kind entity_id = append (strip kind) (append ":" (strip entity_id))

abbrev pub kinds : List String
kinds = "task" ∷ "goal" ∷ []

kind_of_ids : Subject → Result OutboxError String
kind_of_ids rec =
    if non_empty rec.task_id && not rec.desired_outcome
    then ok "task"
    else if non_empty rec.goal_id && not (non_empty rec.task_id)
    then ok "goal"
    else if non_empty rec.task_id
    then ok "task"
    else if non_empty rec.goal_id
    then ok "goal"
    else err OutboxError.cannot_infer_kind

unfoldable pub infer_kind : Subject → String → Result OutboxError String
unfolding kind_of_ids
infer_kind rec kind =
    let given = lower (strip kind) in
    let hinted = lower (strip (str_or rec.kind rec.entity_kind)) in
    if non_empty kind && contains kinds given
    then ok given
    else if contains kinds hinted
    then ok hinted
    else kind_of_ids rec

unfoldable pub infer_entity_id : Subject → String → String → String
infer_entity_id rec kind entity_id =
    if non_empty entity_id
    then strip entity_id
    else if kind == "task"
    then strip (str_or rec.task_id (str_or rec.entity_id rec.id))
    else strip (str_or rec.goal_id (str_or rec.entity_id rec.id))

unfoldable pub event_type_for : String → String → String → String
event_type_for kind new_state reason =
    if kind == "goal" && new_state == "completed"
    then "goal.completed"
    else if kind == "task" && new_state == "blocked"
    then "task.blocked"
    else if kind == "task" && (new_state == "queued" && non_empty reason)
    then "task.waiting"
    else if kind == "goal"
    then "goal.state_changed"
    else "task.state_changed"

pub record Event : Type 0 where
  pub event_id : String
  pub ts : String
  pub type_name : String
  pub goal_id : String
  pub task_id : Option String
  pub run_id : Option String
  pub payload : Dict String Value
  pub dedupe_key : String

-- A caller's event: an absent text is "".
pub record RawEvent : Type 0 where
  pub outbox_id : String
  pub event_id : String
  pub ts : String
  pub type_name : String
  pub goal_id : String
  pub task_id : Option String
  pub run_id : Option String
  pub payload : Dict String Value
  pub dedupe_key : String

-- `str(x) if x else None`
truthy : Option String → Option String
truthy none = none
truthy (some s) = if non_empty s then some s else none

unfoldable pub make_event : String → String → RawEvent → Event
unfolding truthy
make_event new_event_id now_iso raw =
    let eid = str_or (strip raw.event_id) new_event_id in
    record {
      event_id = eid;
      ts = str_or raw.ts now_iso;
      type_name = raw.type_name;
      goal_id = raw.goal_id;
      task_id = truthy raw.task_id;
      run_id = truthy raw.run_id;
      payload = raw.payload;
      dedupe_key = str_or (strip raw.dedupe_key) eid;
    }

unfoldable pub delivery_key_of : Event → String → String
delivery_key_of ev delivery_key =
    if non_empty delivery_key then strip delivery_key else strip (str_or ev.dedupe_key ev.event_id)

-- `payload.setdefault(k, v)`
unfoldable pub set_default : String → Value → Dict String Value → Dict String Value
set_default k v d = elim (lookup k d) [ none ↦ insert k v d | some _ ↦ d ]

opt_value : Option String → Value
opt_value none = nothing
opt_value (some s) = words s

-- `x if x is not None else (y or None)`
first_of : Option String → String → Option String
first_of (some s) y = some s
first_of none y = if non_empty y then some y else none

-- `if kind == KIND_TASK and not tid: tid = entity_id`, then `str(tid) if tid else None`
event_task : String → String → Option String → Option String
unfolding truthy
event_task kind entity_id none = if kind == "task" then truthy (some entity_id) else none
event_task kind entity_id (some t) =
    if kind == "task" && not (non_empty t) then truthy (some entity_id) else truthy (some t)

-- What an event tells of a transition.
pub record Change : Type 0 where
  pub kind : String
  pub entity_id : String
  pub new_state : String
  pub from_state : Option String
  pub goal_id : String
  pub task_id : String
  pub run_id : String
  pub reason : String

abbrev pub blank_event : RawEvent
blank_event = record {
  outbox_id = "";
  event_id = "";
  ts = "";
  type_name = "";
  goal_id = "";
  task_id = none;
  run_id = none;
  payload = [];
  dedupe_key = "";
}

payload_for : Change → Dict String Value → Dict String Value
unfolding set_default opt_value
payload_for c payload =
    let base = set_default "to_state" (words c.new_state) (
      set_default "from_state" (opt_value c.from_state) (
        set_default "entity_id" (words c.entity_id) (set_default "kind" (words c.kind) payload))) in
    if non_empty c.reason then set_default "reason" (words c.reason) base else base

-- `_normalize_event`; `blank_event` for the event that is made where the caller gave none.
unfoldable pub normalize_event : String → String → Change → RawEvent → Event
unfolding payload_for first_of event_task
normalize_event new_event_id now_iso c raw = make_event new_event_id now_iso (record {
  outbox_id = "";
  event_id = raw.event_id;
  ts = raw.ts;
  type_name = str_or raw.type_name (event_type_for c.kind c.new_state c.reason);
  goal_id = str_or raw.goal_id c.goal_id;
  task_id = event_task c.kind c.entity_id (first_of raw.task_id c.task_id);
  run_id = first_of raw.run_id c.run_id;
  payload = payload_for c raw.payload;
  dedupe_key = raw.dedupe_key;
})
