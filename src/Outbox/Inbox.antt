-- ===== src/Outbox/Inbox.antt =====
-- framework/outbox.py: `DedupStore`, the receiver's side. Every operation reads the file before it
-- works, and what is read replaces all that the object held, so that the state is the file. The two
-- sets are kept as lists; only membership in them is used.
pub mod Once
use teleagent_collab.Common.{
  Bool, true, false, not, ◌&&◌, ◌||◌, List, [], ◌∷◌, ◌++◌, String, string_eq, contains, strip,
  non_empty, str_or, Result, ok, err, ◌>>=◌, if◌then◌else◌,
}
use teleagent_collab.Outbox.{OutboxError, Event, delivery_key_of}
use teleagent_collab.Outbox.Store.{File, missing, unreadable, file}

pub record Inbox : Type 0 where
  pub keys : List String
  pub event_ids : List String
  pub events : List Event

pub data Receipt : Type 0 where
  missing_key : Receipt
  duplicate : String → String → Receipt
  accepted : String → String → Receipt

-- `_load_unlocked`
unfoldable pub load : File Inbox → Result OutboxError Inbox
load missing = ok (record { keys = []; event_ids = []; events = [] })
load (unreadable e) = err e
load (file i) = ok i

-- `if k: ks.add(k)`
add_new : String → List String → List String
add_new k ks = if non_empty k && not (contains ks k) then ks ++ k ∷ [] else ks

-- What `seen` and `receive` test
unfoldable pub knows : String → String → Inbox → Bool
knows key eid i =
    (non_empty key && contains i.keys key) || (non_empty eid && contains i.event_ids eid)

unfoldable pub admit : String → String → Event → Inbox → Inbox
unfolding add_new
admit key eid ev i = record {
  keys = add_new eid (add_new key i.keys);
  event_ids = add_new eid i.event_ids;
  events = i.events ++ ev ∷ [];
}

received : File Inbox → String → String → Event → Inbox → File Inbox × Receipt
received f key eid ev i =
    if knows key eid i
    then (f, duplicate (str_or key eid) eid)
    else (file (admit key eid ev i), accepted (str_or key eid) eid)

unfoldable pub receive : Event → String → File Inbox → Result OutboxError (File Inbox × Receipt)
unfolding received
receive ev delivery_key f =
    let eid = strip ev.event_id in
    let key = delivery_key_of ev delivery_key in
    if not (non_empty key) && not (non_empty eid)
    then ok (f, missing_key)
    else load f >>= λ i. ok (received f key eid ev i)

-- `seen`
unfoldable pub is_seen : String → File Inbox → Result OutboxError Bool
is_seen key f = load f >>= λ i. ok (contains i.keys (strip key) || contains i.event_ids (strip key))
