-- ===== src/Outbox/Delivery.antt =====
-- framework/outbox.py: `pump_outbox`, from the outbox to the receiver.
pub mod Delivered
use teleagent_collab.Common.{
  ℕ, zero, suc, ◌+◌, Bool, true, false, List, [], ◌∷◌, ◌++◌, String, Result, ok, err, ◌>>=◌,
  if◌then◌else◌,
}
use teleagent_collab.Outbox.{OutboxError, Event}
use teleagent_collab.Outbox.Store.{Row, Session, File}
use teleagent_collab.Outbox.Store.Commit.{Txn}
use teleagent_collab.Outbox.Store.Claims.{claim_pending, mark_sent}
use teleagent_collab.Outbox.Inbox.{Inbox, Receipt, missing_key, duplicate, accepted, receive}

-- The two stores, and the events that the sink was called with, the last one last.
pub record Line : Type 0 where
  pub store : Session
  pub inbox : File Inbox
  pub sunk : List Event

pub record Report : Type 0 where
  pub delivered : List String
  pub duplicates : List String

-- How a pump ends; the exception of a store ends it too.
pub data End : Type 0 where
  finished : Report → End
  crashed : End
  failed : OutboxError → End

is_duplicate : Receipt → Bool
is_duplicate missing_key = false
is_duplicate (duplicate _ _) = true
is_duplicate (accepted _ _) = false

unfoldable pub counted : Receipt → String → Report → Report
unfolding is_duplicate
counted receipt oid r =
    if is_duplicate receipt
    then record r { duplicates = r.duplicates ++ oid ∷ [] }
    else record r { delivered = r.delivered ++ oid ∷ [] }

-- What a pump is called with. `has_sink` says whether a sink is given, and the i-th row is marked in
-- the transaction `marks i`.
pub record PumpCall : Type 0 where
  pub has_sink : Bool
  pub marks_sent : Bool
  pub crash_before_mark_sent : Bool
  pub limit : ℕ
  pub unlinks : Bool
  pub claim : Txn
  pub marks : ℕ → Txn

sunk_with : Bool → Event → List Event → List Event
sunk_with has_sink ev sunk = if has_sink then sunk ++ ev ∷ [] else sunk

-- `if mark_sent: store.mark_sent(row.outbox_id)`
unfoldable pub marked : PumpCall → ℕ → Row → Session → Result OutboxError Session
marked c i row s =
    if c.marks_sent
    then (mark_sent c.unlinks (c.marks i) (row.outbox_id ∷ []) (c.marks i).now s >>= λ r. ok r.0)
    else ok s

-- After one row: the report with which the loop goes on, or how it ends.
pub data Turn : Type 0 where
  goes_on : Report → Turn
  crashes : Turn
  raises : OutboxError → Turn

on_marked : Report → Line → Result OutboxError Session → Line × Turn
on_marked report l (err e) = (l, raises e)
on_marked report l (ok s) = (record l { store = s }, goes_on report)

on_delivered : Bool → PumpCall → ℕ → Row → Report → Line → Line × Turn
unfolding on_marked
on_delivered true c i row report l = (l, crashes)
on_delivered false c i row report l = on_marked report l (marked c i row l.store)

on_received :
    PumpCall → ℕ → Row → Report → Line → Result OutboxError (File Inbox × Receipt) → Line × Turn
unfolding on_delivered
on_received c i row report l (err e) = (l, raises e)
on_received c i row report l (ok (inbox, receipt)) =
    on_delivered c.crash_before_mark_sent c i row (counted receipt row.outbox_id report)
      (record l { inbox = inbox })

-- The loop's body for the i-th row
unfoldable pub pump_row : PumpCall → ℕ → Row → Report → Line → Line × Turn
unfolding sunk_with on_received
pump_row c i row report l =
    on_received c i row report (record l { sunk = sunk_with c.has_sink row.event l.sunk })
      (receive row.event row.delivery_key l.inbox)

abbrev pub then_on : Line × Turn → (Report → Line → Line × End) → Line × End
then_on (l, goes_on report) k = k report l
then_on (l, crashes) k = (l, crashed)
then_on (l, raises e) k = (l, failed e)

-- The loop over the claimed rows
unfoldable pub pump_rows : PumpCall → ℕ → List Row → Report → Line → Line × End
pump_rows c i [] report l = (l, finished report)
pump_rows c i (row ∷ rows) report l =
    then_on (pump_row c i row report l) (λ report' l'. pump_rows c (suc i) rows report' l')

on_claimed : PumpCall → Line → Result OutboxError (Session × List Row) → Line × End
on_claimed c l (err e) = (l, failed e)
on_claimed c l (ok (s, rows)) =
    pump_rows c 0 rows (record { delivered = []; duplicates = [] }) (record l { store = s })

unfoldable pub pump_outbox : PumpCall → Line → Line × End
unfolding on_claimed
pump_outbox c l = on_claimed c l (claim_pending c.unlinks c.claim c.limit true c.claim.now l.store)
