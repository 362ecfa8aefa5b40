-- ===== src/Outbox/Delivery/Delivered.antt =====
-- Which events a pump leaves with the receiver.
use mathlib.Core.List.{Memᴰ}
use teleagent_collab.Common.{
  ℕ, suc, ◌≡◌, refl, subst, sym, Bool, true, false, ◌||◌, List, [], ◌∷◌, String, strip, non_empty,
  Result, ok, err,
}
use teleagent_collab.Outbox.{OutboxError, delivery_key_of}
use teleagent_collab.Outbox.Store.{Row, Session, File}
use teleagent_collab.Outbox.Store.Claims.{claim_pending}
use teleagent_collab.Outbox.Inbox.{Inbox, Receipt, receive}
use teleagent_collab.Outbox.Inbox.Once.{IsKnown, receive-IsKnown, receive_makes-IsKnown}
use teleagent_collab.Outbox.Delivery.{
  Line, Report, End, finished, crashed, failed, PumpCall, marked, Turn, goes_on, crashes, raises,
  on_marked, on_delivered, on_received, sunk_with, pump_row, then_on, pump_rows, on_claimed,
  pump_outbox,
}

-- Whether the loop goes on
abbrev GoesOn : Line × Turn → Type 0
GoesOn (l, goes_on r) = Unit
GoesOn (l, crashes) = ⊥
GoesOn (l, raises e) = ⊥

marked_inbox :
    (b : Bool) (c : PumpCall) (i : ℕ) (row : Row) (report : Report) (l : Line)
    → (on_delivered b c i row report l).0.inbox ≡ l.inbox
unfolding on_delivered on_marked
marked_inbox true c i row report l = refl
marked_inbox false c i row report l = go (marked c i row l.store)
  where
    go : (o : Result OutboxError Session) → (on_marked report l o).0.inbox ≡ l.inbox
    go (ok s) = refl
    go (err e) = refl

module _ (key eid : String) where
  received_keeps :
      (c : PumpCall) (i : ℕ) (row : Row) (report : Report) (l : Line)
      (o : Result OutboxError (File Inbox × Receipt))
      → receive row.event row.delivery_key l.inbox ≡ o
      → IsKnown key eid l.inbox
      → IsKnown key eid (on_received c i row report l o).0.inbox
  unfolding on_received
  received_keeps c i row report l (err e) q k = k
  received_keeps c i row report l (ok (inbox, r)) q k =
      subst (IsKnown key eid) (sym (marked_inbox c.crash_before_mark_sent c i row _ _))
        (receive-IsKnown key eid row.event row.delivery_key l.inbox inbox r q k)

  row_keeps :
      (c : PumpCall) (i : ℕ) (row : Row) (report : Report) (l : Line)
      → IsKnown key eid l.inbox
      → IsKnown key eid (pump_row c i row report l).0.inbox
  unfolding pump_row
  row_keeps c i row report l k =
      received_keeps c i row report (record l { sunk = sunk_with c.has_sink row.event l.sunk })
        (receive row.event row.delivery_key l.inbox) refl k

  rows_keep :
      (c : PumpCall) (i : ℕ) (rows : List Row) (report : Report) (l : Line)
      → IsKnown key eid l.inbox
      → IsKnown key eid (pump_rows c i rows report l).0.inbox
  unfolding pump_rows
  rows_keep c i [] report l k = k
  rows_keep c i (row ∷ rows) report l k =
      go (pump_row c i row report l) (row_keeps c i row report l k)
        (λ r l'. rows_keep c (suc i) rows r l')
    where
      go :
          (s : Line × Turn)
          → IsKnown key eid s.0.inbox
          → ((r : Report) (l' : Line)
              → IsKnown key eid l'.inbox
              → IsKnown key eid (pump_rows c (suc i) rows r l').0.inbox)
          → IsKnown key eid (then_on s (λ r l'. pump_rows c (suc i) rows r l')).0.inbox
      go (l', goes_on r) k' rest = rest r l' k'
      go (l', crashes) k' rest = k'
      go (l', raises e) k' rest = k'

-- The row's event has a delivery key or an id, and the inbox knows it.
abbrev pub HasKey : Row → Type 0
HasKey row =
    (non_empty (delivery_key_of row.event row.delivery_key) || non_empty (strip row.event.event_id))
    ≡ true

abbrev pub IsDelivered : File Inbox → Row → Type 0
IsDelivered inbox row =
    IsKnown (delivery_key_of row.event row.delivery_key) (strip row.event.event_id) inbox

received_delivers :
    (c : PumpCall) (i : ℕ) (row : Row) (report : Report) (l : Line)
    (o : Result OutboxError (File Inbox × Receipt))
    → receive row.event row.delivery_key l.inbox ≡ o
    → HasKey row
    → GoesOn (on_received c i row report l o)
    → IsDelivered (on_received c i row report l o).0.inbox row
unfolding on_received
received_delivers c i row report l (err e) q h g = elim g [ ]
received_delivers c i row report l (ok (inbox, r)) q h g =
    subst (λ z. IsDelivered z row) (sym (marked_inbox c.crash_before_mark_sent c i row _ _))
      (receive_makes-IsKnown row.event row.delivery_key l.inbox inbox r q h)

row_delivers :
    (c : PumpCall) (i : ℕ) (row : Row) (report : Report) (l : Line)
    → HasKey row
    → GoesOn (pump_row c i row report l)
    → IsDelivered (pump_row c i row report l).0.inbox row
unfolding pump_row
row_delivers c i row report l h g =
    received_delivers c i row report (record l { sunk = sunk_with c.has_sink row.event l.sunk })
      (receive row.event row.delivery_key l.inbox) refl h g

abbrev pub IsFinished : Line × End → Type 0
IsFinished (l, finished r) = Unit
IsFinished (l, crashed) = ⊥
IsFinished (l, failed e) = ⊥

-- A loop over claimed rows that comes to its end leaves each row's event known to the receiver, where
-- the event has a delivery key or an id.
pub finished-IsDelivered :
    (c : PumpCall) (i : ℕ) (rows : List Row) (report : Report) (l : Line) (row : Row)
    → IsFinished (pump_rows c i rows report l)
    → Memᴰ row rows
    → HasKey row
    → IsDelivered (pump_rows c i rows report l).0.inbox row
unfolding pump_rows
finished-IsDelivered c i [] report l row f m h = elim m [ ]
finished-IsDelivered c i (q ∷ rows) report l row f m h =
    go (pump_row c i q report l) m (λ e g. row_delivers c i q report l (subst HasKey e h) g)
      (λ r l' f' m'. finished-IsDelivered c (suc i) rows r l' row f' m' h) f
  where
    go :
        (s : Line × Turn)
        → Memᴰ row (q ∷ rows)
        → (row ≡ q → GoesOn s → IsDelivered s.0.inbox q)
        → ((r : Report) (l' : Line)
            → IsFinished (pump_rows c (suc i) rows r l')
            → Memᴰ row rows
            → IsDelivered (pump_rows c (suc i) rows r l').0.inbox row)
        → IsFinished (then_on s (λ r l'. pump_rows c (suc i) rows r l'))
        → IsDelivered (then_on s (λ r l'. pump_rows c (suc i) rows r l')).0.inbox row
    go (l', crashes) k here later f = elim f [ ]
    go (l', raises e) k here later f = elim f [ ]
    go (l', goes_on r) (Memᴰ.head e) here later f =
        rows_keep (delivery_key_of row.event row.delivery_key) (strip row.event.event_id) c (suc i)
          rows r l' (subst (IsDelivered l'.inbox) (sym e) (here e tt))
    go (l', goes_on r) (Memᴰ.tail k) here later f = later r l' f k

-- A pump that comes to its end leaves the event of every row that it claimed known to the receiver,
-- where the event has a delivery key or an id.
pub pump_delivers :
    (c : PumpCall) (l : Line) (s : Session) (rows : List Row) (row : Row)
    → claim_pending c.unlinks c.claim c.limit true c.claim.now l.store ≡ ok (s, rows)
    → IsFinished (pump_outbox c l)
    → Memᴰ row rows
    → HasKey row
    → IsDelivered (pump_outbox c l).0.inbox row
unfolding pump_outbox on_claimed
pump_delivers c l s rows row g f m h =
    let none_yet : Report = record { delivered = []; duplicates = [] } in
    subst (λ o. IsFinished (on_claimed c l o) → IsDelivered (on_claimed c l o).0.inbox row) (sym g)
      (λ f'. finished-IsDelivered c 0 rows none_yet (record l { store = s }) row f' m h) f
