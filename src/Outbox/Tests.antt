-- ===== src/Outbox/Tests.antt =====
-- The outbox on a small store.
use mathlib.Core.List.{Memᴰ}
use teleagent_collab.Common.{
  ◌≡◌, refl, true, false, [], ◌∷◌, string_eq, strip, take, ok, ℕ_discrete,
}
use teleagent_collab.Outbox.{Event, make_event, delivery_key_of, blank_event}
use teleagent_collab.Outbox.Store.{
  Row, missing, file, perform_all, reload, reread, put, find, load_rows, load_from,
}
use teleagent_collab.Outbox.Store.Commit.{commit_writes}
use teleagent_collab.Outbox.Store.Atomic.{seen, committed, commit_is_atomic}
use teleagent_collab.Outbox.Store.Claims.{
  sort_rows, claimed_row, commit_rows, claim_loop, is_claimable, claim_pending,
}
use teleagent_collab.Outbox.Inbox.{Inbox, duplicate, accepted, receive, load, knows, admit}
use teleagent_collab.Outbox.Inbox.Once.{receive_all, accepted_once}
use teleagent_collab.Outbox.Delivery.{
  Line, PumpCall, pump_outbox, pump_rows, pump_row, counted, marked,
}
use teleagent_collab.Outbox.Delivery.Delivered.{IsDelivered, pump_delivers}
use teleagent_collab.Outbox.Fixtures.{txn, empty_memory, disk, any_journal}

commit_is_atomic_example :
    seen true empty_memory (perform_all (take 2 (commit_writes any_journal)) disk)
    ≡ committed any_journal
commit_is_atomic_example = commit_is_atomic true empty_memory disk any_journal 2 refl

abbrev event : Event
event = make_event "e" "5" blank_event

abbrev one_event : Inbox
one_event = record { keys = "e" ∷ []; event_ids = "e" ∷ []; events = event ∷ [] }

event_is_accepted : receive event "" missing ≡ ok (file one_event, accepted "e" "e")
unfolding receive make_event load knows admit delivery_key_of strip string_eq ℕ_discrete
event_is_accepted = refl

accepted_once_example : receive event "" (file one_event) ≡ ok (file one_event, duplicate "e" "e")
unfolding make_event delivery_key_of strip ℕ_discrete receive_all
accepted_once_example =
    accepted_once event "" [] missing (file one_event) (file one_event) "e" "e" event_is_accepted
      refl

abbrev pending_row : Row
pending_row = record {
  outbox_id = "o";
  event_id = "e";
  delivery_key = "e";
  status = "pending";
  event = event;
  created_at = 1;
  claimed_at = 0;
  sent_at = 0;
  attempts = 0;
  txn_id = "t";
}

abbrev claimed : Row
claimed = record pending_row { status = "claimed"; claimed_at = 5; attempts = 1 }

abbrev call : PumpCall
call = record {
  has_sink = false;
  marks_sent = false;
  crash_before_mark_sent = false;
  limit = 100;
  unlinks = true;
  claim = txn;
  marks = λ i. txn;
}

abbrev line : Line
line = record {
  store = record { memory = empty_memory; disk = record disk { outbox = file (pending_row ∷ []) } };
  inbox = missing;
  sunk = [];
}

pump_delivers_example : IsDelivered (pump_outbox call line).0.inbox claimed
unfolding claim_pending reload load_rows load_from reread put find sort_rows claim_loop is_claimable
    claimed_row commit_rows string_eq make_event strip ℕ_discrete pump_outbox pump_rows pump_row
    receive load knows admit counted marked delivery_key_of
pump_delivers_example = pump_delivers call line _ _ claimed refl tt (Memᴰ.head refl) refl
