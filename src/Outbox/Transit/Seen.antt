-- ===== src/Outbox/Transit/Seen.antt =====
-- What a transition that is committed leaves for every later reader.
use mathlib.Core.List.{Memᴰ}
use teleagent_collab.Common.{
  ◌≡◌, Bool, true, some, List, String, Dict, string_eq, lookup, non_empty, ok,
}
use teleagent_collab.Outbox.Store.{Entity, Row, find, Session, Memory}
use teleagent_collab.Outbox.Store.Commit.{new_rows, CrashPoint, Txn, Outcome}
use teleagent_collab.Outbox.Store.Rows.{IsClean}
use teleagent_collab.Outbox.Store.Atomic.{seen}
use teleagent_collab.Outbox.Transit.{Request, Prepared, Reply, raws_of}

-- The readers find the entity under its key, and each event of the call in a row of its own.
abbrev pub IsSeen : Txn → Prepared → Session → Type 0
IsSeen t p s =
    (v : Bool) (m : Memory)
    → (entities : Dict String Entity) × (rows : List Row) × (seen v m s.disk ≡ ok (entities, rows))
      × (lookup p.key entities ≡ some p.entity)
      × ((r : Row) → Memᴰ r (new_rows t 0 (raws_of p.events)) → find r.outbox_id rows ≡ some r)

module _ (u : Bool) (t : Txn) (q : Request) (crash : CrashPoint) (others : Session → Session) where
  abbrev pub IsGood : Prepared → Type 0
  IsGood p = (non_empty t.txn_id ≡ true) × IsClean (new_rows t 0 (raws_of p.events))

  abbrev IsCommitted : Reply → Type 0
  IsCommitted r =
      (p : Prepared) (out : Outcome) → r.answer ≡ ok (p, out) → IsGood p → IsSeen t p r.store
