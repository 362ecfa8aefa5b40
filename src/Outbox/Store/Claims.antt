-- ===== src/Outbox/Store/Claims.antt =====
-- framework/outbox.py: claiming rows for delivery and marking them as sent.
pub mod Bounds
use Prim.Native.String.{compare as compare_text}
use Prim.Native.Nat.{Ordering}
use teleagent_collab.Common.{
  ℕ, zero, suc, ◌+◌, Bool, true, false, not, ◌&&◌, ◌||◌, Option, none, some, List, [], ◌∷◌, ◌++◌,
  String, string_eq, nat_eq, non_empty, keep, length, ltb, Result, ok, err, ◌>>=◌, ◌==◌,
  if◌then◌else◌,
}
use teleagent_collab.Outbox.{OutboxError}
use teleagent_collab.Outbox.Store.{Row, reread, find, Session, Memory, reload}
use teleagent_collab.Outbox.Store.Commit.{
  put_all, CrashPoint, no_crash, Txn, Outcome, commit_unlocked,
}

-- `(p.created_at, p.outbox_id) <= (q.created_at, q.outbox_id)`; texts compare by code points.
before : Row → Row → Bool
before p q =
    ltb p.created_at q.created_at
    || (p.created_at == q.created_at
        && elim (compare_text p.outbox_id q.outbox_id) [ Ordering.gt ↦ false | _ ↦ true ])

-- An insertion sort: ids differ, so that every sort gives this order.
insert_row : Row → List Row → List Row
unfolding before
insert_row r [] = r ∷ []
insert_row r (q ∷ qs) = let rest = insert_row r qs in if before r q then r ∷ q ∷ qs else q ∷ rest

unfoldable pub sort_rows : List Row → List Row
unfolding insert_row
sort_rows [] = []
sort_rows (r ∷ rs) = insert_row r (sort_rows rs)

-- `list_rows`; an absent status is "".
unfoldable pub list_rows : Bool → String → Session → Result OutboxError (Session × List Row)
list_rows unlinks status s = do
  r ← reload unlinks false s
  let rows = r.memory.rows
  ok (r, sort_rows (if non_empty status then keep (λ q. q.status == status) rows else rows))

unfoldable pub is_unsent : Row → Bool
is_unsent r = r.status == "pending" || r.status == "claimed"

-- `pending`
unfoldable pub pending : Bool → Session → Result OutboxError (Session × List Row)
pending unlinks s = do (r, rows) ← list_rows unlinks "" s; ok (r, keep is_unsent rows)

unfoldable pub is_claimable : Bool → Row → Bool
is_claimable reclaim r = r.status == "pending" || (reclaim && r.status == "claimed")

unfoldable pub claimed_row : ℕ → Row → Row
claimed_row ts r = record r { status = "claimed"; claimed_at = ts; attempts = r.attempts + 1 }

-- The loop over the sorted rows; the number is what `limit` leaves.
unfoldable pub claim_loop : ℕ → Bool → ℕ → List Row → List Row
claim_loop ts reclaim left [] = []
claim_loop ts reclaim zero (r ∷ rs) = []
claim_loop ts reclaim (suc left) (r ∷ rs) =
    let taken = claim_loop ts reclaim left rs in
    let skipped = claim_loop ts reclaim (suc left) rs in
    if is_claimable reclaim r then claimed_row ts r ∷ taken else skipped

reread_all : List Row → List Row
reread_all [] = []
reread_all (r ∷ rs) =
    let rest = reread_all rs in elim (reread r) [ none ↦ rest | some q ↦ q ∷ rest ]

-- `if rows: self._commit_unlocked(crash=None)`, with the rows in the memory's dict already changed
unfoldable pub commit_rows : Txn → List Row → Session → Session
commit_rows t [] s = s
commit_rows t (r ∷ rs) s =
    (commit_unlocked t [] [] no_crash none
      (record s { memory = record s.memory { rows = put_all (r ∷ rs) s.memory.rows } })).session

unfoldable pub claim_pending :
    Bool → Txn → ℕ → Bool → ℕ → Session → Result OutboxError (Session × List Row)
unfolding reread_all
claim_pending unlinks t limit reclaim ts s = do
  r ← reload unlinks false s
  let claimed = claim_loop ts reclaim limit (sort_rows r.memory.rows)
  ok (commit_rows t claimed r, reread_all claimed)

unfoldable pub sent_row : ℕ → Row → Row
sent_row ts r = record r { status = "sent"; sent_at = ts }

-- The rows that the loop over the ids marks.
unfoldable pub marked_rows : ℕ → List String → List Row → List Row
marked_rows ts [] rows = []
marked_rows ts (oid ∷ oids) rows =
    let rest = marked_rows ts oids rows in
    elim (find oid rows) [ none ↦ rest | some r ↦ sent_row ts r ∷ rest ]

ids_of : List Row → List String
ids_of [] = []
ids_of (r ∷ rs) = r.outbox_id ∷ ids_of rs

unfoldable pub mark_sent :
    Bool → Txn → List String → ℕ → Session → Result OutboxError (Session × List String)
unfolding ids_of
mark_sent unlinks t ids ts s = do
  r ← reload unlinks false s
  let marked = marked_rows ts ids r.memory.rows
  ok (commit_rows t marked r, ids_of marked)
