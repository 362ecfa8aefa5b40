-- ===== src/Outbox/Store/Atomic.antt =====
-- What a process finds that opens the files in or after a transaction.
use teleagent_collab.Common.{
  ℕ, zero, suc, ◌≡◌, refl, subst, sym, ap, ◌∙◌, Bool, true, false, Option, List, [], String, Dict,
  non_empty, append, take, Result, ok, err, >>=-eq-ok, arith,
}
use teleagent_collab.Outbox.{OutboxError, RawEvent, Value}
use teleagent_collab.Outbox.Store.{
  Entity, Row, load_rows, Journal, File, missing, unreadable, file, Disk, Memory, Session,
  write_journal, perform, perform_all, applied, apply_writes, reload, replayed, live_or_opened,
  load_live, content, noted, dropped,
}
use teleagent_collab.Outbox.Store.Commit.{
  commit_writes, CrashPoint, no_crash, after_journal, after_apply, Txn, changed, journal_of,
  commit_unlocked,
}
use teleagent_collab.Outbox.Store.Rows.{IsClean, load_rows-IsClean, load_rows-load_rows}

-- What a reader finds: the entities and the rows, or the error.
abbrev pub View : Type 0
View = Result OutboxError (Dict String Entity × List Row)

unfoldable pub view_of : Result OutboxError Session → View
view_of (ok s) = ok (s.memory.entities, s.memory.rows)
view_of (err e) = err e

-- What a process finds that opens the files with the memory `m`.
unfoldable pub seen : Bool → Memory → Disk → View
seen unlinks m d = view_of (reload unlinks false (record { memory = m; disk = d }))

-- The view of the journal's content
abbrev pub committed : Journal → View
committed j = ok (j.entities, load_rows j.outbox)

seen_journal :
    (u : Bool) (m : Memory) (d : Disk) (j : Journal)
    → non_empty j.txn_id ≡ true
    → d.journal ≡ file j
    → seen u m d ≡ committed j
unfolding seen view_of reload replayed applied dropped noted
seen_journal true m d j h e = ground arith
seen_journal false m d j h e = ground arith

seen_live :
    (u : Bool) (m : Memory) (d : Disk) (j : Journal)
    → d.journal ≡ missing
    → d.entities ≡ file j.entities
    → d.outbox ≡ file (load_rows j.outbox)
    → seen u m d ≡ committed j
unfolding seen view_of reload live_or_opened load_live content
seen_live u m d j e f g = grind (arith, load_rows-load_rows j.outbox)

-- The writes of a transaction stop after the first `n`, wherever that is: a process that then opens
-- the files, with any memory, finds all of the transaction once the journal is written, and what it
-- found before until then. The transaction's id is not empty.
pub commit_is_atomic :
    (unlinks : Bool) (m : Memory) (d : Disk) (j : Journal) (n : ℕ)
    → non_empty j.txn_id ≡ true
    → seen unlinks m (perform_all (take n (commit_writes j)) d)
      ≡ elim n [ zero ↦ seen unlinks m d | suc _ ↦ committed j ]
unfolding take commit_writes perform_all perform
commit_is_atomic u m d j zero h = refl
commit_is_atomic u m d j (suc zero) h = seen_journal u m (perform (write_journal j) d) j h refl
commit_is_atomic u m d j (suc (suc zero)) h = seen_journal u m _ j h refl
commit_is_atomic u m d j (suc (suc (suc zero))) h = seen_journal u m _ j h refl
commit_is_atomic u m d j (suc (suc (suc (suc zero)))) h = seen_live u m _ j refl refl refl
commit_is_atomic u m d j (suc (suc (suc (suc (suc n))))) h = seen_live u m _ j refl refl refl

seen-dropped :
    (b u : Bool) (m : Memory) (s : Session) (j : Journal)
    → non_empty j.txn_id ≡ true
    → s.disk.journal ≡ file j
    → s.disk.entities ≡ file j.entities
    → s.disk.outbox ≡ file (load_rows j.outbox)
    → seen u m (dropped b s).disk ≡ committed j
unfolding dropped perform
seen-dropped true u m s j h e f g = seen_live u m _ j refl f g
seen-dropped false u m s j h e f g = seen_journal u m s.disk j h e

module _ (t : Txn) (updates : Dict String Entity) (events : List RawEvent)
    (item : Option (Dict String Value)) (s : Session) where
  abbrev pub journal : Journal
  journal = journal_of t (changed t updates events item s.memory)

  -- A commit leaves files in which a later process finds all of the transaction, whether it ends, or
  -- crashes after the journal or after the live files, and whether the journal can be removed or not. The
  -- transaction's id is not empty.
  pub commit_survives_crash :
      (crash : CrashPoint) (unlinks : Bool) (m : Memory)
      → non_empty t.txn_id ≡ true
      → seen unlinks m (commit_unlocked t updates events crash item s).session.disk
        ≡ committed journal
  unfolding commit_unlocked journal_of commit_writes take perform_all perform
  commit_survives_crash no_crash u m h = seen-dropped t.unlinks u m _ journal h refl refl refl
  commit_survives_crash after_journal u m h = seen_journal u m _ journal h refl
  commit_survives_crash after_apply u m h = seen_journal u m _ journal h refl

live_keeps_disk : (init : Bool) (s r : Session) → live_or_opened init s ≡ ok r → r.disk ≡ s.disk
unfolding live_or_opened load_live content
live_keeps_disk init s r h = grind arith

replayed_is : Bool → Journal → Session → Session
unfolding apply_writes
replayed_is u j s = dropped u (record {
  memory = noted (append "replayed journal txn=" j.txn_id) (applied j);
  disk = perform_all (apply_writes j) s.disk;
})

replayed_gives :
    (u : Bool) (j : Journal) (s r : Session)
    → replayed u j s ≡ ok r
    → (non_empty j.txn_id ≡ true) × (replayed_is u j s ≡ r)
unfolding replayed replayed_is
replayed_gives u j s r h = (ground arith, ground arith)

seen_replayed :
    (u v : Bool) (m : Memory) (s : Session) (j : Journal)
    → non_empty j.txn_id ≡ true
    → s.disk.journal ≡ file j
    → seen v m (replayed_is u j s).disk ≡ committed j
unfolding replayed_is apply_writes perform_all perform
seen_replayed u v m s j p e = seen-dropped u v m _ j p e refl refl

reload_by :
    (u init : Bool) (s r : Session) (f : File Journal)
    → s.disk.journal ≡ f
    → reload u init s ≡ ok r
    → (v : Bool) (m : Memory) → seen v m r.disk ≡ seen v m s.disk
unfolding reload
reload_by u init s r missing e h v m =
    ap (λ d. seen v m d) (live_keeps_disk init s r (ground arith))
reload_by u init s r (unreadable x) e h v m = ground arith
reload_by u init s r (file j) e h v m =
    let (p, g) = replayed_gives u j s r (ground arith) in
    ap (λ z. seen v m z.disk) (sym g)
    ∙ seen_replayed u v m s j p e
    ∙ sym (seen_journal v m s.disk j p e)

-- Reading the files does not change what later processes find.
pub seen-reload :
    (u init : Bool) (s r : Session)
    → reload u init s ≡ ok r
    → (v : Bool) (m : Memory) → seen v m r.disk ≡ seen v m s.disk
seen-reload u init s r h = reload_by u init s r s.disk.journal refl h

live_rows :
    (init : Bool) (s r : Session)
    → live_or_opened init s ≡ ok r
    → (raws : List Row) × (load_rows raws ≡ r.memory.rows)
unfolding live_or_opened load_live
live_rows init s r h =
    let (t, g, _) = >>=-eq-ok (load_live s) _ h in
    let (_, _, g') = >>=-eq-ok (content [] s.disk.entities) _ g in
    let (raws, _, _) = >>=-eq-ok (content [] s.disk.outbox) _ g' in (raws, grind arith)

replayed_rows :
    (u : Bool) (j : Journal) (s : Session) → load_rows j.outbox ≡ (replayed_is u j s).memory.rows
unfolding replayed_is dropped applied noted
replayed_rows true j s = refl
replayed_rows false j s = refl

rows_by :
    (u init : Bool) (s r : Session) (f : File Journal)
    → s.disk.journal ≡ f
    → reload u init s ≡ ok r
    → (raws : List Row) × (load_rows raws ≡ r.memory.rows)
unfolding reload
rows_by u init s r missing e h = live_rows init s r (ground arith)
rows_by u init s r (unreadable x) e h = ground arith
rows_by u init s r (file j) e h =
    let (p, g) = replayed_gives u j s r (ground arith) in
    (j.outbox, replayed_rows u j s ∙ ap (λ z. z.memory.rows) g)

pub reload-IsClean :
    (u init : Bool) (s r : Session) → reload u init s ≡ ok r → IsClean r.memory.rows
reload-IsClean u init s r h =
    let (raws, e) = rows_by u init s r s.disk.journal refl h in
    subst IsClean e (load_rows-IsClean raws)
