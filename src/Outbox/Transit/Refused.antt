-- ===== src/Outbox/Transit/Refused.antt =====
-- What a refused transition leaves.
use teleagent_collab.Common.{
  ◌≡◌, refl, ap, ◌∙◌, ◌⊎◌, inl, inr, Bool, false, Option, [], ◌∷◌, String, Result, ok, err,
  >>=-eq-ok, ok_injective,
}
use teleagent_collab.Outbox.{OutboxError}
use teleagent_collab.Outbox.Store.{Entity, Session, Memory, get_entity, reload}
use teleagent_collab.Outbox.Store.Commit.{CrashPoint, Txn, Outcome, append_in_txn}
use teleagent_collab.Outbox.Store.Atomic.{seen, seen-reload}
use teleagent_collab.Outbox.Transit.{
  Request, Target, Prepared, Reply, target, prepare, appended, on_prepared, on_entity, on_target,
  commit_transition, raws_of,
}

-- The store of a refused call: as the call read it, with what the readers found before, or as the
-- others left it in the gap.
abbrev pub IsUntouched : (Session → Session) → Session → Session → Type 0
IsUntouched others s t =
    (r : Session) × (((v : Bool) (m : Memory) → seen v m r.disk ≡ seen v m s.disk)
      × ((t ≡ r) ⊎ (t ≡ others r)))

module _ (u : Bool) (t : Txn) (q : Request) (crash : CrashPoint) (others : Session → Session) where
  abbrev IsKeptOnError : Session → Reply → Type 0
  IsKeptOnError s r = (e : OutboxError) → r.answer ≡ err e → (r.store ≡ s) ⊎ (r.store ≡ others s)

  append_keeps :
      (p : Prepared) (s : Session) (o : Result OutboxError Outcome)
      → IsKeptOnError s (appended p (others s) o)
  unfolding appended
  append_keeps p s (err x) e h = inr refl
  append_keeps p s (ok out) e h = cc

  prepared_keeps :
      (s : Session) (o : Result OutboxError Prepared)
      → IsKeptOnError s (on_prepared u t crash others s o)
  unfolding on_prepared
  prepared_keeps s (err x) e h = inl refl
  prepared_keeps s (ok p) e h =
      append_keeps p s
        (append_in_txn u t (raws_of p.events) ((p.key, p.entity) ∷ []) crash (others s)) e h

  read_by :
      (kind entity_id : String) (s r : Session) (current : Option Entity)
      → get_entity u kind entity_id s ≡ ok (r, current)
      → reload u false s ≡ ok r
  unfolding get_entity
  read_by kind entity_id s r current g =
      let (r', e, f) = >>=-eq-ok (reload u false s) _ g in
      e ∙ ap ok (ap (λ z. z.0) (ok_injective _ _ f))

  entity_keeps :
      (a : Target) (s : Session) (o : Result OutboxError (Session × Option Entity))
      (e : OutboxError)
      → get_entity u a.kind a.entity_id s ≡ o
      → (on_entity u t q crash others a s o).answer ≡ err e
      → IsUntouched others s (on_entity u t q crash others a s o).store
  unfolding on_entity
  entity_keeps a s (err x) e g h = (s, (λ v m. refl, inl refl))
  entity_keeps a s (ok (r, current)) e g h = (
    r,
    (
      seen-reload u false s r (read_by a.kind a.entity_id s r current g),
      prepared_keeps r (prepare t q a current) e h,
    ),
  )

  target_keeps :
      (s : Session) (o : Result OutboxError Target) (e : OutboxError)
      → (on_target u t q crash others s o).answer ≡ err e
      → IsUntouched others s (on_target u t q crash others s o).store
  unfolding on_target
  target_keeps s (err x) e h = (s, (λ v m. refl, inl refl))
  target_keeps s (ok a) e h = entity_keeps a s (get_entity u a.kind a.entity_id s) e refl h

  -- A transition that is refused, whatever the reason, writes nothing: a process that opens the files
  -- afterwards finds the entities and rows that it would have found before, or what others made of
  -- them between the call's reading of the entity and its transaction.
  pub refused_writes_nothing :
      (s : Session) (e : OutboxError)
      → (commit_transition u t q crash others s).answer ≡ err e
      → IsUntouched others s (commit_transition u t q crash others s).store
  unfolding commit_transition
  refused_writes_nothing s e h = target_keeps s (target q) e h
