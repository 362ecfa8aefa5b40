-- ===== src/Outbox/Transit/Answers.antt =====
-- Where the answer of a committed transition comes from.
use teleagent_collab.Common.{
  ◌≡◌, refl, sym, subst, ap, Bool, Option, none, some, [], ◌∷◌, String, Result, ok, err, >>=-eq-ok,
  ok_injective, raise_unless, non_empty, strip, str_or, ◌⊎◌, inl, inr,
}
use teleagent_collab.Outbox.{OutboxError, entity_key, infer_kind, infer_entity_id}
use teleagent_collab.Outbox.Store.{Entity, Session, get_entity}
use teleagent_collab.Outbox.Store.Commit.{CrashPoint, Txn, Outcome, append_in_txn}
use teleagent_collab.Outbox.Transit.{
  Request, Target, Prepared, target, target_of, prepare, appended, on_prepared, on_entity,
  on_target, commit_transition, raws_of, birth_or_transition, previous_of, text_or_empty,
  events_for, entity_for, change_for,
}

-- The state that a request asks for: the one that it names, or else the one of its subject
abbrev pub IsAskedFor : Request → String → Type 0
IsAskedFor q x =
    ((st : String) × ((q.new_state ≡ some st) × (x ≡ strip st)))
    ⊎ ((q.new_state ≡ none) × (x ≡ strip (str_or q.subject.status q.subject.state)))

target_of-IsAskedFor :
    (q : Request) (o : Option String) → q.new_state ≡ o → IsAskedFor q (target_of o q.subject)
unfolding target_of
target_of-IsAskedFor q none e = inr (e, refl)
target_of-IsAskedFor q (some st) e = inl (st, (e, refl))

pub target-IsAskedFor : (q : Request) (a : Target) → target q ≡ ok a → IsAskedFor q a.state
unfolding target
target-IsAskedFor q a h =
    let (k, _, h1) = >>=-eq-ok (infer_kind q.subject q.kind) _ h in
    let eid = infer_entity_id q.subject k q.entity_id in
    let (_, _, h2) = >>=-eq-ok (raise_unless (non_empty eid) OutboxError.entity_id_required) _ h1 in
    let dst = target_of q.new_state q.subject in
    let (_, _, h3) = >>=-eq-ok (raise_unless (non_empty dst) OutboxError.new_state_required) _ h2 in
    subst (IsAskedFor q) (ap (λ z. z.state) (ok_injective _ a h3))
      (target_of-IsAskedFor q q.new_state refl)

-- What is prepared for a target
pub record IsFor (a : Target) (p : Prepared) : Type 0 where
  pub same_key : p.key ≡ entity_key a.kind a.entity_id
  pub same_kind : p.entity.kind ≡ a.kind
  pub same_id : p.entity.entity_id ≡ a.entity_id
  pub same_state : p.entity.state ≡ a.state

pub prepare_gives :
    (t : Txn) (q : Request) (a : Target) (c : Option Entity) (p : Prepared)
    → prepare t q a c ≡ ok p
    → (birth_or_transition a.kind
          (text_or_empty (previous_of q.from_state c q.subject.status a.state))
          a.state
        ≡ ok tt)
      × IsFor a p
unfolding prepare entity_for
prepare_gives t q a c p h =
    let prev = previous_of q.from_state c q.subject.status a.state in
    let (_, b, h') = >>=-eq-ok (birth_or_transition a.kind (text_or_empty prev) a.state) _ h in
    let (evs, _, h'') = >>=-eq-ok (events_for t (change_for q a prev) q.events) _ h' in
    let same = sym (ok_injective _ p h'') in
    (
      b,
      record {
        same_key = ap (λ z. z.key) same;
        same_kind = ap (λ z. z.entity.kind) same;
        same_id = ap (λ z. z.entity.entity_id) same;
        same_state = ap (λ z. z.entity.state) same;
      },
    )

module _ (u : Bool) (t : Txn) (q : Request) (crash : CrashPoint) (others : Session → Session)
    (p' : Prepared) (out : Outcome) where
  appended_of :
      (p : Prepared) (s : Session) (o : Result OutboxError Outcome)
      → (appended p s o).answer ≡ ok (p', out)
      → p ≡ p'
  unfolding appended
  appended_of p s (err x) h = cc
  appended_of p s (ok y) h = ap (λ z. z.0) (ok_injective (p, y) (p', out) h)

  prepared_of :
      (s : Session) (o : Result OutboxError Prepared)
      → (on_prepared u t crash others s o).answer ≡ ok (p', out)
      → o ≡ ok p'
  unfolding on_prepared
  prepared_of s (err x) h = cc
  prepared_of s (ok p) h = ap ok (
      appended_of p (others s)
        (append_in_txn u t (raws_of p.events) ((p.key, p.entity) ∷ []) crash (others s)) h)

  -- What was prepared was prepared from the entity read.
  abbrev pub IsRead : Target → Session → Type 0
  IsRead a s =
      (r : Session) × (c : Option Entity) × (get_entity u a.kind a.entity_id s ≡ ok (r, c))
      × (prepare t q a c ≡ ok p')

  entity_of :
      (a : Target) (s : Session) (o : Result OutboxError (Session × Option Entity))
      → get_entity u a.kind a.entity_id s ≡ o
      → (on_entity u t q crash others a s o).answer ≡ ok (p', out)
      → IsRead a s
  unfolding on_entity
  entity_of a s (err x) g h = cc
  entity_of a s (ok (r, c)) g h = (r, c, g, prepared_of r (prepare t q a c) h)

  target_gives :
      (s : Session) (o : Result OutboxError Target)
      → target q ≡ o
      → (on_target u t q crash others s o).answer ≡ ok (p', out)
      → (a : Target) × ((target q ≡ ok a) × IsRead a s)
  unfolding on_target
  target_gives s (err x) g h = cc
  target_gives s (ok a) g h = (a, (g, entity_of a s (get_entity u a.kind a.entity_id s) refl h))

  -- The answer of a committed transition was prepared for its target from the entity that was read.
  pub committed_from :
      (s : Session)
      → (commit_transition u t q crash others s).answer ≡ ok (p', out)
      → (a : Target) × ((target q ≡ ok a) × IsRead a s)
  unfolding commit_transition
  committed_from s h = target_gives s (target q) refl h
