-- ===== src/Outbox/Transit/Legal.antt =====
-- Which transitions are committed.
use teleagent_collab.Common.{
  ◌≡◌, refl, sym, subst, ap, ◌∙◌, ◌⊎◌, Bool, true, Option, none, some, String, string_eq, non_empty,
  Result, ok, err, ok_injective, arith,
}
use teleagent_collab.Lifecycle.{LifecycleError, assert_transition}
use teleagent_collab.Outbox.{entity_key}
use teleagent_collab.Outbox.Store.{Entity, Session, get_entity}
use teleagent_collab.Outbox.Store.Commit.{CrashPoint, Txn, Outcome}
use teleagent_collab.Outbox.Transit.Answers.{prepare_gives, committed_from}
use teleagent_collab.Outbox.Transit.{
  Request, Target, Prepared, target, prepare, commit_transition, birth_or_transition, lifecycle,
  previous_of, text_or_empty,
}

-- The state stays, or the tables have the edge.
abbrev pub IsStep : String → String → String → Type 0
IsStep kind src dst = (src ≡ dst) ⊎ (assert_transition kind src dst ≡ ok tt)

lifecycle_ok : (o : Result LifecycleError (Unit {0})) → lifecycle o ≡ ok tt → o ≡ ok tt
unfolding lifecycle
lifecycle_ok (ok tt) h = refl
lifecycle_ok (err e) h = cc

birth-IsStep :
    (kind src dst : String)
    → non_empty src ≡ true
    → birth_or_transition kind src dst ≡ ok tt
    → IsStep kind src dst
unfolding birth_or_transition
birth-IsStep kind src dst n h = ground (arith, lifecycle_ok (assert_transition kind src dst))

previous_in_store :
    (e : Entity) (status dst : String)
    → non_empty e.state ≡ true
    → previous_of none (some e) status dst ≡ some e.state
unfolding previous_of
previous_in_store e status dst h = ground arith

module _ (u : Bool) (t : Txn) (q : Request) (crash : CrashPoint) (others : Session → Session)
    (e : Entity) (a : Target) where
  abbrev pub IsStepTo : Prepared → Type 0
  IsStepTo p = (entity_key a.kind a.entity_id ≡ p.key) × IsStep a.kind e.state p.entity.state

  prepared_is_step :
      (p : Prepared) (c : Option Entity)
      → c ≡ some e
      → q.from_state ≡ none
      → non_empty e.state ≡ true
      → prepare t q a c ≡ ok p
      → IsStepTo p
  prepared_is_step p c w f n h =
      let (b, g) = prepare_gives t q a c p h in
      let prev =
        ap (λ z. previous_of q.from_state z q.subject.status a.state) w
        ∙ ap (λ z. previous_of z (some e) q.subject.status a.state) f
        ∙ previous_in_store e q.subject.status a.state n in
      (
        sym g.same_key,
        subst (λ z. IsStep a.kind e.state z) (sym g.same_state)
            (birth-IsStep a.kind e.state a.state n
              (subst (λ z. birth_or_transition a.kind (text_or_empty z) a.state ≡ ok tt) prev b)),
      )

  -- A committed transition of an entity that the store has, with a state that is not empty, for a
  -- caller that names no source state, goes to the state that `get_entity` read or follows an edge of
  -- the lifecycle tables from it. What others commit after that reading is not looked at.
  pub committed_is_legal :
      (s r : Session) (p : Prepared) (out : Outcome)
      → target q ≡ ok a
      → get_entity u a.kind a.entity_id s ≡ ok (r, some e)
      → q.from_state ≡ none
      → non_empty e.state ≡ true
      → (commit_transition u t q crash others s).answer ≡ ok (p, out)
      → IsStepTo p
  committed_is_legal s r p out g read f n h =
      let (a', (g', (r', c', read', made))) = committed_from u t q crash others p out s h in
      let same = ok_injective a' a (sym g' ∙ g) in
      prepared_is_step p c'
        (ap (λ z. z.1)
          (ok_injective (r', c') (r, some e)
            (sym read' ∙ ap (λ (z : Target). get_entity u z.kind z.entity_id s) same ∙ read)))
        f n (ap (λ z. prepare t q z c') (sym same) ∙ made)
