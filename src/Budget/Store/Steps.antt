-- ===== src/Budget/Store/Steps.antt =====
-- The books of the file, whatever account objects work on it, in any order.
use teleagent_collab.Common.{
  ℕ, ◌≡◌, refl, sym, ap, ◌∙◌, Bool, true, false, Option, none, some, String, string_eq, lookup,
  strip, str_or, non_empty, ok, ok_injective, >>=-eq-ok, arith, subst,
}
use teleagent_collab.Budget.{
  BudgetCost, BudgetLimits, zero_cost, Reservation, is_held, GoalBudget, Reconciled, release_entry,
}
use teleagent_collab.Budget.Balance.{
  IsFree, reserve_entry-IsBalanced, reconcile_entry-IsBalanced, release_entry-IsBalanced,
}
use teleagent_collab.Budget.Charges.{
  reserve_entry-IsCharged, reconcile_entry-IsCharged, release_entry-IsCharged,
}
use teleagent_collab.Budget.Store.{
  LedgerFile, missing, incompatible, corrupt, file, Session, emptied, persist, reload_from, reload,
  written, cost_or, reserve, reconcile, release, open_account,
}
use teleagent_collab.Budget.Store.Named.{
  readable_of_AllNamed, reserve_entry-AllNamed, reconcile_entry-AllNamed, release_entry-AllNamed,
}
use teleagent_collab.Budget.Store.Recovery.{
  IsSound, IsSoundFile, BothSound, persist-IsSound, reload-IsSound,
}

-- No held reservation of the file has the id.
abbrev pub IsFreeIn : String → LedgerFile → Type 0
IsFreeIn rid (file p) =
    (r : Reservation) → lookup rid p.reservations ≡ some r → is_held r.status ≡ false
IsFreeIn rid _ = Unit

-- One operation on the file: by the session's account object, or by an object that takes its place,
-- whatever it remembers. A reservation's id is new, as the uuid4 of a run id is.
pub data Step : Session → Session → Type 0 where
  reserves :
      (now : ℕ) (fresh rid task_id run_id : String) (cost : Option BudgetCost) (r : Reservation)
      {s t : Session}
      → non_empty fresh ≡ true
      → IsFreeIn (str_or (strip rid) fresh) s.disk
      → reserve now fresh rid task_id run_id cost s ≡ ok (t, r)
      → Step s t
  reconciles :
      (now : ℕ) (rid : String) (actual : Option BudgetCost) (r : Reconciled) {s t : Session}
      → reconcile now rid actual s ≡ ok (t, r)
      → Step s t
  releases :
      (now : ℕ) (rid : String) (done : Bool) {s t : Session}
      → release now rid s ≡ ok (t, done)
      → Step s t
  other_object : (a : GoalBudget) {s : Session} → Step s (record s { account = a })

pub data Reach (s : Session) : Session → Type 0 where
  here : Reach s s
  next : {t u : Session} → Reach s t → Step t u → Reach s u

non_empty-str_or : (a b : String) → non_empty b ≡ true → non_empty (str_or a b) ≡ true
non_empty-str_or String.[] b h = h
non_empty-str_or (String.◌∷◌ c s) b h = refl

abbrev FreeAfter : String → Session → Type 0
FreeAfter rid t = IsFree rid t.account

reload_from-IsFree :
    (rid : String) (k : LedgerFile) (a : GoalBudget) (t : Session)
    → IsSoundFile k
    → IsFreeIn rid k
    → reload_from false k a ≡ ok t
    → IsFree rid t.account
unfolding reload_from emptied lookup
reload_from-IsFree rid missing a t f n h =
    subst (FreeAfter rid) (ok_injective _ t h) (λ r e. ground arith)
reload_from-IsFree rid incompatible a t f n h = cc
reload_from-IsFree rid corrupt a t f n h = cc
reload_from-IsFree rid (file p) a t f n h =
    subst (FreeAfter rid) (ok_injective _ t h)
      (λ r e. n r (ap (lookup rid) (sym (readable_of_AllNamed p.reservations f.named)) ∙ e))

persisted_sound : (a : GoalBudget) (t : Session) → persist a ≡ t → IsSound a → IsSoundFile t.disk
persisted_sound a t e s = subst (λ u. IsSoundFile u.disk) e (persist-IsSound a s)

reserve-IsSoundFile :
    (now : ℕ) (fresh rid task_id run_id : String) (cost : Option BudgetCost) (r : Reservation)
    (s t : Session)
    → non_empty fresh ≡ true
    → IsFreeIn (str_or (strip rid) fresh) s.disk
    → reserve now fresh rid task_id run_id cost s ≡ ok (t, r)
    → IsSoundFile s.disk
    → IsSoundFile t.disk
unfolding reserve reload
reserve-IsSoundFile now fresh rid task_id run_id cost r s t n free h f =
    let id = str_or (strip rid) fresh in
    let c = cost_or cost (record zero_cost { attempts = 1 }) in
    let (u, hu, e) = >>=-eq-ok (reload false s) _ h in
    let (sound, _) = reload-IsSound false s u f hu in
    let free' = reload_from-IsFree id s.disk s.account u f free hu in
    persisted_sound _ t (ap (λ p. p.0) (ok_injective _ (t, r) e)) (record {
      balanced = reserve_entry-IsBalanced now id task_id run_id c u.account free' sound.balanced;
      charges = reserve_entry-IsCharged now id task_id run_id c u.account sound.charges;
      named =
          reserve_entry-AllNamed now id u.account sound.named task_id run_id c
            (non_empty-str_or (strip rid) fresh n);
    })

reconcile-IsSoundFile :
    (now : ℕ) (rid : String) (actual : Option BudgetCost) (r : Reconciled) (s t : Session)
    → reconcile now rid actual s ≡ ok (t, r)
    → IsSoundFile s.disk
    → IsSoundFile t.disk
unfolding reconcile
reconcile-IsSoundFile now rid actual r s t h f =
    let c = cost_or actual zero_cost in
    let (u, hu, e) = >>=-eq-ok (reload false s) _ h in
    let (sound, _) = reload-IsSound false s u f hu in
    persisted_sound _ t (ap (λ p. p.0) (ok_injective _ (t, r) e)) (record {
      balanced = reconcile_entry-IsBalanced now rid c u.account sound.balanced;
      charges = reconcile_entry-IsCharged now rid c u.account sound.charges;
      named = reconcile_entry-AllNamed now rid u.account sound.named c;
    })

released_sound :
    (now : ℕ) (rid : String) (done : Bool) (u t : Session)
    → BothSound u
    → (o : Option GoalBudget) → release_entry now rid u.account ≡ o
    → written u o ≡ ok (t, done)
    → IsSoundFile t.disk
unfolding written
released_sound now rid done u t (sound, on_disk) none q e =
    subst (λ v. IsSoundFile v.disk) (ap (λ p. p.0) (ok_injective _ (t, done) e)) on_disk
released_sound now rid done u t (sound, on_disk) (some a) q e =
    persisted_sound a t (ap (λ p. p.0) (ok_injective _ (t, done) e)) (record {
      balanced = release_entry-IsBalanced now rid u.account a q sound.balanced;
      charges = release_entry-IsCharged now rid u.account a q sound.charges;
      named = release_entry-AllNamed now rid u.account sound.named a q;
    })

release-IsSoundFile :
    (now : ℕ) (rid : String) (done : Bool) (s t : Session)
    → release now rid s ≡ ok (t, done)
    → IsSoundFile s.disk
    → IsSoundFile t.disk
unfolding release
release-IsSoundFile now rid done s t h f =
    let (u, hu, e) = >>=-eq-ok (reload false s) _ h in
    released_sound now rid done u t (reload-IsSound false s u f hu) _ refl e

pub Step-IsSoundFile : {s t : Session} → Step s t → IsSoundFile s.disk → IsSoundFile t.disk
Step-IsSoundFile {s} {t} (reserves now fresh rid task_id run_id cost r n free h) f =
    reserve-IsSoundFile now fresh rid task_id run_id cost r s t n free h f
Step-IsSoundFile {s} {t} (reconciles now rid actual r h) f =
    reconcile-IsSoundFile now rid actual r s t h f
Step-IsSoundFile {s} {t} (releases now rid done h) f = release-IsSoundFile now rid done s t h f
Step-IsSoundFile (other_object a) f = f

Reach-IsSoundFile : {s t : Session} → IsSoundFile s.disk → Reach s t → IsSoundFile t.disk
Reach-IsSoundFile f here = f
Reach-IsSoundFile f (next r st) = Step-IsSoundFile st (Reach-IsSoundFile f r)

-- From a goal's first opening, after any operations of any account objects on its file, the file's
-- reserved costs are those of its held reservations, and its consumed costs those that the ledger
-- charged. The ids of new reservations are assumed not to be held already.
pub books_sound :
    (now : ℕ) (goal_id : String) (limits : BudgetLimits) (s t : Session)
    → open_account now goal_id limits missing ≡ ok s
    → Reach s t
    → IsSoundFile t.disk
unfolding open_account
books_sound now goal_id limits s t h r = Reach-IsSoundFile (reload-IsSound true _ s tt h).1 r
