-- ===== src/Budget/Store/Recovery.antt =====
-- The books of an account and of its file, across writing and reading back.
use teleagent_collab.Common.{
  ◌≡◌, refl, sym, ap, ◌∙◌, Bool, true, false, List, [], ◌∷◌, string_eq, ok, ok_injective, subst,
}
use teleagent_collab.Budget.{zero_cost, Dimension, wall_dim, GoalBudget, Note, opened_note}
use teleagent_collab.Budget.Balance.{amount, held_sum, IsBalanced}
use teleagent_collab.Budget.Charges.{charged, IsCharged}
use teleagent_collab.Budget.Store.{
  Payload, LedgerFile, missing, incompatible, corrupt, file, load_into, Session, emptied, persist,
  reload_from, reload,
}
use teleagent_collab.Budget.Store.Named.{AllNamed, readable_of_AllNamed}

-- The books of an account: reserved is what is held, consumed is what was charged, ids are not empty.
pub record IsSound (a : GoalBudget) : Type 0 where
  pub balanced : IsBalanced a
  pub charges : IsCharged a
  pub named : AllNamed a.reservations

-- The books of a file, where it holds an account.
pub record IsSoundPayload (p : Payload) : Type 0 where
  pub balanced : (d : Dimension) → amount d p.reserved ≡ held_sum d p.reservations
  pub charges : (d : Dimension) → amount d p.consumed ≡ charged d p.ledger
  pub named : AllNamed p.reservations

abbrev pub IsSoundFile : LedgerFile → Type 0
IsSoundFile (file p) = IsSoundPayload p
IsSoundFile missing = Unit
IsSoundFile incompatible = Unit
IsSoundFile corrupt = Unit

pub persist-IsSound : (a : GoalBudget) → IsSound a → IsSoundFile (persist a).disk
unfolding persist
persist-IsSound a s = record { balanced = s.balanced; charges = s.charges; named = s.named }

load_into-IsSound : (p : Payload) (a : GoalBudget) → IsSoundPayload p → IsSound (load_into p a)
unfolding load_into
load_into-IsSound p a s =
    let same = readable_of_AllNamed p.reservations s.named in
    record {
      balanced = λ d. s.balanced d ∙ ap (held_sum d) (sym same);
      charges = s.charges;
      named = rw same s.named;
    }

zero_amount : (d : Dimension) → amount d zero_cost ≡ 0
zero_amount wall_dim = refl
zero_amount _ = refl

emptied-IsSound : (ns : List Note) (a : GoalBudget) → IsSound (emptied ns a)
unfolding emptied held_sum charged
emptied-IsSound ns a = record {
  balanced = λ d. zero_amount d;
  charges = λ d. zero_amount d;
  named = tt;
}

abbrev pub BothSound : Session → Type 0
BothSound t = IsSound t.account × IsSoundFile t.disk

reload_from-IsSound :
    (init : Bool) (k : LedgerFile) (a : GoalBudget) (t : Session)
    → IsSoundFile k
    → reload_from init k a ≡ ok t
    → BothSound t
unfolding reload_from persist
reload_from-IsSound true missing a t f h =
    let s = emptied-IsSound (opened_note ∷ []) a in
    subst BothSound (ok_injective _ t h) (s, persist-IsSound _ s)
reload_from-IsSound false missing a t f h =
    subst BothSound (ok_injective _ t h) (emptied-IsSound [] a, tt)
reload_from-IsSound true incompatible a t f h = cc
reload_from-IsSound false incompatible a t f h = cc
reload_from-IsSound true corrupt a t f h = cc
reload_from-IsSound false corrupt a t f h = cc
reload_from-IsSound true (file p) a t f h =
    subst BothSound (ok_injective _ t h) (load_into-IsSound p a f, f)
reload_from-IsSound false (file p) a t f h =
    subst BothSound (ok_injective _ t h) (load_into-IsSound p a f, f)

pub reload-IsSound :
    (init : Bool) (s t : Session) → IsSoundFile s.disk → reload init s ≡ ok t → BothSound t
unfolding reload
reload-IsSound init s t f h = reload_from-IsSound init s.disk s.account t f h
