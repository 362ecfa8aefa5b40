-- ===== src/Outbox/Inbox/Once.antt =====
-- What the receiver does with an event that is delivered again.
use teleagent_collab.Common.{
  ◌≡◌, refl, subst, ◌⊎◌, inl, inr, true, ◌&&◌, ◌||◌, List, [], ◌∷◌, ◌++◌, String, string_eq,
  contains, strip, non_empty, str_or, Result, ok, ◌>>=◌, ok_injective, >>=-eq-ok, arith, Bool-cases,
  ◌==◌,
}
use teleagent_collab.Outbox.{OutboxError, Event, delivery_key_of}
use teleagent_collab.Outbox.Store.{File, missing, unreadable, file}
use teleagent_collab.Outbox.Inbox.{
  Inbox, Receipt, duplicate, accepted, load, add_new, knows, admit, received, receive,
}

-- The deliveries of a list, one after the other.
unfoldable pub receive_all : List (Event × String) → File Inbox → Result OutboxError (File Inbox)
receive_all [] f = ok f
receive_all ((ev, key) ∷ ds) f = receive ev key f >>= λ r. receive_all ds r.0

contains-append :
    (xs ys : List String) (k : String) → contains (xs ++ ys) k ≡ contains xs k || contains ys k
contains-append [] ys k = refl
contains-append (x ∷ xs) ys k = ground (arith, contains-append xs ys k)

contains-add_new :
    (j k : String) (ks : List String)
    → contains (add_new k ks) j ≡ ((non_empty k && j == k) || contains ks j)
unfolding add_new
contains-add_new j k ks = ground (arith, contains-append ks (k ∷ []) j)

admit-knows :
    (key eid k e : String) (ev : Event) (i : Inbox)
    → knows key eid i ≡ true
    → knows key eid (admit k e ev i) ≡ true
unfolding admit knows
admit-knows key eid k e ev i h = ground (
  arith,
  contains-add_new key e (add_new k i.keys),
  contains-add_new key k i.keys,
  contains-add_new eid e i.event_ids,
)

admitted_is_known :
    (key eid : String) (ev : Event) (i : Inbox)
    → (non_empty key || non_empty eid) ≡ true
    → knows key eid (admit key eid ev i) ≡ true
unfolding admit knows
admitted_is_known key eid ev i h = ground (
  arith,
  contains-add_new key eid (add_new key i.keys),
  contains-add_new key key i.keys,
  contains-add_new eid eid i.event_ids,
)

-- `f` is a file whose inbox knows the key or the event.
abbrev pub IsKnown : String → String → File Inbox → Type 0
IsKnown key eid f = (i : Inbox) × (load f ≡ ok i) × (knows key eid i ≡ true)

received-IsKnown :
    (key eid k e : String) (ev : Event) (f : File Inbox) (i : Inbox)
    → load f ≡ ok i
    → knows key eid i ≡ true
    → IsKnown key eid (received f k e ev i).0
unfolding received load
received-IsKnown key eid k e ev f i l h = elim (Bool-cases (knows k e i)) [
  | inl q ↦ (i, ground arith, h)
  | inr q ↦ (admit k e ev i, ground arith, admit-knows key eid k e ev i h)
]

-- What `receive` leaves, in the two cases of its first test.
receive_leaves :
    (ev : Event) (dk : String) (f f' : File Inbox) (r : Receipt) (i : Inbox)
    → receive ev dk f ≡ ok (f', r)
    → load f ≡ ok i
    → (f ≡ f') ⊎ ((received f (delivery_key_of ev dk) (strip ev.event_id) ev i).0 ≡ f')
unfolding receive
receive_leaves ev dk f f' r i h l = ground arith

pub receive-IsKnown :
    (key eid : String) (ev : Event) (dk : String) (f f' : File Inbox) (r : Receipt)
    → receive ev dk f ≡ ok (f', r)
    → IsKnown key eid f
    → IsKnown key eid f'
receive-IsKnown key eid ev dk f f' r h (i, l, k) = elim (receive_leaves ev dk f f' r i h l) [
  | inl e ↦ subst (IsKnown key eid) e (i, l, k)
  | inr e ↦
      subst (IsKnown key eid) e
        (received-IsKnown key eid (delivery_key_of ev dk) (strip ev.event_id) ev f i l k)
]

receive_all-IsKnown :
    (key eid : String) (ds : List (Event × String)) (f f' : File Inbox)
    → receive_all ds f ≡ ok f'
    → IsKnown key eid f
    → IsKnown key eid f'
unfolding receive_all
receive_all-IsKnown key eid [] f f' h k = subst (IsKnown key eid) (ok_injective f f' h) k
receive_all-IsKnown key eid ((ev, dk) ∷ ds) f f' h k =
    let ((g, r), q, rest) = >>=-eq-ok (receive ev dk f) (λ r. receive_all ds r.0) h in
    receive_all-IsKnown key eid ds g f' rest (receive-IsKnown key eid ev dk f g r q k)

-- Where a delivery is accepted, what the file held is what is admitted to.
accepted_into :
    (ev : Event) (dk : String) (f f' : File Inbox) (a b : String)
    → receive ev dk f ≡ ok (f', accepted a b)
    → (let key = delivery_key_of ev dk in
        let eid = strip ev.event_id in
        (i : Inbox) × ((non_empty key || non_empty eid) ≡ true) × (file (admit key eid ev i) ≡ f'))
unfolding receive received load
accepted_into ev dk missing f' a b h =
    (record { keys = []; event_ids = []; events = [] }, ground arith, ground arith)
accepted_into ev dk (unreadable e) f' a b h = ground arith
accepted_into ev dk (file i) f' a b h = (i, ground arith, ground arith)

accepted-IsKnown :
    (ev : Event) (dk : String) (f f' : File Inbox) (a b : String)
    → receive ev dk f ≡ ok (f', accepted a b)
    → IsKnown (delivery_key_of ev dk) (strip ev.event_id) f'
unfolding load
accepted-IsKnown ev dk f f' a b h =
    let key = delivery_key_of ev dk in
    let eid = strip ev.event_id in
    let (i, p, e) = accepted_into ev dk f f' a b h in
    subst (IsKnown key eid) e (admit key eid ev i, refl, admitted_is_known key eid ev i p)

IsKnown-is_duplicate :
    (ev : Event) (dk : String) (f : File Inbox)
    → (let key = delivery_key_of ev dk in
        let eid = strip ev.event_id in
        IsKnown key eid f → receive ev dk f ≡ ok (f, duplicate (str_or key eid) eid))
unfolding receive received knows
IsKnown-is_duplicate ev dk f (i, l, k) = ground arith

-- A delivery that was accepted once is a duplicate ever after, whatever is delivered in between: the
-- file stays as it is, and the event is not appended again.
pub accepted_once :
    (ev : Event) (dk : String) (ds : List (Event × String)) (f f₁ f₂ : File Inbox) (a b : String)
    → receive ev dk f ≡ ok (f₁, accepted a b)
    → receive_all ds f₁ ≡ ok f₂
    → (let key = delivery_key_of ev dk in
        let eid = strip ev.event_id in receive ev dk f₂ ≡ ok (f₂, duplicate (str_or key eid) eid))
accepted_once ev dk ds f f₁ f₂ a b h rest = IsKnown-is_duplicate ev dk f₂ (
    receive_all-IsKnown (delivery_key_of ev dk) (strip ev.event_id) ds f₁ f₂ rest
      (accepted-IsKnown ev dk f f₁ a b h))

IsKnown-after :
    (key eid : String) (ev : Event) (f : File Inbox) (i : Inbox)
    → load f ≡ ok i
    → (non_empty key || non_empty eid) ≡ true
    → IsKnown key eid (received f key eid ev i).0
unfolding received load
IsKnown-after key eid ev f i l p = elim (Bool-cases (knows key eid i)) [
  | inl q ↦ (i, ground arith, q)
  | inr q ↦ (admit key eid ev i, ground arith, admitted_is_known key eid ev i p)
]

receive_reads :
    (ev : Event) (dk : String) (f f' : File Inbox) (r : Receipt)
    → receive ev dk f ≡ ok (f', r)
    → (let key = delivery_key_of ev dk in
        let eid = strip ev.event_id in
        (non_empty key || non_empty eid) ≡ true
        → (i : Inbox) × (load f ≡ ok i) × ((received f key eid ev i).0 ≡ f'))
unfolding receive load
receive_reads ev dk missing f' r h p =
    (record { keys = []; event_ids = []; events = [] }, refl, ground arith)
receive_reads ev dk (unreadable e) f' r h p = ground arith
receive_reads ev dk (file i) f' r h p = (i, refl, ground arith)

-- A delivery with a key or an id that does not raise leaves the event known.
pub receive_makes-IsKnown :
    (ev : Event) (dk : String) (f f' : File Inbox) (r : Receipt)
    → receive ev dk f ≡ ok (f', r)
    → (let key = delivery_key_of ev dk in
        let eid = strip ev.event_id in (non_empty key || non_empty eid) ≡ true → IsKnown key eid f')
receive_makes-IsKnown ev dk f f' r h p =
    let key = delivery_key_of ev dk in
    let eid = strip ev.event_id in
    let (i, l, e) = receive_reads ev dk f f' r h p in
    subst (IsKnown key eid) e (IsKnown-after key eid ev f i l p)
