-- ===== src/Outbox/Store/Rows.antt =====
-- Writing rows and reading them back.
use mathlib.Core.List.{Memᴰ, append-nil, append_assoc}
use teleagent_collab.Common.{
  ◌≡◌, refl, sym, ap, ◌∙◌, Option, none, some, List, [], ◌∷◌, ◌++◌, String, string_eq, str_or,
  str_or_idem, arith, ◌==◌, if◌then◌else◌,
}
use teleagent_collab.Outbox.Store.{Row, reread, put, taken_in, find, load_from, load_rows}
use teleagent_collab.Outbox.Store.Commit.{put_all}

-- Each row is as a restart would read it, and no two have the same id.
abbrev pub IsClean : List Row → Type 0
IsClean [] = Unit
IsClean (r ∷ rs) = (reread r ≡ some r) × (find r.outbox_id rs ≡ none) × IsClean rs

reread_again : (r q : Row) → reread r ≡ some q → reread q ≡ some q
unfolding reread
reread_again r q h = grind (
  arith,
  str_or_idem r.event_id r.event.event_id,
  str_or_idem r.status "pending",
  str_or_idem r.delivery_key (str_or r.event.dedupe_key r.event.event_id),
)

find-put :
    (oid : String) (r : Row) (rs : List Row)
    → find oid (put r rs) ≡ (if oid == r.outbox_id then some r else find oid rs)
unfolding find put
find-put oid r [] = refl
find-put oid r (q ∷ rs) = ground (arith, find-put oid r rs)

pub put-IsClean : (r : Row) (rs : List Row) → reread r ≡ some r → IsClean rs → IsClean (put r rs)
unfolding put find
put-IsClean r [] h c = (h, refl, tt)
put-IsClean r (q ∷ rs) h (e, fresh, c) =
    ground (arith, put-IsClean r rs h c, find-put q.outbox_id r rs)

taken_in-IsClean :
    (acc : List Row) (raw : Row) (o : Option Row)
    → reread raw ≡ o
    → IsClean acc
    → IsClean (taken_in acc o)
unfolding taken_in
taken_in-IsClean acc raw none h c = c
taken_in-IsClean acc raw (some r) h c = put-IsClean r acc (reread_again raw r h) c

load_from-IsClean : (acc raws : List Row) → IsClean acc → IsClean (load_from acc raws)
unfolding load_from taken_in
load_from-IsClean acc [] c = c
load_from-IsClean acc (raw ∷ raws) c =
    load_from-IsClean (taken_in acc (reread raw)) raws
      (taken_in-IsClean acc raw (reread raw) refl c)

abbrev AllNew : List Row → List Row → Type 0
AllNew acc [] = Unit
AllNew acc (r ∷ rs) = (find r.outbox_id acc ≡ none) × AllNew acc rs

put_new : (r : Row) (acc : List Row) → find r.outbox_id acc ≡ none → put r acc ≡ acc ++ r ∷ []
unfolding put find
put_new r [] h = refl
put_new r (q ∷ acc) h = ground (arith, put_new r acc)

AllNew-put :
    (r : Row) (acc rs : List Row)
    → find r.outbox_id rs ≡ none
    → AllNew acc rs
    → AllNew (put r acc) rs
unfolding find
AllNew-put r acc [] h a = tt
AllNew-put r acc (q ∷ rs) h (e, a) = ground (arith, find-put q.outbox_id r acc, AllNew-put r acc rs)

load_clean : (acc rs : List Row) → IsClean rs → AllNew acc rs → load_from acc rs ≡ acc ++ rs
unfolding load_from taken_in
load_clean acc [] c a = sym (append-nil acc)
load_clean acc (r ∷ rs) (e, fresh, c) (new, a) =
    ap (λ o. load_from (taken_in acc o) rs) e
    ∙ load_clean (put r acc) rs c (AllNew-put r acc rs fresh a)
    ∙ ap (λ z. z ++ rs) (put_new r acc new)
    ∙ append_assoc acc (r ∷ []) rs

AllNew-nil : (rs : List Row) → AllNew [] rs
unfolding find
AllNew-nil [] = tt
AllNew-nil (r ∷ rs) = (refl, AllNew-nil rs)

pub load_rows-IsClean : (raws : List Row) → IsClean (load_rows raws)
unfolding load_rows
load_rows-IsClean raws = load_from-IsClean [] raws tt

-- Clean rows are read back as they were written.
pub load_rows_clean : (rs : List Row) → IsClean rs → load_rows rs ≡ rs
unfolding load_rows
load_rows_clean rs c = load_clean [] rs c (AllNew-nil rs)

pub load_rows-load_rows : (raws : List Row) → load_rows (load_rows raws) ≡ load_rows raws
load_rows-load_rows raws = load_rows_clean (load_rows raws) (load_rows-IsClean raws)

-- Every row that is added is as a restart would read it.
abbrev pub AllReread : List Row → Type 0
AllReread [] = Unit
AllReread (r ∷ rs) = (reread r ≡ some r) × AllReread rs

pub put_all-IsClean : (new rs : List Row) → AllReread new → IsClean rs → IsClean (put_all new rs)
unfolding put_all
put_all-IsClean [] rs h c = c
put_all-IsClean (r ∷ new) rs (e, h) c = put_all-IsClean new (put r rs) h (put-IsClean r rs e c)

find-put_all-none :
    (oid : String) (new rs : List Row)
    → find oid new ≡ none
    → find oid (put_all new rs) ≡ find oid rs
unfolding put_all find
find-put_all-none oid [] rs h = refl
find-put_all-none oid (q ∷ new) rs h =
    ground (arith, find-put_all-none oid new (put q rs), find-put oid q rs)

pub AllReread-IsClean : (rs : List Row) → IsClean rs → AllReread rs
AllReread-IsClean [] c = tt
AllReread-IsClean (r ∷ rs) (e, _, c) = (e, AllReread-IsClean rs c)

-- Each of the new rows is found under its id.
pub find-put_all :
    (r : Row) (new rs : List Row)
    → IsClean new
    → Memᴰ r new
    → find r.outbox_id (put_all new rs) ≡ some r
unfolding put_all find
find-put_all r [] rs c i = elim i [ ]
find-put_all r (q ∷ new) rs (_, fresh, c) (Memᴰ.head e) =
    grind (arith, find-put_all-none r.outbox_id new (put q rs), find-put r.outbox_id q rs)
find-put_all r (q ∷ new) rs (_, fresh, c) (Memᴰ.tail i) = find-put_all r new (put q rs) c i
