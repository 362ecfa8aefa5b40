-- ===== src/TaskDeps/Indexed.antt =====
-- framework/task_deps.py: what the index of completed jobs finds.
use teleagent_collab.Common.{
  ◌≡◌, refl, ◌∙◌, Bool, false, ◌&&◌, ◌||◌, Option, none, some, List, [], ◌∷◌, String, Dict,
  string_eq, lookup, insert, lookup-insert, strip, lower, non_empty, arith, ◌==◌, if◌then◌else◌,
}
use teleagent_collab.TaskDeps.{
  Completed, put_name, put_names, names_of, index_from, index_completed,
}

-- One of the names, without white space and perhaps in lower case, is the key.
abbrev pub answers : String → List String → Bool
answers key [] = false
answers key (n ∷ ns) =
    (non_empty (strip n) && (strip n == key || lower (strip n) == key)) || answers key ns

-- The last of the completed jobs that answers to the key, by its own key or another name
abbrev pub latest : String → Dict String Completed → Option Completed
latest key [] = none
latest key ((k, c) ∷ rest) = elim (latest key rest) [
  | some x ↦ some x
  | none ↦ if answers key (k ∷ names_of c) then some c else none
]

lookup-put_name :
    (key name : String) (c : Completed) (idx : Dict String Completed)
    → lookup key (put_name c name idx) ≡ (
        if non_empty (strip name) && (strip name == key || lower (strip name) == key)
        then some c
        else lookup key idx)
unfolding put_name
lookup-put_name key name c idx = ground (
  arith,
  lookup-insert key (lower (strip name)) c (insert (strip name) c idx),
  lookup-insert key (strip name) c idx,
)

lookup-put_names :
    (key : String) (names : List String) (c : Completed) (idx : Dict String Completed)
    → lookup key (put_names c names idx) ≡ (if answers key names then some c else lookup key idx)
unfolding put_names
lookup-put_names key [] c idx = refl
lookup-put_names key (n ∷ ns) c idx =
    ground (arith, lookup-put_names key ns c (put_name c n idx), lookup-put_name key n c idx)

abbrev or_in : Option Completed → String → Dict String Completed → Option Completed
or_in none key idx = lookup key idx
or_in (some c) key idx = some c

lookup-index_from :
    (key : String) (d idx : Dict String Completed)
    → lookup key (index_from idx d) ≡ or_in (latest key d) key idx
unfolding index_from
lookup-index_from key [] idx = refl
lookup-index_from key ((k, c) ∷ rest) idx = ground (
  arith,
  lookup-index_from key rest (put_names c (k ∷ names_of c) idx),
  lookup-put_names key (k ∷ names_of c) c idx,
)

pub lookup-index_completed :
    (key : String) (d : Dict String Completed)
    → lookup key (index_completed (some d)) ≡ latest key d
unfolding index_completed lookup
lookup-index_completed key d = lookup-index_from key d [] ∙ nothing_before (latest key d)
  where
    nothing_before : (o : Option Completed) → or_in o key [] ≡ o
    nothing_before none = refl
    nothing_before (some c) = refl
