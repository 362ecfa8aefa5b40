-- ===== src/TaskDeps.antt =====
-- framework/task_deps.py: the dependencies of a task, and which of them are unsatisfied.
mod Indexed
pub mod Satisfied
pub mod Unsatisfied
mod Tests
use Prim.Native.Char.{Char, code}
use Prim.Native.String.{String, [], ◌∷◌}
use native.Mathlib.Decide.{ℕ_discrete}
use text.Mathlib.Text.{starts_with}
use teleagent_collab.Common.{
  ℕ, Bool, true, false, not, ◌&&◌, ◌||◌, Option, none, some, List, [], ◌∷◌, ◌++◌, Dict, string_eq,
  nat_eq, lookup, insert, contains, any, strip, lower, non_empty, str_or, append, ◌==◌,
  if◌then◌else◌,
}

pub data DepKind : Type 0 where
  task charter artifact : DepKind

pub record DepRef : Type 0 where
  pub kind : DepKind
  pub value : String
  pub raw : String

unfoldable pub as_str : DepRef → String
as_str r = elim r.kind [
  | charter ↦ r.value
  | task ↦ append "task:" r.value
  | artifact ↦ append "artifact:" r.value
]

-- An entry of `depends_on`: none, a reference, a mapping (an absent key has no entry), a text.
pub data Item : Type 0 where
  absent : Item
  reference : DepRef → Item
  mapping : Dict String String → Item
  entry : String → Item

-- The keys of a mapping, in the order in which they are tried.
abbrev key_kinds : List (String × DepKind)
key_kinds =
    ("artifact", artifact)
    ∷ ("task", task)
    ∷ ("task_id", task)
    ∷ ("charter", charter)
    ∷ ("job", charter)
    ∷ ("name", charter)
    ∷ []

abbrev kind_name : DepKind → String
kind_name task = "task"
kind_name charter = "charter"
kind_name artifact = "artifact"

value_of : Option String → String
value_of none = ""
value_of (some s) = strip s

ref_of_mapping : Dict String String → List (String × DepKind) → Option DepRef
unfolding value_of
ref_of_mapping item [] = none
ref_of_mapping item ((key, kind) ∷ rest) =
    let later = ref_of_mapping item rest in
    let v = value_of (lookup key item) in
    if non_empty v
    then some (record { kind = kind; value = v; raw = append (kind_name kind) (append ":" v) })
    else later

-- `s.split(":", 1)[1]`, for a text with a colon
after_colon : String → String
unfolding ℕ_discrete
after_colon [] = []
after_colon (c ∷ s) = let rest = after_colon s in if code c == 58 then s else rest

-- `"/" in s or "\\" in s`
has_slash : String → Bool
unfolding ℕ_discrete
has_slash [] = false
has_slash (c ∷ s) = code c == 47 || (code c == 92 || has_slash s)

-- `has_suffix` is `bool(Path(raw).suffix)`.
ref_of_text : (has_suffix : String → Bool) → String → DepRef
unfolding after_colon has_slash
ref_of_text has_suffix raw =
    let low = lower raw in
    let tail = strip (after_colon raw) in
    if starts_with low "artifact:"
    then record { kind = artifact; value = tail; raw = raw }
    else if starts_with low "task:"
    then record { kind = task; value = tail; raw = raw }
    else if starts_with low "charter:" || starts_with low "job:"
    then record { kind = charter; value = tail; raw = raw }
    else if starts_with raw "task_"
    then record { kind = task; value = raw; raw = raw }
    else if has_slash raw || has_suffix raw
    then record { kind = artifact; value = raw; raw = raw }
    else record { kind = charter; value = raw; raw = raw }

unfoldable pub parse_one_dep : (String → Bool) → Item → Option DepRef
unfolding ref_of_mapping ref_of_text
parse_one_dep has_suffix absent = none
parse_one_dep has_suffix (reference r) = some r
parse_one_dep has_suffix (mapping m) = ref_of_mapping m key_kinds
parse_one_dep has_suffix (entry s) =
    if non_empty (strip s) then some (ref_of_text has_suffix (strip s)) else none

-- One turn of the loop of `parse_depends_on`; the references so far are kept in reverse.
add_ref : Option DepRef → List String × List DepRef → List String × List DepRef
add_ref none acc = acc
add_ref (some r) (seen, out) =
    if contains seen (as_str r) then (seen, out) else (as_str r ∷ seen, out ++ r ∷ [])

parse_from : (String → Bool) → List Item → List String × List DepRef → List DepRef
unfolding add_ref
parse_from has_suffix [] (seen, out) = out
parse_from has_suffix (item ∷ items) acc =
    parse_from has_suffix items (add_ref (parse_one_dep has_suffix item) acc)

-- `parse_depends_on` of a list; a single entry is a list of one, anything else is no entry.
unfoldable pub parse_depends_on : (String → Bool) → List Item → List DepRef
unfolding parse_from
parse_depends_on has_suffix items = parse_from has_suffix items ([], [])

-- `depends_on_strings`
unfoldable pub strings_of : List DepRef → List String
strings_of [] = []
strings_of (r ∷ rs) = as_str r ∷ strings_of rs

-- What a completed job is recorded with: True, a value that counts as false, a mapping with the
-- test `ok is True`, `state or task_state`, and the names it can be found by, or something else.
pub data Completed : Type 0 where
  true_value false_value other_value : Completed
  result : (is_ok : Bool) → (state : String) → (names : List String) → Completed

unfoldable pub result_succeeded : Completed → Bool
result_succeeded true_value = true
result_succeeded false_value = false
result_succeeded other_value = false
result_succeeded (result is_ok state names) =
    if is_ok
    then true
    else contains ("ok" ∷ "succeeded" ∷ "done" ∷ "success" ∷ []) (lower (strip state))

unfoldable pub put_name : Completed → String → Dict String Completed → Dict String Completed
put_name v name idx =
    let key = strip name in if non_empty key then insert (lower key) v (insert key v idx) else idx

unfoldable pub put_names : Completed → List String → Dict String Completed → Dict String Completed
unfolding put_name
put_names v [] idx = idx
put_names v (name ∷ names) idx = put_names v names (put_name v name idx)

abbrev pub names_of : Completed → List String
names_of (result is_ok state names) = names
names_of _ = []

unfoldable pub index_from : Dict String Completed → Dict String Completed → Dict String Completed
unfolding put_names
index_from idx [] = idx
index_from idx ((k, v) ∷ rest) = index_from (put_names v (k ∷ names_of v) idx) rest

-- `_index_completed`; None and {} give {}.
unfoldable pub index_completed : Option (Dict String Completed) → Dict String Completed
unfolding index_from
index_completed none = []
index_completed (some completed) = index_from [] completed

-- `idx.get(a) or idx.get(b)`
unfoldable pub hit_of : Dict String Completed → String → Option Completed
hit_of idx value = elim (lookup value idx) [
  | none ↦ lookup (lower value) idx
  | some false_value ↦ lookup (lower value) idx
  | some v ↦ some v
]

unfoldable pub hit_succeeded : Option Completed → Bool
hit_succeeded none = false
hit_succeeded (some v) = result_succeeded v

module _ (has_suffix : String → Bool) (is_absolute_file : String → Bool)
    (is_in_root : String → String → Bool) (roots : List String)
    (completed : Option (Dict String Completed)) (enforce_named_deps : Option Bool) where
  -- `is_in_root root v`: `root / v` or `root / Path(v).name` is a file. `roots` is the working
  -- directory, where there is one, with the other roots.
  unfoldable pub artifact_found : String → Bool
  artifact_found value = is_absolute_file value || any (λ root. is_in_root root value) roots

  unfoldable pub named : Bool
  named = elim enforce_named_deps [
    | some b ↦ b
    | none ↦ elim completed [ none ↦ false | some _ ↦ true ]
  ]

  unfoldable pub is_missing : DepKind → String → Bool
  unfolding artifact_found hit_of hit_succeeded
  is_missing artifact v = not (artifact_found v)
  is_missing task v = named && not (hit_succeeded (hit_of (index_completed completed) v))
  is_missing charter v = named && not (hit_succeeded (hit_of (index_completed completed) v))

  missing_of : List DepRef → List String
  missing_of [] = []
  missing_of (r ∷ rs) =
      let rest = missing_of rs in if is_missing r.kind r.value then as_str r ∷ rest else rest

  unfoldable pub unsatisfied_deps : List Item → List String
  unfolding missing_of
  unsatisfied_deps items = missing_of (parse_depends_on has_suffix items)
