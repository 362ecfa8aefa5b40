-- ===== src/Ownership/Json.antt =====
-- The JSON documents of framework/goal_ownership.py and framework/delegation.py: values, `dict.get`,
-- truth, `str` and the lists of texts. What `float`, `int` and `str` make of a value that is not a
-- text are parameters.
use teleagent_collab.Common.{
  ℕ, Bool, Option, none, some, List, [], ◌∷◌, not, true, false, String, Dict, string_eq, nat_eq,
  ℕ_discrete, lookup, insert, strip, keep, map, non_empty, ◌==◌, if◌then◌else◌,
}

-- A number, as its text writes it: `digits` over `10 ^ scale`, or that below zero
pub record Number : Type 0 where
  pub below_zero : Bool
  pub digits : ℕ
  pub scale : ℕ

mutual
  pub data Json : Type 0 where
    null : Json
    boolean : Bool → Json
    number : Number → Json
    text : String → Json
    array : Items → Json
    object : Fields → Json

  pub data Items : Type 0 where
    no_items : Items
    item : Json → Items → Items

  pub data Fields : Type 0 where
    no_fields : Fields
    field : String → Json → Fields → Fields

abbrev pub Document : Type 0
Document = Dict String Json

unfoldable pub items_of : Items → List Json
items_of no_items = []
items_of (item j r) = j ∷ items_of r

unfoldable pub entries_of : Fields → Document
entries_of no_fields = []
entries_of (field k j r) = (k, j) ∷ entries_of r

unfoldable pub fields_of : Document → Fields
fields_of [] = no_fields
fields_of ((k, j) ∷ d) = field k j (fields_of d)

-- What the language makes of a value: `str(x)` of one that is not a text, whether `float(x)` and
-- `int(x)` return, and the order of what they return.
pub record Python : Type 0 where
  pub repr : Json → String
  pub is_float : Json → Bool
  pub float_exceeds : Json → Json → Bool
  pub is_int : Json → Bool
  pub int_exceeds : Json → Json → Bool

-- `bool(x)`
unfoldable pub truthy : Json → Bool
unfolding ℕ_discrete
truthy null = false
truthy (boolean b) = b
truthy (number n) = not (n.digits == 0)
truthy (text s) = non_empty s
truthy (array no_items) = false
truthy (array (item _ _)) = true
truthy (object no_fields) = false
truthy (object (field _ _ _)) = true

-- `k in d`
abbrev pub has_key : String → Document → Bool
has_key k d = elim (lookup k d) [ none ↦ false | some _ ↦ true ]

-- `x if isinstance(x, Mapping) else None` for `d.get(k)`
abbrev pub mapping : Json → Option Document
mapping (object fs) = some (entries_of fs)
mapping _ = none

unfoldable pub get_mapping : String → Document → Option Document
get_mapping k d = elim (lookup k d) [ none ↦ none | some j ↦ mapping j ]

abbrev pub or_empty : Option Document → Document
or_empty none = []
or_empty (some d) = d

-- `d.get("tasks") if isinstance(d.get("tasks"), list) else []`
abbrev pub get_list : Json → Option (List Json)
get_list (array xs) = some (items_of xs)
get_list _ = none

-- `a.get(k) or rest`
abbrev pub truthy_or : Option Json → Option Json → Option Json
truthy_or none rest = rest
truthy_or (some j) rest = if truthy j then some j else rest

-- `str(x)`
abbrev pub str_of : Python → Json → String
str_of py (text s) = s
str_of py j = py.repr j

module _ (py : Python) where
  -- `str(x or default)`
  abbrev pub str_or_default : Option Json → String → String
  str_or_default none default = default
  str_or_default (some j) default = if truthy j then str_of py j else default

  unfoldable pub as_str_list : Option Json → List String
  as_str_list none = []
  as_str_list (some null) = []
  as_str_list (some (text s)) = if non_empty (strip s) then s ∷ [] else []
  as_str_list (some (array xs)) = keep (λ s. non_empty (strip s)) (map (str_of py) (items_of xs))
  as_str_list (some _) = []

  unfoldable pub task_id_of : Document → String
  task_id_of task = strip (str_or_default (lookup "task_id" task) "")

  -- `_tasks_by_id`: the last of two tasks with one id stays, at the place of the first.
  unfoldable pub add_tasks : List Json → Dict String Document → Dict String Document
  unfolding task_id_of
  add_tasks [] out = out
  add_tasks (j ∷ js) out = add_tasks js (elim (mapping j) [
    | none ↦ out
    | some task ↦ let tid = task_id_of task in if non_empty tid then insert tid task out else out
  ])

  unfoldable pub tasks_by_id : Document → Dict String Document
  unfolding add_tasks
  tasks_by_id plan = elim (lookup "tasks" plan) [
    | none ↦ []
    | some j ↦ elim (get_list j) [ none ↦ [] | some js ↦ add_tasks js [] ]
  ]
