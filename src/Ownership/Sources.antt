-- ===== src/Ownership/Sources.antt =====
-- framework/goal_ownership.py: the documents of a plan that may name authorizations.
use mathlib.Core.List.{Memᴰ}
use mathlib.Core.List.Memᴰ
use mathlib.Core.Option.{some-injective}
use teleagent_collab.Common.{
  Option, none, some, List, [], ◌∷◌, ◌++◌, ◌≡◌, refl, ap, ◌∙◌, inl, inr, sym, ◌⊎◌, subst, string_eq,
  lookup,
}
use teleagent_collab.Ownership.Json.{Json, Document, get_mapping, mapping, get_list}
use teleagent_collab.Ownership.Contract.{auth_sources, bounds_and_inputs, task_sources}

-- A mapping, its "boundaries" or its "inputs"
pub data IsPart (src : Document) : Document → Type 0 where
  whole : IsPart src src
  boundaries : {d : Document} → get_mapping "boundaries" src ≡ some d → IsPart src d
  inputs : {d : Document} → get_mapping "inputs" src ≡ some d → IsPart src d

-- Where a plan may name an authorization: in itself, in its "goal" and in each of its tasks
pub data IsSource (plan : Document) : Document → Type 0 where
  of_plan : {d : Document} → IsPart plan d → IsSource plan d
  of_goal :
      {goal d : Document} → get_mapping "goal" plan ≡ some goal → IsPart goal d → IsSource plan d
  of_task :
      {tasks task : Json} {js : List Json} {fields d : Document}
      → lookup "tasks" plan ≡ some tasks
      → get_list tasks ≡ some js
      → Memᴰ task js
      → mapping task ≡ some fields
      → IsPart fields d
      → IsSource plan d

part_cases : (src d : Document) → IsPart src d → (d ≡ src) ⊎ Memᴰ d (bounds_and_inputs src)
unfolding bounds_and_inputs
part_cases src d whole = inl refl
part_cases src d (boundaries e) = inr (rw (bounds_and_inputs, e) (Memᴰ.head refl))
part_cases src d (inputs e) =
    inr (by_inputs (get_mapping "inputs" src) (get_mapping "boundaries" src) e)
  where
    by_inputs :
        (i b : Option Document)
        → i ≡ some d
        → let held : List Document = elim i [ none ↦ [] | some x ↦ x ∷ [] ] in
          Memᴰ d (elim b [ none ↦ held | some x ↦ x ∷ held ])
    by_inputs none b e = cc
    by_inputs (some x) none e = Memᴰ.head (some-injective d x (sym e))
    by_inputs (some x) (some y) e = Memᴰ.tail (Memᴰ.head (some-injective d x (sym e)))

-- A part is among its mapping and what that holds, and stays there when others follow.
part-Mem :
    (src d : Document) (rest : List Document)
    → IsPart src d
    → (d ≡ src) ⊎ Memᴰ d (bounds_and_inputs src ++ rest)
part-Mem src d rest p = elim (part_cases src d p) [
  | inl e ↦ inl e
  | inr m ↦ inr (Memᴰ.append_left rest m)
]

one_of : {d x : Document} {xs : List Document} → (d ≡ x) ⊎ Memᴰ d xs → Memᴰ d (x ∷ xs)
one_of (inl e) = Memᴰ.head e
one_of (inr m) = Memᴰ.tail m

task-Mem :
    (js : List Json) (j : Json) (task d : Document)
    → Memᴰ j js
    → mapping j ≡ some task
    → IsPart task d
    → Memᴰ d (task_sources js)
unfolding task_sources
task-Mem [] j task d i m p = elim i [ ]
task-Mem (x ∷ js) j task d (Memᴰ.head e) m p = by_item (mapping x) (ap mapping (sym e) ∙ m)
  where
    by_item :
        (o : Option Document)
        → o ≡ some task
        → Memᴰ d (elim o [
          | none ↦ task_sources js
          | some t ↦ t ∷ (bounds_and_inputs t ++ task_sources js)
        ])
    by_item none h = cc
    by_item (some t) h =
        subst (λ z. Memᴰ d (z ∷ (bounds_and_inputs z ++ task_sources js)))
          (sym (some-injective t task h)) (one_of (part-Mem task d (task_sources js) p))
task-Mem (x ∷ js) j task d (Memᴰ.tail i) m p = by_item (mapping x) (task-Mem js j task d i m p)
  where
    by_item :
        (o : Option Document)
        → Memᴰ d (task_sources js)
        → Memᴰ d (elim o [
          | none ↦ task_sources js
          | some t ↦ t ∷ (bounds_and_inputs t ++ task_sources js)
        ])
    by_item none k = k
    by_item (some t) k = Memᴰ.tail (Memᴰ.append_right (bounds_and_inputs t) k)

abbrev with_goal : Document → Option Document → List Document → List Document
with_goal plan none tasks = plan ∷ (bounds_and_inputs plan ++ tasks)
with_goal plan (some goal) tasks =
    plan ∷ (goal ∷ (bounds_and_inputs plan ++ (bounds_and_inputs goal ++ tasks)))

abbrev all_tasks : Option Json → List Document
all_tasks none = []
all_tasks (some j) = elim (get_list j) [ none ↦ [] | some js ↦ task_sources js ]

auth_sources-parts :
    (plan : Document)
    → auth_sources plan ≡ with_goal plan (get_mapping "goal" plan) (all_tasks (lookup "tasks" plan))
unfolding auth_sources
auth_sources-parts plan = by_parts (lookup "tasks" plan) (get_mapping "goal" plan)
  where
    by_parts :
        (o : Option Json) (g : Option Document)
        → (let tasks : List Document = elim o [
          | none ↦ []
          | some j ↦ elim (get_list j) [ none ↦ [] | some js ↦ task_sources js ]
        ] in
            elim g [
              | none ↦ plan ∷ (bounds_and_inputs plan ++ tasks)
              | some goal ↦
                  plan ∷ (goal ∷ (bounds_and_inputs plan ++ (bounds_and_inputs goal ++ tasks)))
            ])
          ≡ with_goal plan g (all_tasks o)
    by_parts none none = refl
    by_parts none (some g) = refl
    by_parts (some j) none = refl
    by_parts (some j) (some g) = refl

tasks-Mem :
    (plan d : Document) (g : Option Document) (tasks : List Document)
    → Memᴰ d tasks
    → Memᴰ d (with_goal plan g tasks)
tasks-Mem plan d none tasks m = Memᴰ.tail (Memᴰ.append_right (bounds_and_inputs plan) m)
tasks-Mem plan d (some g) tasks m = Memᴰ.tail (
    Memᴰ.tail
      (Memᴰ.append_right (bounds_and_inputs plan) (Memᴰ.append_right (bounds_and_inputs g) m)))

plan-Mem :
    (plan d : Document) (g : Option Document) (tasks : List Document)
    → IsPart plan d
    → Memᴰ d (with_goal plan g tasks)
plan-Mem plan d none tasks p = one_of (part-Mem plan d tasks p)
plan-Mem plan d (some g) tasks p = elim (part_cases plan d p) [
  | inl e ↦ Memᴰ.head e
  | inr m ↦ Memᴰ.tail (Memᴰ.tail (Memᴰ.append_left (bounds_and_inputs g ++ tasks) m))
]

goal-Mem :
    (plan goal d : Document) (tasks : List Document)
    → IsPart goal d
    → Memᴰ d (with_goal plan (some goal) tasks)
goal-Mem plan goal d tasks p = elim (part-Mem goal d tasks p) [
  | inl e ↦ Memᴰ.tail (Memᴰ.head e)
  | inr m ↦ Memᴰ.tail (Memᴰ.tail (Memᴰ.append_right (bounds_and_inputs plan) m))
]

-- `auth_sources` leaves none of them out.
pub IsSource-Mem : (plan d : Document) → IsSource plan d → Memᴰ d (auth_sources plan)
IsSource-Mem plan d i = subst (Memᴰ d) (sym (auth_sources-parts plan)) (by_place i)
  where
    by_place :
        IsSource plan d
        → Memᴰ d (with_goal plan (get_mapping "goal" plan) (all_tasks (lookup "tasks" plan)))
    by_place (of_plan p) = plan-Mem plan d _ _ p
    by_place (of_goal {goal} g p) = rw g (goal-Mem plan goal d _ p)
    by_place (of_task {task} {js} {fields} t l m f p) =
        tasks-Mem plan d _ _ (rw (t, all_tasks, l) (task-Mem js task fields d m f p))
