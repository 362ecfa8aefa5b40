-- ===== src/Concurrency/Progress.antt =====
-- When a goal has nothing left to wait for.
use mathlib.Core.List.{Memᴰ}
use teleagent_collab.Common.{
  ◌≡◌, refl, true, false, none, List, [], ◌∷◌, String, Dict, string_eq, lookup, contains, any, all,
  arith,
}
use teleagent_collab.Concurrency.{
  Task, in_flight, deps_of, status_map, has_status, task_is_ready, dead_dep,
  task_waiting_on_live_dep, makes_progress, goal_has_progress,
}

-- A queued task that is stopped for good: a dependency of it failed or was cancelled.
abbrev pub IsStuck : Dict String String → Task → Type 0
IsStuck m t =
    (contains in_flight t.status ≡ false)
    × (t.status ≡ "queued" → any (dead_dep m) (deps_of t.depends_on) ≡ true)

abbrev pub AllTasks : (Task → Type 0) → List Task → Type 0
AllTasks P [] = Unit
AllTasks P (t ∷ ts) = P t × AllTasks P ts

no_dep_ready :
    (m : Dict String String) (deps : List String)
    → deps ≡ []
    → all (has_status m "succeeded") deps ≡ true
unfolding all
no_dep_ready m [] h = refl
no_dep_ready m (d ∷ ds) h = cc

IsStuck-of_no_progress :
    (m : Dict String String) (t : Task) → makes_progress m t ≡ false → IsStuck m t
unfolding makes_progress task_is_ready task_waiting_on_live_dep
IsStuck-of_no_progress m t h =
    (ground arith, λ q. ground (arith, no_dep_ready m (deps_of t.depends_on)))

all-IsStuck :
    (m : Dict String String) (ts : List Task)
    → any (makes_progress m) ts ≡ false
    → AllTasks (IsStuck m) ts
unfolding any
all-IsStuck m [] h = tt
all-IsStuck m (t ∷ ts) h =
    (IsStuck-of_no_progress m t (ground arith), all-IsStuck m ts (ground arith))

-- A goal reported without progress has no task in flight, and each queued task of it has a
-- dependency that failed or was cancelled: nothing that could still run is given up.
pub no_progress_is_final :
    (ts : List Task) → goal_has_progress ts ≡ false → AllTasks (IsStuck (status_map ts)) ts
unfolding goal_has_progress
no_progress_is_final ts h = all-IsStuck (status_map ts) ts h

not_all_of_missing :
    (m : Dict String String) (d : String) (deps : List String)
    → Memᴰ d deps
    → lookup d m ≡ none
    → all (has_status m "succeeded") deps ≡ false
unfolding all has_status
not_all_of_missing m d [] i h = elim i [ ]
not_all_of_missing m d (e ∷ ds) (Memᴰ.head q) h = ground arith
not_all_of_missing m d (e ∷ ds) (Memᴰ.tail r) h = ground (arith, not_all_of_missing m d ds r h)

-- A queued task with a dependency that has no row counts as waiting on a live dependency, unless
-- another dependency failed or was cancelled; and it is never ready while the row is missing.
pub missing_dep_is_live :
    (m : Dict String String) (t : Task) (d : String)
    → t.status ≡ "queued"
    → Memᴰ d (deps_of t.depends_on)
    → lookup d m ≡ none
    → any (dead_dep m) (deps_of t.depends_on) ≡ false
    → (task_waiting_on_live_dep t m ≡ true) × (task_is_ready t m ≡ false)
unfolding task_waiting_on_live_dep task_is_ready
missing_dep_is_live m t d q i h a =
    let e = not_all_of_missing m d (deps_of t.depends_on) i h in
    (ground (arith, no_dep_ready m (deps_of t.depends_on)), ground arith)
