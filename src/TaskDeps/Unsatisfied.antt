-- ===== src/TaskDeps/Unsatisfied.antt =====
-- When references are distinct, and when they are satisfied.
use mathlib.Core.List.{Memᴰ}
use teleagent_collab.Common.{
  ◌⊎◌, ◌≡◌, refl, sym, ◌∙◌, ◌↔◌, inl, inr, Bool, true, false, ◌||◌, Option, none, some, List, [],
  ◌∷◌, ◌++◌, String, Dict, string_eq, contains, arith, Bool-cases, ◌==◌,
}
use teleagent_collab.TaskDeps.Satisfied.{
  JobSatisfied, any-Mem, job_missing-JobSatisfied, JobSatisfied-job_missing,
}
use teleagent_collab.TaskDeps.{
  DepKind, task, charter, artifact, DepRef, as_str, Item, parse_one_dep, add_ref, parse_from,
  parse_depends_on, strings_of, Completed, artifact_found, named, is_missing, missing_of,
  unsatisfied_deps,
}

abbrev pub AllDistinct : List String → Type 0
AllDistinct [] = Unit
AllDistinct (s ∷ ss) = (contains ss s ≡ false) × AllDistinct ss

abbrev snoc : List DepRef → DepRef → List DepRef
snoc rs r = rs ++ r ∷ []

contains-snoc :
    (rs : List DepRef) (r : DepRef) (s : String)
    → contains (strings_of (snoc rs r)) s ≡ (contains (strings_of rs) s || s == as_str r)
unfolding strings_of
contains-snoc [] r s = ground arith
contains-snoc (q ∷ rs) r s = ground (arith, contains-snoc rs r s)

snoc-AllDistinct :
    (rs : List DepRef) (r : DepRef)
    → AllDistinct (strings_of rs)
    → contains (strings_of rs) (as_str r) ≡ false
    → AllDistinct (strings_of (snoc rs r))
unfolding strings_of
snoc-AllDistinct [] r d h = (refl, tt)
snoc-AllDistinct (q ∷ rs) r (f, d) h =
    ground (arith, contains-snoc rs r (as_str q), snoc-AllDistinct rs r d)

-- The set of the loop holds the texts of the references so far, which are distinct.
abbrev IsSeenOf : List String × List DepRef → Type 0
IsSeenOf (seen, out) =
    ((s : String) → contains seen s ≡ contains (strings_of out) s) × AllDistinct (strings_of out)

add_ref-IsSeenOf :
    (o : Option DepRef) (acc : List String × List DepRef) → IsSeenOf acc → IsSeenOf (add_ref o acc)
unfolding add_ref
add_ref-IsSeenOf none acc h = h
add_ref-IsSeenOf (some r) (seen, out) (e, d) = elim (Bool-cases (contains seen (as_str r))) [
  | inl q ↦ rw q (e, d)
  | inr q ↦ rw q (
    λ s. ground (arith, contains-snoc out r s, e s),
    snoc-AllDistinct out r d (sym (e (as_str r)) ∙ q),
  )
]

parse_from-AllDistinct :
    (f : String → Bool) (items : List Item) (acc : List String × List DepRef)
    → IsSeenOf acc
    → AllDistinct (strings_of (parse_from f items acc))
unfolding parse_from
parse_from-AllDistinct f [] (seen, out) h = h.1
parse_from-AllDistinct f (item ∷ items) acc h =
    parse_from-AllDistinct f items (add_ref (parse_one_dep f item) acc)
      (add_ref-IsSeenOf (parse_one_dep f item) acc h)

-- The references of `depends_on` are distinct by their texts.
pub parse_depends_on-AllDistinct :
    (f : String → Bool) (items : List Item) → AllDistinct (strings_of (parse_depends_on f items))
unfolding parse_depends_on strings_of
parse_depends_on-AllDistinct f items = parse_from-AllDistinct f items ([], []) (λ s. refl, tt)

module _ (has_suffix : String → Bool) (is_absolute_file : String → Bool)
    (is_in_root : String → String → Bool) (roots : List String)
    (completed : Option (Dict String Completed)) (enforce : Option Bool) where
  -- An artifact is a file by itself or in one of the roots; a job has a recorded success.
  abbrev pub IsSatisfied : DepKind → String → Type 0
  IsSatisfied artifact v =
      (is_absolute_file v ≡ true)
      ⊎ ((root : String) × (Memᴰ root roots × (is_in_root root v ≡ true)))
  IsSatisfied task v = JobSatisfied completed enforce v
  IsSatisfied charter v = JobSatisfied completed enforce v

  abbrev pub AllSatisfied : List DepRef → Type 0
  AllSatisfied [] = Unit
  AllSatisfied (r ∷ rs) = IsSatisfied r.kind r.value × AllSatisfied rs

  abbrev missing_here : DepKind → String → Bool
  missing_here = is_missing has_suffix is_absolute_file is_in_root roots completed enforce

  abbrev missing_all : List DepRef → List String
  missing_all = missing_of has_suffix is_absolute_file is_in_root roots completed enforce

  artifact_found_iff :
      (v : String)
      → (artifact_found has_suffix is_absolute_file is_in_root roots completed enforce v ≡ true)
        ↔ IsSatisfied artifact v
  unfolding artifact_found
  artifact_found_iff v = (
    λ h. elim (Bool-cases (is_absolute_file v)) [
      | inl e ↦ inl e
      | inr n ↦ inr ((any-Mem (λ root. is_in_root root v) roots).0 (ground arith))
    ],
    λ s. elim s [
      | inl e ↦ ground arith
      | inr m ↦ ground (arith, (any-Mem (λ root. is_in_root root v) roots).1 m)
    ],
  )

  not_missing : (k : DepKind) (v : String) → missing_here k v ≡ false → IsSatisfied k v
  unfolding is_missing named
  not_missing artifact v h = (artifact_found_iff v).0 (ground arith)
  not_missing task v h = job_missing-JobSatisfied enforce completed v h
  not_missing charter v h = job_missing-JobSatisfied enforce completed v h

  not_missing_back : (k : DepKind) (v : String) → IsSatisfied k v → missing_here k v ≡ false
  unfolding is_missing named
  not_missing_back artifact v s = ground (arith, (artifact_found_iff v).1 s)
  not_missing_back task v s = JobSatisfied-job_missing enforce completed v s
  not_missing_back charter v s = JobSatisfied-job_missing enforce completed v s

  none_missing : (rs : List DepRef) → missing_all rs ≡ [] → AllSatisfied rs
  unfolding missing_of
  none_missing [] h = tt
  none_missing (r ∷ rs) h =
      (not_missing r.kind r.value (ground arith), none_missing rs (ground arith))

  none_missing_back : (rs : List DepRef) → AllSatisfied rs → missing_all rs ≡ []
  unfolding missing_of
  none_missing_back [] h = refl
  none_missing_back (r ∷ rs) (s, h) =
      ground (arith, not_missing_back r.kind r.value s, none_missing_back rs h)

  -- No dependency is reported exactly when each reference is satisfied: an artifact is a file by
  -- itself or in one of the roots; and of the jobs that are known, the last that goes by the name
  -- succeeded, or that of the name in lower case where the name has no record, or only one that
  -- counts as false. Jobs do not count where that is asked for, or where nothing is asked for and no
  -- jobs are given.
  pub unsatisfied_deps-nil_iff :
      (items : List Item)
      → (unsatisfied_deps has_suffix is_absolute_file is_in_root roots completed enforce items ≡ [])
        ↔ AllSatisfied (parse_depends_on has_suffix items)
  unfolding unsatisfied_deps
  unsatisfied_deps-nil_iff items = (
    none_missing (parse_depends_on has_suffix items),
    none_missing_back (parse_depends_on has_suffix items),
  )
