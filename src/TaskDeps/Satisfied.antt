-- ===== src/TaskDeps/Satisfied.antt =====
-- framework/task_deps.py: when a reference is satisfied, said without the index of completed jobs.
use mathlib.Core.List.{Memᴰ}
use mathlib.Core.Option.{some-injective}
use teleagent_collab.Common.{
  ◌≡◌, refl, sym, subst, ap, ◌∙◌, ◌↔◌, Bool-cases, ◌⊎◌, inl, inr, Bool, true, false, not, ◌&&◌,
  Option, none, some, List, [], ◌∷◌, String, Dict, string_eq, lookup, contains, any, strip, lower,
  arith,
}
use teleagent_collab.TaskDeps.Indexed.{latest, lookup-index_completed}
use teleagent_collab.TaskDeps.{
  Completed, true_value, false_value, other_value, result, result_succeeded, index_completed,
  hit_of, hit_succeeded,
}

-- A record of a success: True, or a mapping that says so by "ok" or by its state
abbrev IsSuccess : Completed → Type 0
IsSuccess true_value = Unit
IsSuccess (result is_ok state names) =
    (is_ok ≡ true)
    ⊎ (contains ("ok" ∷ "succeeded" ∷ "done" ∷ "success" ∷ []) (lower (strip state)) ≡ true)
IsSuccess _ = ⊥

abbrev FoundSuccess : String → Dict String Completed → Type 0
FoundSuccess key d = (c : Completed) × ((latest key d ≡ some c) × IsSuccess c)

-- The last job of that name succeeded; where there is none, or only a value that counts as false,
-- the last job of the name in lower case.
abbrev HasSucceeded : String → Dict String Completed → Type 0
HasSucceeded v d =
    FoundSuccess v d
    ⊎ (((latest v d ≡ none) ⊎ (latest v d ≡ some false_value)) × FoundSuccess (lower v) d)

-- References to jobs do not count: so it is asked for, or nothing is asked for and no job is known.
abbrev IsExempt : Option Bool → Option (Dict String Completed) → Type 0
IsExempt enforce completed = (enforce ≡ some false) ⊎ ((enforce ≡ none) × (completed ≡ none))

abbrev pub JobSatisfied : Option (Dict String Completed) → Option Bool → String → Type 0
JobSatisfied completed enforce v =
    IsExempt enforce completed
    ⊎ ((d : Dict String Completed) × ((completed ≡ some d) × HasSucceeded v d))

result_succeeded-IsSuccess : (c : Completed) → result_succeeded c ≡ true → IsSuccess c
unfolding result_succeeded
result_succeeded-IsSuccess true_value h = tt
result_succeeded-IsSuccess false_value h = cc
result_succeeded-IsSuccess other_value h = cc
result_succeeded-IsSuccess (result is_ok state names) h = ground arith

IsSuccess-result_succeeded : (c : Completed) → IsSuccess c → result_succeeded c ≡ true
unfolding result_succeeded
IsSuccess-result_succeeded true_value s = refl
IsSuccess-result_succeeded false_value s = absurd s
IsSuccess-result_succeeded other_value s = absurd s
IsSuccess-result_succeeded (result is_ok state names) s = ground arith

-- `a or b` of two lookups
abbrev hit_of_two : Option Completed → Option Completed → Option Completed
hit_of_two a b = elim a [ none ↦ b | some false_value ↦ b | some v ↦ some v ]

abbrev OneSucceeded : Option Completed → Option Completed → Type 0
OneSucceeded a b =
    ((c : Completed) × ((a ≡ some c) × IsSuccess c))
    ⊎ (((a ≡ none) ⊎ (a ≡ some false_value)) × ((c : Completed) × ((b ≡ some c) × IsSuccess c)))

recorded :
    (o : Option Completed) → hit_succeeded o ≡ true → (c : Completed) × ((o ≡ some c) × IsSuccess c)
unfolding hit_succeeded
recorded none h = cc
recorded (some c) h = (c, (refl, result_succeeded-IsSuccess c h))

recorded_back :
    (o : Option Completed) (c : Completed) → o ≡ some c → IsSuccess c → hit_succeeded o ≡ true
unfolding hit_succeeded
recorded_back o c e s = ap hit_succeeded e ∙ IsSuccess-result_succeeded c s

hit-OneSucceeded :
    (a b : Option Completed) → hit_succeeded (hit_of_two a b) ≡ true → OneSucceeded a b
hit-OneSucceeded none b h = inr (inl refl, recorded b h)
hit-OneSucceeded (some false_value) b h = inr (inr refl, recorded b h)
hit-OneSucceeded (some true_value) b h = inl (recorded (some true_value) h)
hit-OneSucceeded (some other_value) b h = inl (recorded (some other_value) h)
hit-OneSucceeded (some (result k s ns)) b h = inl (recorded (some (result k s ns)) h)

OneSucceeded-hit :
    (a b : Option Completed) → OneSucceeded a b → hit_succeeded (hit_of_two a b) ≡ true
unfolding hit_succeeded
OneSucceeded-hit none b (inl (c, (e, s))) = cc
OneSucceeded-hit none b (inr (_, (c, (e, s)))) = recorded_back b c e s
OneSucceeded-hit (some false_value) b (inl (c, (e, s))) =
    absurd (subst IsSuccess (sym (some-injective false_value c e)) s)
OneSucceeded-hit (some false_value) b (inr (_, (c, (e, s)))) = recorded_back b c e s
OneSucceeded-hit (some true_value) b s = IsSuccess-result_succeeded true_value tt
OneSucceeded-hit (some other_value) b (inl (c, (e, s))) =
    absurd (subst IsSuccess (sym (some-injective other_value c e)) s)
OneSucceeded-hit (some other_value) b (inr (inl e, _)) = cc
OneSucceeded-hit (some other_value) b (inr (inr e, _)) =
    absurd (ground (arith, some-injective other_value false_value e))
OneSucceeded-hit (some (result k t ns)) b (inl (c, (e, s))) =
    recorded_back (some (result k t ns)) c e s
OneSucceeded-hit (some (result k t ns)) b (inr (inl e, _)) = cc
OneSucceeded-hit (some (result k t ns)) b (inr (inr e, _)) =
    absurd (ground (arith, some-injective (result k t ns) false_value e))

hit_of-two :
    (idx : Dict String Completed) (v : String)
    → hit_of idx v ≡ hit_of_two (lookup v idx) (lookup (lower v) idx)
unfolding hit_of
hit_of-two idx v = refl

hit_of-latest :
    (d : Dict String Completed) (v : String)
    → hit_of (index_completed (some d)) v ≡ hit_of_two (latest v d) (latest (lower v) d)
hit_of-latest d v =
    hit_of-two (index_completed (some d)) v
    ∙ ap (λ a. hit_of_two a (lookup (lower v) (index_completed (some d))))
        (lookup-index_completed v d)
    ∙ ap (hit_of_two (latest v d)) (lookup-index_completed (lower v) d)

pub hit-HasSucceeded :
    (d : Dict String Completed) (v : String)
    → (hit_succeeded (hit_of (index_completed (some d)) v) ≡ true) ↔ HasSucceeded v d
hit-HasSucceeded d v = (
  λ h.
      hit-OneSucceeded (latest v d) (latest (lower v) d)
        (sym (ap hit_succeeded (hit_of-latest d v)) ∙ h),
  λ s. ap hit_succeeded (hit_of-latest d v) ∙ OneSucceeded-hit (latest v d) (latest (lower v) d) s,
)

any-there :
    (f : String → Bool) (xs : List String)
    → any f xs ≡ true
    → (x : String) × (Memᴰ x xs × (f x ≡ true))
unfolding any
any-there f [] h = cc
any-there f (y ∷ ys) h = elim (Bool-cases (f y)) [
  | inl e ↦ (y, (Memᴰ.head refl, e))
  | inr n ↦ let (x, (m, e)) = any-there f ys (ground arith) in (x, (Memᴰ.tail m, e))
]

any-back :
    (f : String → Bool) (xs : List String) (x : String) → Memᴰ x xs → f x ≡ true → any f xs ≡ true
unfolding any
any-back f [] x m h = elim m [ ]
any-back f (y ∷ ys) x (Memᴰ.head e) h = ground (arith, ap f (sym e))
any-back f (y ∷ ys) x (Memᴰ.tail m) h = ground (arith, any-back f ys x m h)

pub any-Mem :
    (f : String → Bool) (xs : List String)
    → (any f xs ≡ true) ↔ ((x : String) × (Memᴰ x xs × (f x ≡ true)))
any-Mem f xs = (any-there f xs, λ (x, (m, h)). any-back f xs x m h)

-- What `is_missing` tests of a job
abbrev job_missing : Option Bool → Option (Dict String Completed) → String → Bool
job_missing enforce completed v =
    elim enforce [ some b ↦ b | none ↦ elim completed [ none ↦ false | some _ ↦ true ] ]
    && not (hit_succeeded (hit_of (index_completed completed) v))

counted :
    (d : Dict String Completed) (v : String)
    → not (hit_succeeded (hit_of (index_completed (some d)) v)) ≡ false
    → (d' : Dict String Completed) × ((some d ≡ some d') × HasSucceeded v d')
counted d v h = (d, (refl, (hit-HasSucceeded d v).0 (ground arith)))

counted_back :
    (d d' : Dict String Completed) (v : String)
    → some d ≡ some d'
    → HasSucceeded v d'
    → not (hit_succeeded (hit_of (index_completed (some d)) v)) ≡ false
counted_back d d' v e s =
    ap not (ap (λ o. hit_succeeded (hit_of (index_completed o) v)) e ∙ (hit-HasSucceeded d' v).1 s)

pub job_missing-JobSatisfied :
    (enforce : Option Bool) (completed : Option (Dict String Completed)) (v : String)
    → job_missing enforce completed v ≡ false
    → JobSatisfied completed enforce v
unfolding index_completed hit_of hit_succeeded lookup
job_missing-JobSatisfied (some false) completed v h = inl (inl refl)
job_missing-JobSatisfied none none v h = inl (inr (refl, refl))
job_missing-JobSatisfied none (some d) v h = inr (counted d v h)
job_missing-JobSatisfied (some true) none v h = cc
job_missing-JobSatisfied (some true) (some d) v h = inr (counted d v h)

pub JobSatisfied-job_missing :
    (enforce : Option Bool) (completed : Option (Dict String Completed)) (v : String)
    → JobSatisfied completed enforce v
    → job_missing enforce completed v ≡ false
JobSatisfied-job_missing (some false) completed v s = refl
JobSatisfied-job_missing none none v s = refl
JobSatisfied-job_missing none (some d) v (inl (inl e)) = cc
JobSatisfied-job_missing none (some d) v (inl (inr (_, e))) = cc
JobSatisfied-job_missing none (some d) v (inr (d', (e, s))) = counted_back d d' v e s
JobSatisfied-job_missing (some true) c v (inl (inl e)) =
    absurd (ground (arith, some-injective true false e))
JobSatisfied-job_missing (some true) c v (inl (inr (e, _))) = cc
JobSatisfied-job_missing (some true) none v (inr (d', (e, s))) = cc
JobSatisfied-job_missing (some true) (some d) v (inr (d', (e, s))) = counted_back d d' v e s
