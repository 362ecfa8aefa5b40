-- ===== src/Concurrency/Caps.antt =====
-- The public view of the caps.
use teleagent_collab.Common.{
  ℕ, ◌≤◌, ◌<◌, ◌≡◌, ◌≢◌, ◌⊎◌, inl, inr, Option, none, some, List, [], ◌∷◌, ◌++◌, String, string_eq,
  nat_eq, contains, arith, Bool-cases, if◌then◌else◌,
}
use teleagent_collab.Concurrency.{
  as_limit, add_missing, backend_reasons, PublicConcurrency, public_concurrency,
}

module _ (per_goal global max_runs : Option ℕ) (labels : List String) where
  abbrev pub view : PublicConcurrency
  view = public_concurrency per_goal global max_runs labels

  abbrev pub BackendAtLeast : ℕ → Option ℕ → Type 0
  BackendAtLeast n none = Unit
  BackendAtLeast n (some b) = n ≤ b

  abbrev pub IsBackend : ℕ → Option ℕ → Type 0
  IsBackend n none = ⊥
  IsBackend n (some b) = n ≡ b

  -- The effective cap is positive, is at most each of the known caps, and is one of them.
  pub effective_is_least :
      (0 < view.effective)
      × (view.effective ≤ view.max_parallel_per_goal)
      × (view.effective ≤ view.max_parallel_global)
      × BackendAtLeast view.effective view.backend_max_runs
      × ((view.effective ≡ view.max_parallel_per_goal)
          ⊎ ((view.effective ≡ view.max_parallel_global)
              ⊎ IsBackend view.effective view.backend_max_runs))
  unfolding public_concurrency as_limit
  effective_is_least = ground arith

  extended : (reasons : List String) (name : String) → reasons ++ name ∷ [] ≢ []
  extended [] name = λ e. cc
  extended (r ∷ rs) name = λ e. cc

  add_missing_ne : (reasons names : List String) → reasons ≢ [] → add_missing reasons names ≢ []
  unfolding add_missing
  add_missing_ne reasons [] h = h
  add_missing_ne reasons (n ∷ ns) h =
      add_missing_ne (if contains reasons n then reasons else reasons ++ n ∷ []) ns
        (elim (Bool-cases (contains reasons n)) [
          | inl e ↦ rw e h
          | inr e ↦ rw e (extended reasons n)
        ])

  backend_reasons_ne : (reasons names : List String) → backend_reasons reasons names ≢ []
  unfolding backend_reasons
  backend_reasons_ne reasons [] = ground (arith, extended reasons "backend_max_runs")
  backend_reasons_ne [] (n ∷ ns) = add_missing_ne (n ∷ []) ns (λ e. cc)
  backend_reasons_ne (r ∷ rs) (n ∷ ns) = add_missing_ne (r ∷ rs) (n ∷ ns) (λ e. cc)

  -- The view always names a cap that limits: the goal's, the service's, or the backend's.
  limited_by-ne-nil : view.limited_by ≢ []
  unfolding public_concurrency as_limit
  limited_by-ne-nil = grind (arith, backend_reasons_ne)
