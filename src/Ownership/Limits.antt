-- ===== src/Ownership/Limits.antt =====
-- framework/goal_ownership.py: the budget of an accepted plan against the goal contract.
use teleagent_collab.Common.{
  Option, none, some, List, [], ◌∷◌, true, false, String, ◌≡◌, refl, sym, ◌⊎◌, subst, arith,
  string_eq, lookup, contains, ok, >>=-eq-ok,
}
use teleagent_collab.PathScope.{PythonText}
use teleagent_collab.Ownership.Json.{Json, Document, Python, get_mapping, or_empty}
use teleagent_collab.Ownership.Contract.{budget_limit_keys, inherited}
use teleagent_collab.Ownership.Checks.{check_limit, check_limits, check_budget}
use teleagent_collab.Ownership.Plans.{ceiling_of, validate_document}
use teleagent_collab.Ownership.Ceiling.{within-ceiling, ceiling-parts}

module _ (py : Python) (w : PythonText) where
  limit-kept :
      (k : String) (plan_budget ceil_budget : Document) (v : Json)
      → check_limit py k plan_budget ceil_budget ≡ ok tt
      → lookup k plan_budget ≡ some v
      → (py.is_float v ≡ true)
        × ((cap : Json) × ((lookup k ceil_budget ≡ some cap)
              × ((py.is_float cap ≡ false) ⊎ (py.float_exceeds v cap ≡ false))))
  unfolding check_limit
  limit-kept k plan_budget ceil_budget v h f = by_cap (lookup k ceil_budget) refl
    where
      by_cap :
          (o : Option Json)
          → lookup k ceil_budget ≡ o
          → (py.is_float v ≡ true)
            × ((cap : Json) × ((lookup k ceil_budget ≡ some cap)
                  × ((py.is_float cap ≡ false) ⊎ (py.float_exceeds v cap ≡ false))))
      by_cap none e = absurd (ground arith)
      by_cap (some cap) e = (ground arith, (cap, (e, ground arith)))

  limits-kept :
      (ks : List String) (k : String) (plan_budget ceil_budget : Document)
      → check_limits py ks plan_budget ceil_budget ≡ ok tt
      → contains ks k ≡ true
      → check_limit py k plan_budget ceil_budget ≡ ok tt
  unfolding check_limits
  limits-kept [] k plan_budget ceil_budget h c = absurd (cc)
  limits-kept (x ∷ ks) k plan_budget ceil_budget h c =
      let (_, one, rest) =
        >>=-eq-ok (check_limit py x plan_budget ceil_budget)
          (λ _. check_limits py ks plan_budget ceil_budget) h in
      elim (string_eq.dec k x) [
        | yes e ↦ subst (λ y. check_limit py y plan_budget ceil_budget ≡ ok tt) (sym e) one
        | no d ↦ limits-kept ks k plan_budget ceil_budget rest (ground arith)
      ]

  -- In an accepted plan every limit of the plan's budget is a number, is one that the contract's
  -- budget limits too, and does not exceed that limit, unless the contract's is no number.
  pub accepted_budget_within :
      (goal_id : String) (plan current contract budget : Document) (autonomy : Json) (k : String)
      (v : Json)
      → validate_document py w goal_id plan current (some contract) autonomy ≡ ok tt
      → inherited "budget" plan (or_empty (get_mapping "goal" plan)) ≡ some budget
      → contains budget_limit_keys k ≡ true
      → lookup k budget ≡ some v
      → (py.is_float v ≡ true)
        × ((cap : Json) × ((lookup k
                  (or_empty (get_mapping "budget" (ceiling_of py contract current)))
                ≡ some cap)
              × ((py.is_float cap ≡ false) ⊎ (py.float_exceeds v cap ≡ false))))
  unfolding check_budget
  accepted_budget_within goal_id plan current contract budget autonomy k v h b r f =
      let ceiling = ceiling_of py contract current in
      let (checked, _, _, _) =
        ceiling-parts py w plan ceiling
          (within-ceiling py w goal_id plan current contract autonomy h) in
      let caps = or_empty (get_mapping "budget" ceiling) in
      let limits : check_limits py budget_limit_keys budget caps ≡ ok tt = ground arith in
      limit-kept k budget caps v (limits-kept budget_limit_keys k budget caps limits r) f
