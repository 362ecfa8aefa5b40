-- ===== src/Ownership/Ceiling.antt =====
-- framework/goal_ownership.py: the ranges of an accepted plan against the goal contract.
use teleagent_collab.Common.{
  some, List, [], ◌∷◌, true, false, String, ◌≡◌, refl, sym, subst, arith, string_eq, lookup,
  contains, strip, ok, >>=-eq-ok,
}
use teleagent_collab.PathScope.{
  Platform, posix, PythonText, ready, allow_item_covered, has_wildcard, parse_path_pattern,
}
use teleagent_collab.PathScope.Trees.{IsLiteral}
use teleagent_collab.PathScope.Narrowing.{IsPlain}
use teleagent_collab.PathScope.Allowing.{entries, AllTrees, accepted_item_narrows}
use teleagent_collab.Ownership.Json.{Json, Document, Python, get_mapping, or_empty, as_str_list}
use teleagent_collab.Ownership.Autonomy.{check_plan_against_autonomy}
use teleagent_collab.Ownership.Contract.{
  range_keys, path_range_keys, auth_sources, contract_path_platform,
}
use teleagent_collab.Ownership.Checks.{
  check_budget, check_musts, check_gate, collected, ceiling_items, check_item, check_items,
  check_range, check_ranges, check_contract_ceiling,
}
use teleagent_collab.Ownership.Plans.{ceiling_of, check_ceiling, validate_document}

module _ (py : Python) (w : PythonText) where
  item-covered :
      (k : String) (allowed : List String) (plat : Platform) (item : String)
      → check_item py w k allowed plat item ≡ ok tt
      → allow_item_covered w item allowed plat (contains path_range_keys k) ≡ ready
  unfolding check_item
  item-covered k allowed plat item h = ground arith

  items-covered :
      (k : String) (allowed : List String) (plat : Platform) (items : List String) (item : String)
      → check_items py w k allowed plat items ≡ ok tt
      → contains items item ≡ true
      → allow_item_covered w item allowed plat (contains path_range_keys k) ≡ ready
  unfolding check_items
  items-covered k allowed plat [] item h c = absurd (cc)
  items-covered k allowed plat (x ∷ xs) item h c =
      let (_, one, rest) =
        >>=-eq-ok (check_item py w k allowed plat x) (λ _. check_items py w k allowed plat xs) h in
      elim (string_eq.dec item x) [
        | yes e ↦
            subst (λ y. allow_item_covered w y allowed plat (contains path_range_keys k) ≡ ready)
              (sym e) (item-covered k allowed plat x one)
        | no d ↦ items-covered k allowed plat xs item rest (ground arith)
      ]

  range-covered :
      (k : String) (plan ceiling : Document) (item : String)
      → check_range py w k plan ceiling ≡ ok tt
      → contains (collected py k (auth_sources plan)) item ≡ true
      → allow_item_covered w item
          (ceiling_items py k ceiling)
          (contract_path_platform py ceiling)
          (contains path_range_keys k)
        ≡ ready
  unfolding check_range
  range-covered k plan ceiling item h c =
      by_lists (ceiling_items py k ceiling) (collected py k (auth_sources plan)) refl refl
    where
      by_lists :
          (allowed items : List String)
          → ceiling_items py k ceiling ≡ allowed
          → collected py k (auth_sources plan) ≡ items
          → allow_item_covered w item
              (ceiling_items py k ceiling)
              (contract_path_platform py ceiling)
              (contains path_range_keys k)
            ≡ ready
      by_lists [] [] a i = absurd (ground arith)
      by_lists [] (x ∷ xs) a i = absurd (ground arith)
      by_lists (x ∷ xs) items a i =
          subst
            (λ l.
              allow_item_covered w item l (contract_path_platform py ceiling)
                (contains path_range_keys k)
              ≡ ready)
            (sym a)
            (items-covered k (x ∷ xs) (contract_path_platform py ceiling) items item (ground arith)
              (subst (λ l. contains l item ≡ true) i c))

  ranges-covered :
      (ks : List String) (k : String) (plan ceiling : Document)
      → check_ranges py w ks plan ceiling ≡ ok tt
      → contains ks k ≡ true
      → check_range py w k plan ceiling ≡ ok tt
  unfolding check_ranges
  ranges-covered [] k plan ceiling h c = absurd (cc)
  ranges-covered (x ∷ ks) k plan ceiling h c =
      let (_, one, rest) =
        >>=-eq-ok (check_range py w x plan ceiling) (λ _. check_ranges py w ks plan ceiling) h in
      elim (string_eq.dec k x) [
        | yes e ↦ subst (λ y. check_range py w y plan ceiling ≡ ok tt) (sym e) one
        | no d ↦ ranges-covered ks k plan ceiling rest (ground arith)
      ]

  pub within-ceiling :
      (goal_id : String) (plan current contract : Document) (autonomy : Json)
      → validate_document py w goal_id plan current (some contract) autonomy ≡ ok tt
      → check_contract_ceiling py w plan (ceiling_of py contract current) ≡ ok tt
  unfolding validate_document check_ceiling
  within-ceiling goal_id plan current contract autonomy h =
      let (_, p, _) = >>=-eq-ok _ (λ _. check_plan_against_autonomy py autonomy current plan) h in
      let (_, _, c) = >>=-eq-ok _ (λ _. check_ceiling py w plan current (some contract)) p in c

  -- The checks of the four parts of the contract
  pub ceiling-parts :
      (plan ceiling : Document)
      → check_contract_ceiling py w plan ceiling ≡ ok tt
      → (check_budget py plan ceiling ≡ ok tt)
        × (check_musts py
              (as_str_list py (lookup "must" (or_empty (get_mapping "boundaries" ceiling))))
              (as_str_list py (lookup "must_not" (or_empty (get_mapping "boundaries" ceiling))))
              (auth_sources plan)
            ≡ ok tt)
        × (check_gate py "user_gate_permissions"
              (ceiling_items py "user_gate_permissions" ceiling)
              (auth_sources plan)
            ≡ ok tt)
        × (check_ranges py w range_keys plan ceiling ≡ ok tt)
  unfolding check_contract_ceiling
  ceiling-parts plan ceiling h =
      let bounds = or_empty (get_mapping "boundaries" ceiling) in
      let musts =
        check_musts py (as_str_list py (lookup "must" bounds))
          (as_str_list py (lookup "must_not" bounds)) (auth_sources plan) in
      let gate =
        check_gate py "user_gate_permissions" (ceiling_items py "user_gate_permissions" ceiling)
          (auth_sources plan) in
      let (_, p, ranges) = >>=-eq-ok _ (λ _. check_ranges py w range_keys plan ceiling) h in
      let (_, q, gates) = >>=-eq-ok _ (λ _. gate) p in
      let (_, budget, required) = >>=-eq-ok (check_budget py plan ceiling) (λ _. musts) q in
      (budget, required, gates, ranges)

  -- In an accepted plan every entry of the four ranges, wherever the plan names it, is covered by
  -- what the goal contract allows for that range.
  accepted_ranges_covered :
      (goal_id : String) (plan current contract : Document) (autonomy : Json) (k item : String)
      → validate_document py w goal_id plan current (some contract) autonomy ≡ ok tt
      → contains range_keys k ≡ true
      → contains (collected py k (auth_sources plan)) item ≡ true
      → allow_item_covered w item
          (ceiling_items py k (ceiling_of py contract current))
          (contract_path_platform py (ceiling_of py contract current))
          (contains path_range_keys k)
        ≡ ready
  accepted_ranges_covered goal_id plan current contract autonomy k item h r c =
      let ceiling = ceiling_of py contract current in
      let (_, _, _, ranges) =
        ceiling-parts plan ceiling (within-ceiling goal_id plan current contract autonomy h) in
      range-covered k plan ceiling item (ranges-covered range_keys k plan ceiling ranges r) c

  -- In an accepted plan, if `fnmatchcase` is equality on patterns without a wildcard: every path
  -- without a wildcard that one of the plan's path entries allows is allowed by the goal contract.
  -- Path, entry and contract are absolute POSIX paths without an escaping `..`, and the contract's
  -- entries are directories or a directory's `/**`.
  pub accepted_paths_stay_within :
      (goal_id : String) (plan current contract : Document) (autonomy : Json) (k item path : String)
      → IsLiteral w
      → contract_path_platform py (ceiling_of py contract current) ≡ posix
      → IsPlain (parse_path_pattern (strip path) posix)
      → has_wildcard (parse_path_pattern (strip path) posix) ≡ false
      → IsPlain (parse_path_pattern (strip item) posix)
      → AllTrees (entries (ceiling_items py k (ceiling_of py contract current)))
      → contains range_keys k ≡ true
      → contains path_range_keys k ≡ true
      → validate_document py w goal_id plan current (some contract) autonomy ≡ ok tt
      → contains (collected py k (auth_sources plan)) item ≡ true
      → allow_item_covered w path (item ∷ []) posix true ≡ ready
      → allow_item_covered w path (ceiling_items py k (ceiling_of py contract current)) posix true
        ≡ ready
  accepted_paths_stay_within goal_id plan current contract autonomy k item path lit plat o c p u r
        pk h named allowed =
      accepted_item_narrows w lit path item (ceiling_items py k (ceiling_of py contract current)) o
        c p u
        (ground
          (arith, accepted_ranges_covered goal_id plan current contract autonomy k item h r named))
        allowed
