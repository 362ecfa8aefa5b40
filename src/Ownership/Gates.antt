-- ===== src/Ownership/Gates.antt =====
-- framework/goal_ownership.py: the gates of an accepted plan against the goal contract.
use mathlib.Core.List.{Memᴰ}
use teleagent_collab.Common.{
  some, List, [], ◌∷◌, true, false, not, ◌&&◌, all, String, ◌≡◌, arith, string_eq, lookup, contains,
  ok,
}
use teleagent_collab.PathScope.{PythonText}
use teleagent_collab.Ownership.Json.{
  Json, Document, Python, get_mapping, or_empty, has_key, as_str_list,
}
use teleagent_collab.Ownership.Contract.{auth_sources, is_subset}
use teleagent_collab.Ownership.Checks.{check_musts, check_gate, ceiling_items}
use teleagent_collab.Ownership.Sources.{IsSource, IsSource-Mem}
use teleagent_collab.Ownership.Plans.{ceiling_of, validate_document}
use teleagent_collab.Ownership.Ceiling.{within-ceiling, ceiling-parts}

-- The gates of a contract, and the texts that it requires of each
pub data Gate : Type 0 where
  must must_not permissions : Gate

abbrev pub gate_name : Gate → String
gate_name must = "must"
gate_name must_not = "must_not"
gate_name permissions = "user_gate_permissions"

abbrev pub required_texts : Python → Gate → Document → List String
required_texts py permissions ceiling = ceiling_items py "user_gate_permissions" ceiling
required_texts py gate ceiling =
    as_str_list py (lookup (gate_name gate) (or_empty (get_mapping "boundaries" ceiling)))

all-contains :
    (mentioned required : List String) (x : String)
    → all (contains mentioned) required ≡ true
    → contains required x ≡ true
    → contains mentioned x ≡ true
unfolding all
all-contains mentioned [] x h c = absurd (cc)
all-contains mentioned (y ∷ ys) x h c = elim (string_eq.dec x y) [
  | yes e ↦ rw e (ground arith)
  | no d ↦ all-contains mentioned ys x (ground arith) (ground arith)
]

module _ (py : Python) (w : PythonText) where
  musts-kept :
      (all_of none_of : List String) (srcs : List Document) (src : Document)
      → check_musts py all_of none_of srcs ≡ ok tt
      → Memᴰ src srcs
      → (has_key "must" src && not (is_subset all_of (as_str_list py (lookup "must" src))) ≡ false)
        × (has_key "must_not" src
              && not (is_subset none_of (as_str_list py (lookup "must_not" src)))
            ≡ false)
  unfolding check_musts
  musts-kept all_of none_of [] src h f = elim f [ ]
  musts-kept all_of none_of (s ∷ srcs) src h (Memᴰ.head e) = rw e (ground arith, ground arith)
  musts-kept all_of none_of (s ∷ srcs) src h (Memᴰ.tail f) =
      musts-kept all_of none_of srcs src (ground arith) f

  gate-kept :
      (k : String) (required : List String) (srcs : List Document) (src : Document)
      → check_gate py k required srcs ≡ ok tt
      → Memᴰ src srcs
      → has_key k src ≡ true
      → is_subset required (as_str_list py (lookup k src)) ≡ true
  unfolding check_gate
  gate-kept k required [] src h f n = elim f [ ]
  gate-kept k required (s ∷ srcs) src h (Memᴰ.head e) n = ground arith
  gate-kept k required (s ∷ srcs) src h (Memᴰ.tail f) n =
      gate-kept k required srcs src (ground arith) f n

  subset-kept :
      (goal_id : String) (plan current contract : Document) (autonomy : Json) (src : Document)
      (gate : Gate)
      → validate_document py w goal_id plan current (some contract) autonomy ≡ ok tt
      → Memᴰ src (auth_sources plan)
      → has_key (gate_name gate) src ≡ true
      → is_subset
          (required_texts py gate (ceiling_of py contract current))
          (as_str_list py (lookup (gate_name gate) src))
        ≡ true
  subset-kept goal_id plan current contract autonomy src gate h f n =
      let ceiling = ceiling_of py contract current in
      let (_, musts, gates, _) =
        ceiling-parts py w plan ceiling
          (within-ceiling py w goal_id plan current contract autonomy h) in
      let (must_kept, must_not_kept) = musts-kept _ _ (auth_sources plan) src musts f in
      by_gate gate n must_kept must_not_kept gates
    where
      by_gate :
          (g : Gate)
          → has_key (gate_name g) src ≡ true
          → has_key "must" src
              && not (
                  is_subset
                    (required_texts py must (ceiling_of py contract current))
                    (as_str_list py (lookup "must" src)))
            ≡ false
          → has_key "must_not" src
              && not (
                  is_subset
                    (required_texts py must_not (ceiling_of py contract current))
                    (as_str_list py (lookup "must_not" src)))
            ≡ false
          → check_gate py "user_gate_permissions"
              (required_texts py permissions (ceiling_of py contract current))
              (auth_sources plan)
            ≡ ok tt
          → is_subset
              (required_texts py g (ceiling_of py contract current))
              (as_str_list py (lookup (gate_name g) src))
            ≡ true
      by_gate must n a b c = ground arith
      by_gate must_not n a b c = ground arith
      by_gate permissions n a b c =
          gate-kept "user_gate_permissions"
            (required_texts py permissions (ceiling_of py contract current)) (auth_sources plan) src
            c f n

  -- In an accepted plan every document that names "must", "must_not" or "user_gate_permissions"
  -- names there each text that the goal contract requires: the plan, its goal, each of its tasks, and
  -- the "boundaries" and the "inputs" of each of these.
  pub accepted_gates_kept :
      (goal_id : String) (plan current contract : Document) (autonomy : Json) (src : Document)
      (gate : Gate) (x : String)
      → validate_document py w goal_id plan current (some contract) autonomy ≡ ok tt
      → IsSource plan src
      → has_key (gate_name gate) src ≡ true
      → contains (required_texts py gate (ceiling_of py contract current)) x ≡ true
      → contains (as_str_list py (lookup (gate_name gate) src)) x ≡ true
  unfolding is_subset
  accepted_gates_kept goal_id plan current contract autonomy src gate x h i n r =
      all-contains (as_str_list py (lookup (gate_name gate) src))
        (required_texts py gate (ceiling_of py contract current)) x
        (subset-kept goal_id plan current contract autonomy src gate h (IsSource-Mem plan src i) n)
        r
