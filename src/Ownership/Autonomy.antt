-- ===== src/Ownership/Autonomy.antt =====
-- framework/delegation.py: the autonomy that a goal declares, and the plan revisions that it forbids.
-- `lower` is exact on the ASCII words that the modes are compared with; a mode that is no known word
-- is kept for display only.
use teleagent_collab.Common.{
  Bool, Option, none, some, List, [], ◌∷◌, ◌||◌, ◌&&◌, not, true, false, String, Dict, string_eq,
  lookup, insert, contains, strip, lower, non_empty, str_or, any, Result, ok, err, ◌==◌,
  if◌then◌else◌,
}
use teleagent_collab.PathScope.{replace_char}
use teleagent_collab.Ownership.Json.{
  Json, null, boolean, number, text, object, field, no_fields, Document, Python, entries_of,
  has_key, get_mapping, truthy_or, str_of, str_or_default, tasks_by_id,
}

-- The stored spec: its mode, the three flags, and "unknown" for a mode that is no known word
pub record Autonomy : Type 0 where
  pub mode : String
  pub allow_local_plan : Bool
  pub allow_rework : Bool
  pub allow_reassign : Bool
  pub unknown : Bool

unfoldable pub undeclared_autonomy : Autonomy
undeclared_autonomy = record {
  mode = "undeclared";
  allow_local_plan = true;
  allow_rework = true;
  allow_reassign = true;
  unknown = false;
}

abbrev autonomy_aliases : Dict String String
autonomy_aliases =
    ("explicit_plan", "explicit_plan")
    ∷ ("explicit", "explicit_plan")
    ∷ ("plan", "explicit_plan")
    ∷ ("plan_mode", "explicit_plan")
    ∷ ("planned", "explicit_plan")
    ∷ ("bounded_autonomy", "bounded_autonomy")
    ∷ ("bounded", "bounded_autonomy")
    ∷ ("autonomy", "bounded_autonomy")
    ∷ ("local", "bounded_autonomy")
    ∷ ("undeclared", "undeclared")
    ∷ ("unspecified", "undeclared")
    ∷ ("default", "undeclared")
    ∷ []

abbrev autonomy_modes : List String
autonomy_modes = "explicit_plan" ∷ "bounded_autonomy" ∷ "undeclared" ∷ []

abbrev reassign_keys : List String
reassign_keys =
    "assignee_role" ∷ "backend_requirement" ∷ "assignee" ∷ "executor_id" ∷ "worker" ∷ "backend"
    ∷ "coordinator_id" ∷ []

module _ (py : Python) where
  -- `_norm(value)`
  unfoldable pub norm : Option Json → String
  norm j = strip (str_or_default py j "")

  -- `_as_bool` of a text, and of a value
  bool_of_text : String → Bool → Bool
  bool_of_text s default =
      if contains ("1" ∷ "true" ∷ "yes" ∷ "on" ∷ []) s
      then true
      else if contains ("0" ∷ "false" ∷ "no" ∷ "off" ∷ []) s
      then false
      else default

  unfoldable pub as_bool : Option Json → Bool → Bool
  unfolding bool_of_text
  as_bool none default = default
  as_bool (some null) default = default
  as_bool (some (boolean b)) default = b
  as_bool (some j) default = bool_of_text (lower (strip (str_of py j))) default

  -- The fields of `normalize_autonomy`'s result for a source and its mode
  autonomy_of_mode : Document → String → Autonomy
  unfolding as_bool
  autonomy_of_mode src mode =
      let open_by_default = not (mode == "explicit_plan") in
      let plan_flag : Option Json = elim (lookup "allow_local_plan" src) [
        | some j ↦ some j
        | none ↦ lookup "allow_plan" src
      ] in
      record {
        mode = mode;
        allow_local_plan = as_bool plan_flag open_by_default;
        allow_rework = as_bool (lookup "allow_rework" src) open_by_default;
        allow_reassign = as_bool (lookup "allow_reassign" src) open_by_default;
        unknown = false;
      }

  autonomy_of_source : Document → Autonomy
  unfolding norm undeclared_autonomy autonomy_of_mode replace_char
  autonomy_of_source src =
      let asked = norm (truthy_or (lookup "mode" src) (lookup "autonomy" src)) in
      let raw_mode = replace_char " " "_" (replace_char "-" "_" (lower asked)) in
      let mode : String = elim (lookup raw_mode autonomy_aliases) [
        | none ↦ raw_mode
        | some m ↦ m
      ] in
      let unknown_mode : Autonomy = record undeclared_autonomy {
        mode = str_or raw_mode "undeclared";
        unknown = true;
      } in
      if contains autonomy_modes mode then autonomy_of_mode src mode else unknown_mode

  -- The source of a mapping: its nested "autonomy", with the outer mode where it has none
  autonomy_source : Document → Document
  autonomy_source value =
      let src : Document = elim (get_mapping "autonomy" value) [ none ↦ value | some d ↦ d ] in
      if has_key "mode" src
      then src
      else elim (truthy_or (lookup "mode" value) none) [ none ↦ src | some j ↦ insert "mode" j src ]

  unfoldable pub normalize_autonomy : Option Json → Autonomy
  unfolding undeclared_autonomy autonomy_of_source autonomy_source
  normalize_autonomy (some (text s)) =
      if non_empty s then autonomy_of_source (("mode", text s) ∷ []) else undeclared_autonomy
  normalize_autonomy (some (object fs)) = autonomy_of_source (autonomy_source (entries_of fs))
  normalize_autonomy _ = undeclared_autonomy

  -- The JSON object of a spec, as the store keeps it
  unfoldable pub autonomy_json : Autonomy → Json
  autonomy_json a =
      let rest = if a.unknown then field "unknown" (boolean true) no_fields else no_fields in
      object (
        field "mode" (text a.mode) (
          field "allow_local_plan" (boolean a.allow_local_plan) (
            field "allow_rework" (boolean a.allow_rework)
              (field "allow_reassign" (boolean a.allow_reassign) rest))))

  -- `set(a) <= set(b)` of the keys of two dicts
  keys_within : Dict String Document → Dict String Document → Bool
  keys_within [] b = true
  keys_within ((k, _) ∷ a) b = elim (lookup k b) [ none ↦ false | some _ ↦ keys_within a b ]

  plan_adds_or_drops_tasks : Document → Document → Bool
  unfolding keys_within
  plan_adds_or_drops_tasks current new =
      let old_ids = tasks_by_id py current in
      let new_ids = tasks_by_id py new in
      not (keys_within old_ids new_ids && keys_within new_ids old_ids)

  reassigned : Document → Document → Bool
  unfolding norm
  reassigned prev rec =
      any (λ k. has_key k rec && not (norm (lookup k rec) == norm (lookup k prev))) reassign_keys

  -- Whether a task of the plan stands among the old ones and meets a test against it
  any_known : (Document → Document → Bool) → Dict String Document → Dict String Document → Bool
  any_known test old [] = false
  any_known test old ((tid, rec) ∷ new) =
      let more = any_known test old new in
      elim (lookup tid old) [ none ↦ more | some prev ↦ test prev rec || more ]

  plan_reassigns : Document → Document → Bool
  unfolding any_known reassigned
  plan_reassigns current new = any_known reassigned (tasks_by_id py current) (tasks_by_id py new)

  -- `new_att > old_att`, for the attempts as integers
  attempt_grows : Document → Document → Bool
  attempt_grows prev rec =
      let zero_attempt : Json = number record { below_zero = false; digits = 0; scale = 0 } in
      let old_att : Json = elim (truthy_or (lookup "attempt" prev) none) [
        | none ↦ zero_attempt
        | some j ↦ j
      ] in
      elim (truthy_or (lookup "attempt" rec) none) [
        | none ↦ false
        | some new_att ↦ py.is_int old_att && py.is_int new_att && py.int_exceeds new_att old_att
      ]

  reworked : Document → Document → Bool
  unfolding norm attempt_grows
  reworked prev rec =
      let old_st = str_or (strip (str_or_default py (lookup "status" prev) "queued")) "queued" in
      let new_st = str_or (strip (str_or_default py (lookup "status" rec) old_st)) old_st in
      let truth_of : String → Bool =
        λ k. elim (truthy_or (lookup k rec) none) [ none ↦ false | some _ ↦ true ] in
      (contains ("failed" ∷ "succeeded" ∷ []) old_st
        && contains ("queued" ∷ "running" ∷ "blocked" ∷ "review" ∷ []) new_st)
      || attempt_grows prev rec
      || truth_of "rework"
      || truth_of "rework_of"

  plan_reworks : Document → Document → Bool
  unfolding any_known reworked
  plan_reworks current new = any_known reworked (tasks_by_id py current) (tasks_by_id py new)

  unfoldable pub check_plan_against_autonomy : Json → Document → Document → Result String (Unit {0})
  unfolding plan_adds_or_drops_tasks plan_reassigns plan_reworks normalize_autonomy
  check_plan_against_autonomy autonomy current new =
      let spec = normalize_autonomy (some autonomy) in
      if spec.unknown
      then err "unknown_autonomy"
      else if spec.mode == "" || spec.mode == "undeclared"
      then ok tt
      else if not spec.allow_local_plan && plan_adds_or_drops_tasks current new
      then err "explicit_plan forbids local planning"
      else if not spec.allow_reassign && plan_reassigns current new
      then err "autonomy forbids reassign"
      else if not spec.allow_rework && plan_reworks current new
      then err "autonomy forbids rework"
      else ok tt
