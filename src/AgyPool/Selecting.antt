-- ===== src/AgyPool/Selecting.antt =====
-- execution_backend/agy_account_pool.py: which account a spawn takes.
use teleagent_collab.Common.{
  ℕ, Bool, false, not, ◌&&◌, ◌||◌, Option, none, some, List, [], ◌∷◌, String, string_eq, nat_eq,
  ◌==◌, if◌then◌else◌, contains, non_empty, str_or, strip, later,
}
use teleagent_collab.AgyPool.{
  available, same_state, Account, Host, AccountPool, Cooldowns, expire_cooldowns,
  expire_busy_leases, apply_class_to_state,
}

-- What a precheck returns. `classified` is the class that `classify` gives to the outputs.
pub data Precheck : Type 0 where
  nothing : Precheck
  words : String → Precheck
  fields : (class err_class classified : String) → Precheck

-- `_normalize_precheck`
unfoldable pub normalize_precheck : Precheck → String
normalize_precheck nothing = "ok"
normalize_precheck (words s) = str_or (strip s) "ok"
normalize_precheck (fields class err_class classified) =
    if non_empty class
    then strip class
    else if non_empty err_class
    then strip err_class
    else classified

-- The loop over the accounts: the accounts as it leaves them, whether one changed, and the place of
-- the one that is chosen.
pub record Choice : Type 0 where
  pub accounts : List Account
  pub mutated : Bool
  pub chosen : Option ℕ

-- The account in front of the rest
abbrev in_front : Account → Bool → Choice → Choice
in_front acc changed c = record {
  accounts = acc ∷ c.accounts;
  mutated = changed || c.mutated;
  chosen = later c.chosen;
}

abbrev taken : Account → Bool → List Account → Choice
taken acc changed rest = record { accounts = acc ∷ rest; mutated = changed; chosen = some 0 }

unfoldable pub select_loop :
    Host
    → (now : ℕ) → Cooldowns
    → Option (Account → Precheck)
    → (exclude : List String) → List Account
    → Choice
unfolding later
select_loop host now cs precheck exclude [] = record {
  accounts = [];
  mutated = false;
  chosen = none;
}
select_loop host now cs precheck exclude (acc ∷ rest) =
    let next = select_loop host now cs precheck exclude rest in
    let checked : Choice = elim precheck [
      | none ↦ taken acc false rest
      | some check ↦
          let cls = normalize_precheck (check acc) in
          let (acc', changed) = apply_class_to_state host now cs cls acc in
          if cls == "ok" then taken acc' changed rest else in_front acc' changed next
    ] in
    if not (same_state acc.state available) || contains exclude acc.id
    then in_front acc false next
    else checked

pub record Selected : Type 0 where
  pub pool : AccountPool
  pub chosen : Option ℕ
  pub saves : Bool

unfoldable pub select_account :
    Host
    → (now : ℕ) → Cooldowns
    → Option (Account → Precheck)
    → (persist : Bool) → (exclude : List String) → AccountPool
    → Selected
select_account host now cs precheck persist exclude p =
    let (p1, expired) = expire_cooldowns now p in
    let (p2, expired_busy) = expire_busy_leases host now p1 in
    let c = select_loop host now cs precheck exclude p2.accounts in
    record {
      pool = record p2 { accounts = c.accounts };
      chosen = c.chosen;
      saves = persist && (c.mutated || expired || expired_busy) && p.has_path;
    }
