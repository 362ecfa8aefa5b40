-- ===== src/AgyPool/Tests.antt =====
-- An account pool at concrete inputs.
use native.Mathlib.Decide.{ℕ_discrete}
use teleagent_collab.Common.{
  ℕ, ◌≡◌, ◌≢◌, refl, inr, arith, true, false, Option, none, some, List, [], ◌∷◌, String, string_eq,
  nth, first_index, later, Result, strip, max, ◌+◌,
}
use teleagent_collab.AgyPool.{
  AccountState, available, cooldown, Until, at, missing, Account, Host, AccountPool, Cooldowns,
  duration, second, same_state, passed, expire_cooldowns, expire_busy_leases, expire_cooldown,
  expire_busy_lease, cooldown_over, is_stale, apply_class_to_state,
}
use teleagent_collab.AgyPool.Leases.{iso_now, reserve_account, owns_lease}
use teleagent_collab.AgyPool.Selecting.{
  Precheck, words, normalize_precheck, select_loop, select_account,
}
use teleagent_collab.AgyPool.Choice.{eligible, promoted, select_account-first}
use teleagent_collab.AgyPool.Exclusive.{
  Action, dispatches, frees, reclaims, act, run, AreForeign, lease_is_exclusive,
}
use teleagent_collab.AgyPool.Preparing.{held_elsewhere, Round, PrepareError, Prepared, prepare}
use teleagent_collab.AgyPool.Preparing.Ends.{prepare-ends}

abbrev linux : ℕ → Host
linux pid = record {
  me = pid;
  alive = λ p. true;
  start_token = λ p. some "start";
  is_windows = false;
  home_key = λ h. h;
  home_lock_free = λ h. some false;
  next_midnight = λ t. t;
}

abbrev account : String → AccountState → Option Until → Account
account id state until = record {
  id = id;
  home = "/home";
  state = state;
  cooldown_until = until;
  lease_pid = none;
  lease_until = none;
  lease_id = none;
  lease_proc_start = none;
}

abbrev account_b : Account
account_b = account "b" cooldown (some (at 5))

abbrev pool : AccountPool
pool = record {
  accounts = account "a" cooldown (some (at 9)) ∷ account_b ∷ account "c" available none ∷ [];
  held_homes = [];
  has_path = true;
  cooldown_sec = missing;
  cooldown_mode = "";
  temp_cooldown_sec = missing;
}

abbrev short : Cooldowns
short = record { sec = 300; mode = duration; temp_sec = 60 }

abbrev always_ok : Option (Account → Precheck)
always_ok = some (λ acc. words " ok ")

pool_choice : (select_account (linux 7) 6 short always_ok true [] pool).chosen ≡ some 1
unfolding select_account expire_cooldowns expire_busy_leases expire_cooldown expire_busy_lease
    cooldown_over is_stale same_state passed select_loop normalize_precheck apply_class_to_state
    strip string_eq later ℕ_discrete
pool_choice = refl

select_account-first_example :
    (select_account (linux 7) 6 short always_ok true [] pool).chosen
    ≡ first_index (eligible (linux 7) 6 always_ok []) pool.accounts
select_account-first_example = select_account-first (linux 7) 6 short always_ok true [] pool

abbrev reserved_b : Account
reserved_b = reserve_account (linux 7) 6 0 "lease" (promoted (linux 7) 6 account_b)

abbrev others : List (Host × Action)
others =
    (linux 8, frees (some "mine") 1)
    ∷ (linux 8, dispatches 11 short none [] 0 "other")
    ∷ (linux 8, reclaims)
    ∷ []

b_place : nth 1 pool.accounts ≡ some account_b
unfolding nth
b_place = refl

others-AreForeign : AreForeign 1 (iso_now (6 + max second 0)) reserved_b others
unfolding AreForeign reserve_account owns_lease string_eq iso_now
others-AreForeign = (inr refl, (omega arith, (inr refl, tt)))

lease_is_exclusive_example :
    (select_account
      (linux 9)
      12
      short
      none
      true
      []
      (run others (act (linux 7, dispatches 6 short always_ok [] 0 "lease") pool))).chosen
    ≢ some 1
unfolding iso_now
lease_is_exclusive_example =
    (lease_is_exclusive (linux 7) 6 short always_ok [] 0 "lease" pool 1 account_b pool_choice
      b_place others others-AreForeign (linux 9) 12 short none [] (omega arith)).1

abbrev home_held : ℕ → Round
home_held n = record { now = 6; try_home = λ h. held_elsewhere }

prepare-ends_example :
    (r : Result PrepareError Prepared) × (prepare
        (linux 7)
        short
        always_ok
        home_held
        6
        0
        "lease"
        true
        pool
      ≡ some r)
prepare-ends_example = prepare-ends (linux 7) short always_ok home_held 6 0 "lease" true pool
