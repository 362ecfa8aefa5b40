-- ===== src/AgyPool.antt =====
-- execution_backend/agy_account_pool.py: the accounts of the antigravity command line tool and the
-- states they pass through. Times are whole microseconds. What the host tells (processes, the clock's
-- next midnight, paths) is a `Host`.
pub mod Leases
pub mod Selecting
pub mod Choice
pub mod Exclusive
pub mod Preparing
mod Tests
use teleagent_collab.Common.{
  ℕ, zero, suc, ◌+◌, ◌-◌, ◌*◌, max, ◌≡◌, Bool, true, false, not, ◌&&◌, ◌||◌, Option, none, some,
  List, [], ◌∷◌, map, String, string_eq, nat_eq, ltb, leb, ◌==◌, if◌then◌else◌, contains, any, keep,
  strip, lower, non_empty, str_or, Result, err, ok,
}

-- `ACCOUNT_STATES`
pub data AccountState : Type 0 where
  available busy exhausted cooldown unavailable : AccountState

rank : AccountState → ℕ
rank available = 0
rank busy = 1
rank exhausted = 2
rank cooldown = 3
rank unavailable = 4

unfoldable pub same_state : AccountState → AccountState → Bool
unfolding rank
same_state s t = rank s == rank t

-- A date in the file, as the parser of its field reads it
pub data Until : Type 0 where
  at : ℕ → Until
  unreadable : Until

pub record Account : Type 0 where
  pub id : String
  pub home : String
  pub state : AccountState
  pub cooldown_until : Option Until
  pub lease_pid : Option ℕ
  pub lease_until : Option Until
  pub lease_id : Option String
  pub lease_proc_start : Option String

pub record Host : Type 0 where
  pub me : ℕ
  pub alive : ℕ → Bool
  pub start_token : ℕ → Option String
  pub is_windows : Bool
  pub home_key : String → String
  pub home_lock_free : String → Option Bool
  pub next_midnight : ℕ → ℕ

-- A setting of the environment, of the pool's file or of the caller: missing, not a number or
-- negative, or a number.
pub data Setting : Type 0 where
  missing improper : Setting
  number : ℕ → Setting

-- The pool with this process's home locks (`_HELD_HOME_LEASES`).
pub record AccountPool : Type 0 where
  pub accounts : List Account
  pub held_homes : List String
  pub has_path : Bool
  pub cooldown_sec : Setting
  pub cooldown_mode : String
  pub temp_cooldown_sec : Setting

abbrev pub second : ℕ
second = 1000000

-- `_coerce_cooldown_sec`, where a missing setting leaves what stood before.
unfoldable pub coerce_cooldown_sec : Setting → ℕ → ℕ
coerce_cooldown_sec missing default = default
coerce_cooldown_sec improper default = default
coerce_cooldown_sec (number n) default = n

pub data CooldownMode : Type 0 where
  duration day_boundary : CooldownMode

unfoldable pub coerce_cooldown_mode : String → CooldownMode → CooldownMode
coerce_cooldown_mode raw default =
    let text = lower (strip raw) in
    if text == "duration"
    then duration
    else if text == "day_boundary"
    then day_boundary
    else default

-- `extra` of the pool, then the environment, then the caller
unfoldable pub resolve_cooldown_settings :
    AccountPool
    → (env_sec : Setting) (env_mode : String) (sec : Setting) (mode : String) → ℕ × CooldownMode
resolve_cooldown_settings p env_sec env_mode sec mode = (
  coerce_cooldown_sec sec
      (coerce_cooldown_sec env_sec (coerce_cooldown_sec p.cooldown_sec (300 * second))),
  coerce_cooldown_mode mode
      (coerce_cooldown_mode env_mode (coerce_cooldown_mode p.cooldown_mode duration)),
)

unfoldable pub resolve_temp_cooldown_sec : AccountPool → (env_sec sec : Setting) → ℕ
resolve_temp_cooldown_sec p env_sec sec =
    coerce_cooldown_sec sec
      (coerce_cooldown_sec env_sec (coerce_cooldown_sec p.temp_cooldown_sec (60 * second)))

-- The settings that `select_account` works with
pub record Cooldowns : Type 0 where
  pub sec : ℕ
  pub mode : CooldownMode
  pub temp_sec : ℕ

unfoldable pub cooldown_until_iso : Host → ℕ → ℕ → CooldownMode → Until
cooldown_until_iso host now sec duration = at (now + sec)
cooldown_until_iso host now sec day_boundary = at (host.next_midnight now)

unfoldable pub passed : ℕ → Until → Bool
passed now (at t) = leb t now
passed now unreadable = true

unfoldable pub cooldown_over : ℕ → Account → Bool
cooldown_over now acc =
    same_state acc.state cooldown
    && (elim acc.cooldown_until [ none ↦ true | some until ↦ passed now until ])

unfoldable pub expire_cooldown : ℕ → Account → Account
unfolding cooldown_over
expire_cooldown now acc =
    if cooldown_over now acc then record acc { state = available; cooldown_until = none } else acc

-- The flag tells whether an account changed.
unfoldable pub expire_cooldowns : ℕ → AccountPool → AccountPool × Bool
expire_cooldowns now p = (
  record p { accounts = map (expire_cooldown now) p.accounts },
  any (cooldown_over now) p.accounts,
)

unfoldable pub pid_alive : Host → Option ℕ → Bool
pid_alive host none = false
pid_alive host (some pid) = ltb 0 pid && host.alive pid

abbrev pub clear_lease_fields : Account → Account
clear_lease_fields acc = record acc {
  lease_pid = none;
  lease_until = none;
  lease_id = none;
  lease_proc_start = none;
}

-- A date that cannot be read counts as none: then the process decides.
lease_over : Host → ℕ → Account → Bool
lease_over host now acc = elim acc.lease_until [
  | some (at t) ↦ leb t now
  | _ ↦ not (pid_alive host acc.lease_pid)
]

unfoldable pub is_stale : Host → ℕ → Account → Bool
unfolding lease_over
is_stale host now acc = same_state acc.state busy && lease_over host now acc

unfoldable pub expire_busy_lease : Host → ℕ → Account → Account
expire_busy_lease host now acc =
    if is_stale host now acc then record (clear_lease_fields acc) { state = available } else acc

-- `_drop_held_home_lease`
unfoldable pub drop_home : Host → String → List String → List String
drop_home host home held = keep (λ h. not (h == host.home_key home)) held

drop_stale_homes : Host → ℕ → List Account → List String → List String
drop_stale_homes host now [] held = held
drop_stale_homes host now (acc ∷ rest) held =
    drop_stale_homes host now rest
      (if is_stale host now acc then drop_home host acc.home held else held)

unfoldable pub expire_busy_leases : Host → ℕ → AccountPool → AccountPool × Bool
unfolding drop_stale_homes
expire_busy_leases host now p = (
  record p {
    accounts = map (expire_busy_lease host now) p.accounts;
    held_homes = drop_stale_homes host now p.accounts p.held_homes;
  },
  any (is_stale host now) p.accounts,
)

-- `mapping` of `apply_class_to_state`
unfoldable pub state_of_class : String → Option AccountState
state_of_class cls =
    if cls == "eligibility_blocked" || cls == "auth_invalid"
    then some unavailable
    else if cls == "quota_exhausted" || cls == "temporary_no_capacity" || cls == "rate_limit"
    then some cooldown
    else none

abbrev is_short : String → Bool
is_short cls = cls == "temporary_no_capacity" || cls == "rate_limit"

apply_state : Host → ℕ → Cooldowns → String → Account → AccountState → Account × Bool
apply_state host now cs cls acc cooldown =
    let short = cooldown_until_iso host now cs.temp_sec duration in
    let long = cooldown_until_iso host now cs.sec cs.mode in
    (
      record acc { state = cooldown; cooldown_until = some (if is_short cls then short else long) },
      true,
    )
apply_state host now cs cls acc s = (
  record acc { state = s; cooldown_until = none },
  not (same_state acc.state s) || (elim acc.cooldown_until [ none ↦ false | some _ ↦ true ]),
)

unfoldable pub apply_class_to_state : Host → ℕ → Cooldowns → String → Account → Account × Bool
unfolding apply_state
apply_class_to_state host now cs err_class acc =
    let cls = strip err_class in
    elim (state_of_class cls) [ none ↦ (acc, false) | some s ↦ apply_state host now cs cls acc s ]
