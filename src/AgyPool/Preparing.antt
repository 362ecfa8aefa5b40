-- ===== src/AgyPool/Preparing.antt =====
-- execution_backend/agy_account_pool.py: `prepare_antigravity_environ_from_pool` under the switch
-- lock, without the child's environment and the pool's file. The clock and the locks of the homes may
-- answer otherwise in every round.
pub mod Ends
use teleagent_collab.Common.{
  ℕ, zero, suc, ◌+◌, ◌≤◌, ◌<◌, ◌≡◌, ◌≢◌, refl, sym, ap, ◌∙◌, subst, arith, Bool, true, false, not,
  ◌&&◌, ◌||◌, Option, none, some, List, [], ◌∷◌, map, String, string_eq, ◌==◌, if◌then◌else◌,
  contains, keep, length, nth, update_nth, Result, err, ok, max, first_index, first_index-holds,
}
use teleagent_collab.AgyPool.{
  AccountState, available, Account, Host, AccountPool, Cooldowns, drop_home, expire_cooldowns,
  expire_busy_leases, expire_cooldown, expire_busy_lease, apply_class_to_state,
}
use teleagent_collab.AgyPool.Leases.{reserve_account, reclaim_dead_leases, reclaim}
use teleagent_collab.AgyPool.Selecting.{
  Precheck, Choice, select_loop, Selected, select_account, normalize_precheck,
}
use teleagent_collab.AgyPool.Choice.{usable, eligible, promoted, select_account-first}

-- What the attempt to lock a home gives: the lock, that another holds it, or any other exception.
pub data HomeLock : Type 0 where
  locked held_elsewhere no_lock : HomeLock

-- What the rounds of the loop ask
pub record Round : Type 0 where
  pub now : ℕ
  pub try_home : String → HomeLock

pub record Picked : Type 0 where
  pub pool : AccountPool
  pub leased : List String
  pub chosen : Option ℕ
  pub holds_home : Bool

picked : AccountPool → List String → Option ℕ → Bool → Picked
picked p leased chosen holds = record {
  pool = p;
  leased = leased;
  chosen = chosen;
  holds_home = holds;
}

after_lock : HomeLock → ℕ → List String → AccountPool → (blocked : Option Picked) → Option Picked
unfolding picked
after_lock locked i leased p blocked = some (picked p leased (some i) true)
after_lock no_lock i leased p blocked = some (picked p leased (some i) false)
after_lock held_elsewhere i leased p blocked = blocked

-- The place that was chosen, with its account
chosen_account : Option ℕ → List Account → Option (ℕ × Account)
chosen_account none accs = none
chosen_account (some i) accs = elim (nth i accs) [ none ↦ none | some acc ↦ some (i, acc) ]

-- The loop `while True`, for a number of rounds; `none` when they do not end it.
unfoldable pub pick :
    Host
    → Cooldowns
    → Option (Account → Precheck)
    → (ℕ → Round)
    → (fuel : ℕ) → (leased : List String) → AccountPool
    → Option Picked
unfolding after_lock chosen_account picked
pick host cs check rounds zero leased p = none
pick host cs check rounds (suc fuel) leased p =
    let s = select_account host (rounds fuel).now cs check false leased p in
    elim (chosen_account s.chosen s.pool.accounts) [
      | none ↦ some (picked s.pool leased none false)
      | some c ↦
          after_lock ((rounds fuel).try_home c.1.home) c.0 leased s.pool
            (pick host cs check rounds fuel (c.1.id ∷ leased) s.pool)
    ]

pub data PrepareError : Type 0 where
  homes_leased : List String → PrepareError
  none_available : PrepareError

pub record Prepared : Type 0 where
  pub pool : AccountPool
  pub profile : Option String
  pub holds_home : Bool
  pub reclaimed : List String

-- `_retain_home_lease`, when the lock was taken and is kept
retain : Host → Bool → Option Account → List String → List String
retain host false acc held = held
retain host true none held = held
retain host true (some acc) held = host.home_key acc.home ∷ drop_home host acc.home held

reserve_picked :
    Host
    → (now lease_sec : ℕ) → (lease_id : String) → (persist : Bool) → List String
    → Picked
    → ℕ
    → Prepared
unfolding retain
reserve_picked host now lease_sec lease_id persist reclaimed k i =
    let p = k.pool in
    let acc = nth i p.accounts in
    record {
      pool = record p {
        accounts = update_nth i (reserve_account host now lease_sec lease_id) p.accounts;
        held_homes = retain host (persist && k.holds_home) acc p.held_homes;
      };
      profile = elim acc [ none ↦ none | some a ↦ some a.id ];
      holds_home = persist && k.holds_home;
      reclaimed = reclaimed;
    }

prepare_picked :
    Host
    → (now lease_sec : ℕ) → (lease_id : String) → (persist : Bool) → List String
    → Picked
    → Result PrepareError Prepared
unfolding reserve_picked
prepare_picked host now lease_sec lease_id persist reclaimed k = elim k.chosen [
  | some i ↦ ok (reserve_picked host now lease_sec lease_id persist reclaimed k i)
  | none ↦ elim k.leased [ [] ↦ err none_available | ids ↦ err (homes_leased ids) ]
]

-- The pool that was loaded; the loop is given a round for each account and one more.
unfoldable pub prepare :
    Host
    → Cooldowns
    → Option (Account → Precheck)
    → (ℕ → Round)
    → (now lease_sec : ℕ) → (lease_id : String) → (persist : Bool) → AccountPool
    → Option (Result PrepareError Prepared)
unfolding prepare_picked
prepare host cs check rounds now lease_sec lease_id persist p =
    let (p', reclaimed) = reclaim_dead_leases host p in
    elim (pick host cs check rounds (suc (length p'.accounts)) [] p') [
      | none ↦ none
      | some k ↦ some (prepare_picked host now lease_sec lease_id persist reclaimed k)
    ]
