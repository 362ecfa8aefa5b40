-- ===== src/AgyPool/Leases.antt =====
-- execution_backend/agy_account_pool.py: the leases of busy accounts. An account object is its place
-- in the pool.
use Prim.Native.Nat.{◌/◌}
use teleagent_collab.Common.{
  ℕ, ◌+◌, ◌*◌, max, Bool, true, false, not, ◌&&◌, ◌||◌, Option, none, some, List, [], ◌∷◌, map,
  String, string_eq, nat_eq, ◌==◌, if◌then◌else◌, non_empty, nth, update_nth,
}
use teleagent_collab.AgyPool.{
  available, busy, same_state, at, Account, Host, AccountPool, second, Cooldowns, pid_alive,
  clear_lease_fields, drop_home, apply_class_to_state,
}

-- `_iso_now` writes no fraction of a second.
unfoldable pub iso_now : ℕ → ℕ
iso_now t = (t / second) * second

-- `reserve_account`, with the lease's length and a new lease id
unfoldable pub reserve_account :
    Host → (now lease_sec : ℕ) → (lease_id : String) → Account → Account
unfolding iso_now
reserve_account host now lease_sec lease_id acc = record acc {
  state = busy;
  lease_pid = some host.me;
  lease_until = some (at (iso_now (now + max second lease_sec)));
  lease_id = some lease_id;
  lease_proc_start = host.start_token host.me;
}

unfoldable pub given : Option String → Bool
given none = false
given (some s) = non_empty s

own_process : Host → Account → Bool
own_process host acc = elim acc.lease_pid [ none ↦ true | some pid ↦ pid == host.me ]

same_id : String → Option String → Bool
same_id l none = false
same_id l (some m) = l == m

-- `_owns_lease`
unfoldable pub owns_lease : Host → Account → Option String → Bool
unfolding given own_process same_id
owns_lease host acc none = own_process host acc
owns_lease host acc (some l) =
    if non_empty l && given acc.lease_id then same_id l acc.lease_id else own_process host acc

unfoldable pub released_account : Bool → Account → Account
released_account force acc =
    let freed : Account = record acc { state = available } in
    clear_lease_fields (if force || same_state acc.state busy then freed else acc)

-- `release_account_lease` on the account at a place
unfoldable pub release_account_lease :
    Host → (force : Bool) → (lease_id : Option String) → ℕ → AccountPool → AccountPool
unfolding released_account
release_account_lease host force lease_id i p = elim (nth i p.accounts) [
  | none ↦ p
  | some acc ↦ if not force && not (owns_lease host acc lease_id) then p else record p {
    accounts = update_nth i (released_account force) p.accounts;
    held_homes = drop_home host acc.home p.held_homes;
  }
]

pub data Gone : Type 0 where
  pid_dead pid_reused : Gone

-- The process number of a live process may belong to another by now.
reused : Host → ℕ → Option String → Option Gone
reused host pid none = none
reused host pid (some start) =
    if non_empty start && not host.is_windows
    then elim (host.start_token pid) [
      | none ↦ none
      | some current ↦ if current == start then none else some pid_reused
    ]
    else none

unfoldable pub lease_holder_gone : Host → Account → Option Gone
unfolding reused
lease_holder_gone host acc = elim acc.lease_pid [
  | none ↦ none
  | some pid ↦
      if pid_alive host (some pid) then reused host pid acc.lease_proc_start else some pid_dead
]

unfoldable pub holds_nothing : Option Bool → Bool
holds_nothing (some b) = b
holds_nothing none = false

unfoldable pub is_gone : Host → Account → Bool
is_gone host acc = elim (lease_holder_gone host acc) [ none ↦ false | some _ ↦ true ]

is_other : Host → Account → Bool
is_other host acc = elim acc.lease_pid [ none ↦ false | some pid ↦ not (pid == host.me) ]

-- The lease of a holder that died is taken back: another process's, that is gone, with its home free.
unfoldable pub is_reclaimed : Host → Account → Bool
unfolding holds_nothing is_gone is_other
is_reclaimed host acc =
    same_state acc.state busy
    && is_other host acc
    && is_gone host acc
    && holds_nothing (host.home_lock_free acc.home)

unfoldable pub reclaim : Host → Account → Account
reclaim host acc =
    let freed : Account = record acc { state = available } in
    if is_reclaimed host acc then clear_lease_fields freed else acc

reclaimed_ids : Host → List Account → List String
reclaimed_ids host [] = []
reclaimed_ids host (acc ∷ rest) =
    let ids = reclaimed_ids host rest in if is_reclaimed host acc then acc.id ∷ ids else ids

unfoldable pub reclaim_dead_leases : Host → AccountPool → AccountPool × List String
unfolding reclaim reclaimed_ids
reclaim_dead_leases host p =
    (record p { accounts = map (reclaim host) p.accounts }, reclaimed_ids host p.accounts)

has_lease : Account → Bool
has_lease acc =
    (elim acc.lease_pid [ none ↦ false | some _ ↦ true ])
    || (elim acc.lease_until [ none ↦ false | some _ ↦ true ])
    || given acc.lease_id

unfoldable pub after_result : Account → Account
unfolding has_lease
after_result acc =
    let freed : Account = record acc { state = available } in
    if same_state acc.state busy
    then clear_lease_fields freed
    else if has_lease acc
    then clear_lease_fields acc
    else acc

-- `apply_job_result_to_pool`, with the class of the result
unfoldable pub apply_job_result :
    Host
    → (now : ℕ) → Cooldowns
    → (cls : String) → (lease_id : Option String) → ℕ
    → AccountPool
    → AccountPool
unfolding after_result
apply_job_result host now cs cls lease_id i p = elim (nth i p.accounts) [
  | none ↦ p
  | some acc ↦
      if same_state acc.state busy && not (owns_lease host acc lease_id) then p else record p {
        accounts =
            update_nth i (λ a. after_result (apply_class_to_state host now cs cls a).0) p.accounts;
        held_homes = drop_home host acc.home p.held_homes;
      }
]
