-- ===== src/AgyPool/Exclusive.antt =====
-- Two runs never have one account at once, while its lease lasts.
use teleagent_collab.Common.{
  ℕ, ℕ_discrete, ◌<◌, ◌⊎◌, inl, inr, ◌≡◌, ◌≢◌, refl, sym, ap, ◌∙◌, arith, Bool, true, false, Option,
  none, some, List, [], ◌∷◌, String, string_eq, nat_eq, nth, update_nth, nth-map, nth-update_nth,
  first_index-holds, max, ◌+◌,
}
use teleagent_collab.AgyPool.{
  busy, same_state, rank, at, Account, Host, AccountPool, Cooldowns, expire_busy_lease, is_stale,
  lease_over, expire_cooldown, cooldown_over, second, apply_class_to_state,
}
use teleagent_collab.AgyPool.Leases.{
  iso_now, reserve_account, owns_lease, released_account, after_result, release_account_lease,
  lease_holder_gone, is_reclaimed, is_gone, holds_nothing, reclaim, reclaim_dead_leases,
  apply_job_result,
}
use teleagent_collab.AgyPool.Selecting.{Precheck, select_account}
use teleagent_collab.AgyPool.Choice.{
  usable, eligible, promoted, select_account-first, select_account-keeps,
}

-- `reserve_account` of the account that was chosen
abbrev pub reserve_at : Host → (now lease_sec : ℕ) → String → Option ℕ → AccountPool → AccountPool
reserve_at host now lease_sec lease_id none p = p
reserve_at host now lease_sec lease_id (some i) p = record p {
  accounts = update_nth i (reserve_account host now lease_sec lease_id) p.accounts;
}

-- What the entrances of the service do to the pool, one at a time. `prepare_dispatch` reclaims, then
-- selects once for each account whose home is locked elsewhere, and at last selects an account and
-- reserves it: `reclaims`, some `selects`, `dispatches`.
pub data Action : Type 0 where
  dispatches :
      (now : ℕ)
      → Cooldowns
      → Option (Account → Precheck)
      → (exclude : List String) → (lease_sec : ℕ) → (new_lease : String) → Action
  selects :
      (now : ℕ)
      → Cooldowns
      → Option (Account → Precheck)
      → (persist : Bool) → (exclude : List String) → Action
  frees : (lease_id : Option String) → ℕ → Action
  finishes : (now : ℕ) → Cooldowns → (cls : String) → (lease_id : Option String) → ℕ → Action
  reclaims : Action

unfoldable pub act : Host × Action → AccountPool → AccountPool
act (host, dispatches now cs precheck exclude lease_sec l) p =
    let s = select_account host now cs precheck true exclude p in
    reserve_at host now lease_sec l s.chosen s.pool
act (host, selects now cs precheck persist exclude) p =
    (select_account host now cs precheck persist exclude p).pool
act (host, frees l i) p = release_account_lease host false l i p
act (host, finishes now cs cls l i) p = apply_job_result host now cs cls l i p
act (host, reclaims) p = (reclaim_dead_leases host p).0

unfoldable pub run : List (Host × Action) → AccountPool → AccountPool
run [] p = p
run (a ∷ rest) p = run rest (act a p)

-- An account that is leased until a time
abbrev pub IsLeased : ℕ → Account → Type 0
IsLeased u a = (a.state ≡ busy) × (a.lease_until ≡ some (at u))

-- An action on the pool, where `a` stands at `i`, of somebody who does not own the lease of `a`,
-- before its end. Its holder is not found gone, or the lock of its home is held.
abbrev pub IsForeign : ℕ → ℕ → Account → Host × Action → Type 0
IsForeign i u a (host, dispatches now cs precheck exclude lease_sec l) = now < u
IsForeign i u a (host, selects now cs precheck persist exclude) = now < u
IsForeign i u a (host, frees l j) = (j ≢ i) ⊎ (owns_lease host a l ≡ false)
IsForeign i u a (host, finishes now cs cls l j) = (j ≢ i) ⊎ (owns_lease host a l ≡ false)
IsForeign i u a (host, reclaims) =
    (lease_holder_gone host a ≡ none) ⊎ (host.home_lock_free a.home ≡ some false)

unfoldable pub AreForeign : ℕ → ℕ → Account → List (Host × Action) → Type 0
AreForeign i u a [] = Unit
AreForeign i u a (x ∷ xs) = IsForeign i u a x × AreForeign i u a xs

leased-unusable :
    (host : Host) (now u : ℕ) (a : Account) → IsLeased u a → now < u → usable host now a ≡ false
leased-unusable host now u a (b, l) lt = ground arith

leased-promoted :
    (host : Host) (now u : ℕ) (a : Account) → IsLeased u a → now < u → promoted host now a ≡ a
unfolding expire_busy_lease is_stale lease_over expire_cooldown cooldown_over same_state rank
leased-promoted host now u a (b, l) lt = ground arith

-- A leased account is not chosen.
leased-unchosen :
    (host : Host) (now : ℕ) (cs : Cooldowns) (precheck : Option (Account → Precheck))
    (persist : Bool) (exclude : List String) (p : AccountPool) (i u : ℕ) (a : Account)
    → nth i p.accounts ≡ some a
    → IsLeased u a
    → now < u
    → (select_account host now cs precheck persist exclude p).chosen ≢ some i
leased-unchosen host now cs precheck persist exclude p i u a n l lt c =
    let e =
      first_index-holds (eligible host now precheck exclude) p.accounts i a
        (sym (select_account-first host now cs precheck persist exclude p) ∙ c) n in
    ground (arith, leased-unusable host now u a l lt, e)

reserve_at-keeps :
    (host : Host) (now lease_sec : ℕ) (l : String) (o : Option ℕ) (p : AccountPool) (i : ℕ)
    (a : Account)
    → nth i p.accounts ≡ some a
    → o ≢ some i
    → nth i (reserve_at host now lease_sec l o p).accounts ≡ some a
reserve_at-keeps host now lease_sec l none p i a n d = n
reserve_at-keeps host now lease_sec l (some j) p i a n d =
    nth-update_nth j i (reserve_account host now lease_sec l) p.accounts a n ∙ ground (arith, d)

release-keeps :
    (host : Host) (l : Option String) (j : ℕ) (p : AccountPool) (i : ℕ) (a : Account)
    → nth i p.accounts ≡ some a
    → (j ≢ i) ⊎ (owns_lease host a l ≡ false)
    → nth i (release_account_lease host false l j p).accounts ≡ some a
unfolding release_account_lease
release-keeps host l j p i a n (inl d) =
    ground (arith, d, nth-update_nth j i (released_account false) p.accounts a n)
release-keeps host l j p i a n (inr o) =
    let at_j : j ≡ i → nth j p.accounts ≡ some a = λ e. ap (λ k. nth k p.accounts) e ∙ n in
    elim (ℕ_discrete j i) [
      | yes e ↦ ground (arith, at_j e, nth-update_nth j i (released_account false) p.accounts a n)
      | no d ↦ ground (arith, d, nth-update_nth j i (released_account false) p.accounts a n)
    ]

finish-keeps :
    (host : Host) (now : ℕ) (cs : Cooldowns) (cls : String) (l : Option String) (j : ℕ)
    (p : AccountPool) (i : ℕ) (a : Account)
    → nth i p.accounts ≡ some a
    → a.state ≡ busy
    → (j ≢ i) ⊎ (owns_lease host a l ≡ false)
    → nth i (apply_job_result host now cs cls l j p).accounts ≡ some a
unfolding apply_job_result same_state rank
finish-keeps host now cs cls l j p i a n b (inl d) = ground (
  arith,
  d,
  nth-update_nth j i (λ b. after_result (apply_class_to_state host now cs cls b).0) p.accounts a n,
)
finish-keeps host now cs cls l j p i a n b (inr o) =
    let at_j : j ≡ i → nth j p.accounts ≡ some a = λ e. ap (λ k. nth k p.accounts) e ∙ n in
    elim (ℕ_discrete j i) [
      | yes e ↦ ground (
        arith,
        at_j e,
        nth-update_nth j i (λ b. after_result (apply_class_to_state host now cs cls b).0) p.accounts
            a n,
      )
      | no d ↦ ground (
        arith,
        d,
        nth-update_nth j i (λ b. after_result (apply_class_to_state host now cs cls b).0) p.accounts
            a n,
      )
    ]

reclaim-keeps :
    (host : Host) (a : Account)
    → (lease_holder_gone host a ≡ none) ⊎ (host.home_lock_free a.home ≡ some false)
    → reclaim host a ≡ a
unfolding reclaim is_reclaimed is_gone holds_nothing
reclaim-keeps host a h = ground arith

act-keeps :
    (x : Host × Action) (p : AccountPool) (i u : ℕ) (a : Account)
    → nth i p.accounts ≡ some a
    → IsLeased u a
    → IsForeign i u a x
    → nth i (act x p).accounts ≡ some a
unfolding act reclaim_dead_leases
act-keeps (host, dispatches now cs precheck exclude lease_sec l) p i u a n h lt =
    let s = select_account host now cs precheck true exclude p in
    reserve_at-keeps host now lease_sec l s.chosen s.pool i a
      (select_account-keeps host now cs precheck true exclude p i a n
          (inl (leased-unusable host now u a h lt))
        ∙ ap some (leased-promoted host now u a h lt))
      (leased-unchosen host now cs precheck true exclude p i u a n h lt)
act-keeps (host, selects now cs precheck persist exclude) p i u a n h lt =
    select_account-keeps host now cs precheck persist exclude p i a n
      (inl (leased-unusable host now u a h lt))
    ∙ ap some (leased-promoted host now u a h lt)
act-keeps (host, frees l j) p i u a n h o = release-keeps host l j p i a n o
act-keeps (host, finishes now cs cls l j) p i u a n h o =
    finish-keeps host now cs cls l j p i a n h.0 o
act-keeps (host, reclaims) p i u a n h g =
    nth-map i (reclaim host) p.accounts n ∙ ap some (reclaim-keeps host a g)

run-keeps :
    (xs : List (Host × Action)) (p : AccountPool) (i u : ℕ) (a : Account)
    → nth i p.accounts ≡ some a
    → IsLeased u a
    → AreForeign i u a xs
    → nth i (run xs p).accounts ≡ some a
unfolding run AreForeign
run-keeps [] p i u a n h f = n
run-keeps (x ∷ xs) p i u a n h (f, fs) =
    run-keeps xs (act x p) i u a (act-keeps x p i u a n h f) h fs

reserved-IsLeased :
    (host : Host) (now lease_sec : ℕ) (l : String) (a : Account)
    → IsLeased (iso_now (now + max second lease_sec)) (reserve_account host now lease_sec l a)
unfolding reserve_account
reserved-IsLeased host now lease_sec l a = (refl, refl)

dispatched :
    (host : Host) (now : ℕ) (cs : Cooldowns) (precheck : Option (Account → Precheck))
    (exclude : List String) (lease_sec : ℕ) (l : String) (p : AccountPool) (i : ℕ) (a : Account)
    → (select_account host now cs precheck true exclude p).chosen ≡ some i
    → nth i p.accounts ≡ some a
    → nth i (act (host, dispatches now cs precheck exclude lease_sec l) p).accounts
      ≡ some (reserve_account host now lease_sec l (promoted host now a))
unfolding act
dispatched host now cs precheck exclude lease_sec l p i a c n =
    let s = select_account host now cs precheck true exclude p in
    let kept = select_account-keeps host now cs precheck true exclude p i a n (inr c) in
    ap (λ o. nth i (reserve_at host now lease_sec l o s.pool).accounts) c
    ∙ nth-update_nth i i (reserve_account host now lease_sec l) s.pool.accounts
        (promoted host now a) kept
    ∙ ground arith

-- An account that a host selects and reserves stays leased to it, with the same fields, whatever
-- other entrances do before the lease's end (in whole seconds): they select and dispatch, free or
-- finish leases that are not theirs, and reclaim dead leases, while a reclaim does not find the
-- lease's holder gone, or finds the lock of the account's home held. None of them selects the
-- account.
pub lease_is_exclusive :
    (host : Host) (now : ℕ) (cs : Cooldowns) (precheck : Option (Account → Precheck))
    (exclude : List String) (lease_sec : ℕ) (l : String) (p : AccountPool) (i : ℕ) (a : Account)
    → (select_account host now cs precheck true exclude p).chosen ≡ some i
    → nth i p.accounts ≡ some a
    → (xs : List (Host × Action))
    → AreForeign i
        (iso_now (now + max second lease_sec))
        (reserve_account host now lease_sec l (promoted host now a))
        xs
    → (other : Host) (later : ℕ) (c : Cooldowns) (check : Option (Account → Precheck))
      (ex : List String)
    → later < iso_now (now + max second lease_sec)
    → let q = run xs (act (host, dispatches now cs precheck exclude lease_sec l) p) in
      (nth i q.accounts ≡ some (reserve_account host now lease_sec l (promoted host now a)))
      × ((select_account other later c check true ex q).chosen ≢ some i)
lease_is_exclusive host now cs precheck exclude lease_sec l p i a c n xs f other later c' check ex
      lt =
    let reserved = reserve_account host now lease_sec l (promoted host now a) in
    let u = iso_now (now + max second lease_sec) in
    let p' = act (host, dispatches now cs precheck exclude lease_sec l) p in
    let kept =
      run-keeps xs p' i u reserved (dispatched host now cs precheck exclude lease_sec l p i a c n)
        (reserved-IsLeased host now lease_sec l (promoted host now a)) f in
    (
      kept,
      leased-unchosen other later c' check true ex (run xs p') i u reserved kept
          (reserved-IsLeased host now lease_sec l (promoted host now a)) lt,
    )
