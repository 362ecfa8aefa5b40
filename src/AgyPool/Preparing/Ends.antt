-- ===== src/AgyPool/Preparing/Ends.antt =====
-- How many rounds the loop needs.
use teleagent_collab.Common.{
  ℕ, nth-map, nth-map_inv, zero, suc, ◌≤◌, ◌<◌, ◌≡◌, refl, sym, ap, ◌∙◌, arith, Bool, true, false,
  Option, none, some, List, [], ◌∷◌, map, String, string_eq, if◌then◌else◌, contains, length, nth,
  Result, first_index-holds,
}
use teleagent_collab.AgyPool.{
  Account, Host, AccountPool, Cooldowns, expire_cooldowns, expire_busy_leases, expire_cooldown,
  expire_busy_lease, apply_class_to_state, apply_state,
}
use teleagent_collab.AgyPool.Leases.{reclaim_dead_leases}
use teleagent_collab.AgyPool.Selecting.{Precheck, select_loop, select_account, normalize_precheck}
use teleagent_collab.AgyPool.Choice.{eligible, select_account-first}
use teleagent_collab.AgyPool.Preparing.{
  PrepareError, Prepared, prepare, prepare_picked, HomeLock, Round, Picked, picked, after_lock,
  chosen_account, pick,
}

abbrev ids : List Account → List String
ids accs = map (λ (a : Account). a.id) accs

-- How many names are not excluded
unfoldable left : List String → List String → ℕ
left leased [] = 0
left leased (x ∷ xs) = let n = left leased xs in if contains leased x then n else suc n

left-le : (x : String) (leased xs : List String) → left (x ∷ leased) xs ≤ left leased xs
unfolding left
left-le x leased [] = omega arith
left-le x leased (y ∷ ys) = ground (arith, left-le x leased ys)

left-lt :
    (x : String) (leased xs : List String) (i : ℕ)
    → nth i xs ≡ some x
    → contains leased x ≡ false
    → left (x ∷ leased) xs < left leased xs
unfolding left nth
left-lt x leased [] i n c = cc
left-lt x leased (y ∷ ys) zero n c = ground (arith, left-le x leased ys)
left-lt x leased (y ∷ ys) (suc i) n c = ground (arith, left-lt x leased ys i n c)

apply_class_id :
    (host : Host) (now : ℕ) (cs : Cooldowns) (cls : String) (a : Account)
    → (apply_class_to_state host now cs cls a).0.id ≡ a.id
unfolding apply_class_to_state apply_state
apply_class_id host now cs cls a = ground arith

ids-select_loop :
    (host : Host) (now : ℕ) (cs : Cooldowns) (check : Option (Account → Precheck))
    (exclude : List String) (accs : List Account)
    → ids (select_loop host now cs check exclude accs).accounts ≡ ids accs
unfolding select_loop
ids-select_loop host now cs check exclude [] = refl
ids-select_loop host now cs none exclude (a ∷ accs) =
    ground (arith, ids-select_loop host now cs none exclude accs)
ids-select_loop host now cs (some f) exclude (a ∷ accs) = ground (
  arith,
  ids-select_loop host now cs (some f) exclude accs,
  apply_class_id host now cs (normalize_precheck (f a)) a,
)

ids-map :
    (g : Account → Account) (accs : List Account)
    → ((a : Account) → (g a).id ≡ a.id)
    → ids (map g accs) ≡ ids accs
ids-map g [] h = refl
ids-map g (a ∷ accs) h = ground (arith, h a, ids-map g accs h)

ids-select_account :
    (host : Host) (now : ℕ) (cs : Cooldowns) (check : Option (Account → Precheck)) (persist : Bool)
    (exclude : List String) (p : AccountPool)
    → ids (select_account host now cs check persist exclude p).pool.accounts ≡ ids p.accounts
unfolding select_account expire_cooldowns expire_busy_leases expire_cooldown expire_busy_lease
ids-select_account host now cs check persist exclude p =
    let fresh = map (expire_cooldown now) p.accounts in
    ids-select_loop host now cs check exclude (map (expire_busy_lease host now) fresh)
    ∙ ids-map (expire_busy_lease host now) fresh (λ a. ground arith)
    ∙ ids-map (expire_cooldown now) p.accounts (λ a. ground arith)

-- The account that is chosen was not excluded.
chosen_not_excluded :
    (host : Host) (now : ℕ) (cs : Cooldowns) (check : Option (Account → Precheck)) (persist : Bool)
    (exclude : List String) (p : AccountPool) (i : ℕ) (x : String)
    → (select_account host now cs check persist exclude p).chosen ≡ some i
    → nth i (ids p.accounts) ≡ some x
    → contains exclude x ≡ false
chosen_not_excluded host now cs check persist exclude p i x c n =
    let (a, at_i, e) = nth-map_inv i (λ (a : Account). a.id) p.accounts n in
    let ok_a =
      first_index-holds (eligible host now check exclude) p.accounts i a
        (sym (select_account-first host now cs check persist exclude p) ∙ c) at_i in
    ground (arith, ok_a, ap (contains exclude) e)

abbrev ended : Option Picked → Bool
ended none = false
ended (some _) = true

after_lock-ended :
    (h : HomeLock) (i : ℕ) (leased : List String) (p : AccountPool) (blocked : Option Picked)
    → ended blocked ≡ true
    → ended (after_lock h i leased p blocked) ≡ true
unfolding after_lock
after_lock-ended h i leased p blocked e = ground arith

chosen_account_inv :
    (o : Option ℕ) (accs : List Account) (i : ℕ) (a : Account)
    → chosen_account o accs ≡ some (i, a)
    → (o ≡ some i) × (nth i accs ≡ some a)
unfolding chosen_account
chosen_account_inv none accs i a e = cc
chosen_account_inv (some j) accs i a e = ground arith

round_ended :
    (h : String → HomeLock) (leased : List String) (p : AccountPool)
    (blocked : ℕ × Account → Option Picked) (o : Option (ℕ × Account))
    → ((c : ℕ × Account) → o ≡ some c → ended (blocked c) ≡ true)
    → ended (elim o [
      | none ↦ some (picked p leased none false)
      | some c ↦ after_lock (h c.1.home) c.0 leased p (blocked c)
    ])
      ≡ true
round_ended h leased p blocked none e = refl
round_ended h leased p blocked (some c) e =
    after_lock-ended (h c.1.home) c.0 leased p (blocked c) (e c refl)

pick-ended :
    (host : Host) (cs : Cooldowns) (check : Option (Account → Precheck)) (rounds : ℕ → Round)
    (fuel : ℕ) (leased : List String) (p : AccountPool)
    → left leased (ids p.accounts) < fuel
    → ended (pick host cs check rounds fuel leased p) ≡ true
unfolding pick
pick-ended host cs check rounds zero leased p lt = absurd (omega (arith, lt))
pick-ended host cs check rounds (suc fuel) leased p lt =
    let s = select_account host (rounds fuel).now cs check false leased p in
    let same_ids = ids-select_account host (rounds fuel).now cs check false leased p in
    round_ended (rounds fuel).try_home leased s.pool
      (λ (c : ℕ × Account). pick host cs check rounds fuel (c.1.id ∷ leased) s.pool)
      (chosen_account s.chosen s.pool.accounts)
      (λ c e.
        let (chosen, at_i) = chosen_account_inv s.chosen s.pool.accounts c.0 c.1 e in
        let n = nth-map c.0 (λ (a : Account). a.id) s.pool.accounts at_i in
        let n' = ap (nth c.0) (sym same_ids) ∙ n in
        let fresh =
          chosen_not_excluded host (rounds fuel).now cs check false leased p c.0 c.1.id chosen n' in
        pick-ended host cs check rounds fuel (c.1.id ∷ leased) s.pool (
          omega (
            arith,
            lt,
            left-lt c.1.id leased (ids p.accounts) c.0 n' fresh,
            ap (left (c.1.id ∷ leased)) same_ids,
          )))

left-length : (leased xs : List String) → left leased xs ≤ length xs
unfolding left
left-length leased [] = omega arith
left-length leased (x ∷ xs) = ground (arith, left-length leased xs)

length-ids : (accs : List Account) → length (ids accs) ≡ length accs
length-ids [] = refl
length-ids (a ∷ accs) = ap suc (length-ids accs)

result_of : (o : Option Picked) → ended o ≡ true → (k : Picked) × (o ≡ some k)
result_of none e = cc
result_of (some k) e = (k, refl)

pick-ends :
    (host : Host) (cs : Cooldowns) (check : Option (Account → Precheck)) (rounds : ℕ → Round)
    (p : AccountPool)
    → (k : Picked) × (pick host cs check rounds (suc (length p.accounts)) [] p ≡ some k)
pick-ends host cs check rounds p =
    result_of (pick host cs check rounds (suc (length p.accounts)) [] p) (
      pick-ended host cs check rounds (suc (length p.accounts)) [] p
        (omega (arith, left-length [] (ids p.accounts), length-ids p.accounts)))

-- Whatever the clock and the locks of the homes answer, preparing a dispatch returns an account or
-- an error: as many rounds as the pool has accounts, and one more, are enough.
pub prepare-ends :
    (host : Host) (cs : Cooldowns) (check : Option (Account → Precheck)) (rounds : ℕ → Round)
    (now lease_sec : ℕ) (lease_id : String) (persist : Bool) (p : AccountPool)
    → (r : Result PrepareError Prepared) × (prepare host cs check rounds now lease_sec lease_id
          persist p
        ≡ some r)
unfolding prepare
prepare-ends host cs check rounds now lease_sec lease_id persist p =
    let (q, reclaimed) = reclaim_dead_leases host p in
    let (k, e) = pick-ends host cs check rounds q in
    (
      prepare_picked host now lease_sec lease_id persist reclaimed k,
      ap
          (λ o. elim o as (λ _. Option (Result PrepareError Prepared)) [
            | none ↦ none
            | some j ↦ some (prepare_picked host now lease_sec lease_id persist reclaimed j)
          ])
          e,
    )
