-- ===== src/AgyPool/Choice.antt =====
-- The account that is selected, against an independent description of the accounts that can be.
use teleagent_collab.Common.{
  ℕ, ◌⊎◌, inl, inr, zero, suc, ◌≡◌, refl, sym, ap, ◌∙◌, subst, arith, Bool, true, false, not, ◌&&◌,
  Option, none, some, List, [], ◌∷◌, map, String, string_eq, nat_eq, leb, ◌==◌, contains, strip,
  nth, first_index, first_index-ext, first_index-map, nth-map,
}
use teleagent_collab.AgyPool.{
  available, busy, cooldown, same_state, rank, at, unreadable, passed, Account, Host, AccountPool,
  Cooldowns, expire_cooldowns, expire_busy_leases, apply_class_to_state, expire_cooldown,
  expire_busy_lease, cooldown_over, is_stale, lease_over, pid_alive, state_of_class,
}
use teleagent_collab.AgyPool.Selecting.{Precheck, normalize_precheck, select_loop, select_account}

-- Whether an account can be used at a time: it is available, or its cooldown has ended, or its lease
-- has, which without a date is when its process is gone.
abbrev pub usable : Host → ℕ → Account → Bool
usable host now acc = elim acc.state [
  | available ↦ true
  | cooldown ↦ elim acc.cooldown_until [ none ↦ true | some until ↦ passed now until ]
  | busy ↦ elim acc.lease_until [
    | none ↦ not (pid_alive host acc.lease_pid)
    | some until ↦ elim until [ at t ↦ leb t now | unreadable ↦ not (pid_alive host acc.lease_pid) ]
  ]
  | _ ↦ false
]

-- What an account is once what has ended is taken off
abbrev pub promoted : Host → ℕ → Account → Account
promoted host now acc = expire_busy_lease host now (expire_cooldown now acc)

abbrev pub passes : Option (Account → Precheck) → Account → Bool
passes none acc = true
passes (some check) acc = normalize_precheck (check acc) == "ok"

promoted-usable :
    (host : Host) (now : ℕ) (acc : Account)
    → same_state (promoted host now acc).state available ≡ usable host now acc
unfolding same_state rank expire_busy_lease is_stale lease_over expire_cooldown cooldown_over
promoted-usable host now acc = ground arith

select_loop-chosen :
    (host : Host) (now : ℕ) (cs : Cooldowns) (precheck : Option (Account → Precheck))
    (exclude : List String) (accs : List Account)
    → (select_loop host now cs precheck exclude accs).chosen
      ≡ first_index
          (λ acc.
            same_state acc.state available && not (contains exclude acc.id) && passes precheck acc)
          accs
unfolding select_loop first_index
select_loop-chosen host now cs precheck exclude [] = refl
select_loop-chosen host now cs none exclude (acc ∷ accs) =
    ground (arith, select_loop-chosen host now cs none exclude accs)
select_loop-chosen host now cs (some check) exclude (acc ∷ accs) =
    ground (arith, select_loop-chosen host now cs (some check) exclude accs)

promoted_id : (host : Host) (now : ℕ) (acc : Account) → (promoted host now acc).id ≡ acc.id
unfolding expire_busy_lease expire_cooldown
promoted_id host now acc = ground arith

-- Whether an account may be chosen
abbrev pub eligible : Host → ℕ → Option (Account → Precheck) → List String → Account → Bool
eligible host now precheck exclude acc =
    usable host now acc && not (contains exclude acc.id) && passes precheck (promoted host now acc)

-- `select_account` chooses the first account in the pool's order that can be used at the time, is
-- not excluded and passes the precheck, and none when there is no such account.
pub select_account-first :
    (host : Host) (now : ℕ) (cs : Cooldowns) (precheck : Option (Account → Precheck))
    (persist : Bool) (exclude : List String) (p : AccountPool)
    → (select_account host now cs precheck persist exclude p).chosen
      ≡ first_index (eligible host now precheck exclude) p.accounts
unfolding select_account expire_cooldowns expire_busy_leases
select_account-first host now cs precheck persist exclude p =
    let fresh = map (expire_cooldown now) p.accounts in
    let offered : Account → Bool = λ acc.
      same_state acc.state available && not (contains exclude acc.id) && passes precheck acc in
    select_loop-chosen host now cs precheck exclude (map (expire_busy_lease host now) fresh)
    ∙ first_index-map offered (expire_busy_lease host now) fresh
    ∙ first_index-map (λ acc. offered (expire_busy_lease host now acc)) (expire_cooldown now)
        p.accounts
    ∙ first_index-ext (λ acc. offered (promoted host now acc)) (eligible host now precheck exclude)
        p.accounts
        (λ acc.
          ground
            (arith, promoted-usable host now acc, ap (contains exclude) (promoted_id host now acc)))

==-eq : (s : String) → (s == "ok") ≡ true → s ≡ "ok"
==-eq s e = ground arith

ok_class :
    (host : Host) (now : ℕ) (cs : Cooldowns) (acc : Account)
    → (apply_class_to_state host now cs "ok" acc).0 ≡ acc
unfolding apply_class_to_state state_of_class strip string_eq
ok_class host now cs acc = refl

-- A precheck that passes changes nothing.
apply_class-ok :
    (host : Host) (now : ℕ) (cs : Cooldowns) (cls : String) (acc : Account)
    → (cls == "ok") ≡ true
    → (apply_class_to_state host now cs cls acc).0 ≡ acc
unfolding apply_class_to_state state_of_class
apply_class-ok host now cs cls acc e =
    subst (λ c. (apply_class_to_state host now cs c acc).0 ≡ acc) (sym (==-eq cls e))
      (ok_class host now cs acc)

-- The account that is chosen is left as it is.
select_loop-keeps :
    (host : Host) (now : ℕ) (cs : Cooldowns) (precheck : Option (Account → Precheck))
    (exclude : List String) (accs : List Account) (i : ℕ) (a : Account)
    → nth i accs ≡ some a
    → (not (same_state a.state available) ≡ true)
      ⊎ ((select_loop host now cs precheck exclude accs).chosen ≡ some i)
    → nth i (select_loop host now cs precheck exclude accs).accounts ≡ some a
unfolding select_loop nth
select_loop-keeps host now cs precheck exclude [] i a n h = cc
select_loop-keeps host now cs none exclude (acc ∷ accs) zero a n h = ground arith
select_loop-keeps host now cs (some check) exclude (acc ∷ accs) zero a n h =
    ground (arith, apply_class-ok host now cs (normalize_precheck (check acc)) acc)
select_loop-keeps host now cs none exclude (acc ∷ accs) (suc i) a n h =
    ground (arith, select_loop-keeps host now cs none exclude accs i a n)
select_loop-keeps host now cs (some check) exclude (acc ∷ accs) (suc i) a n h =
    ground (arith, select_loop-keeps host now cs (some check) exclude accs i a n)

-- What `select_account` leaves at the place of an account that cannot be used, or that it chooses
pub select_account-keeps :
    (host : Host) (now : ℕ) (cs : Cooldowns) (precheck : Option (Account → Precheck))
    (persist : Bool) (exclude : List String) (p : AccountPool) (i : ℕ) (a : Account)
    → nth i p.accounts ≡ some a
    → (usable host now a ≡ false)
      ⊎ ((select_account host now cs precheck persist exclude p).chosen ≡ some i)
    → nth i (select_account host now cs precheck persist exclude p).pool.accounts
      ≡ some (promoted host now a)
unfolding select_account expire_cooldowns expire_busy_leases
select_account-keeps host now cs precheck persist exclude p i a n h =
    let fresh = map (expire_cooldown now) p.accounts in
    let n1 = nth-map i (expire_cooldown now) p.accounts n in
    let n2 = nth-map i (expire_busy_lease host now) fresh n1 in
    select_loop-keeps host now cs precheck exclude (map (expire_busy_lease host now) fresh) i
      (promoted host now a) n2
      (elim h [ inl u ↦ inl (ap not (promoted-usable host now a ∙ u)) | inr c ↦ inr c ])
