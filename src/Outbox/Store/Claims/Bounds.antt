-- ===== src/Outbox/Store/Claims/Bounds.antt =====
-- Which rows a claim takes.
use mathlib.Core.List.{Memᴰ}
use teleagent_collab.Common.{
  ℕ, zero, suc, ◌≡◌, Bool, true, List, [], ◌∷◌, string_eq, keep, length, min, arith,
}
use teleagent_collab.Outbox.Store.{Row}
use teleagent_collab.Outbox.Store.Claims.{is_claimable, claimed_row, claim_loop}

-- A claim takes as many rows as the limit and the rows that can be claimed allow: it never passes
-- the limit, and leaves no row behind that the limit has room for.
pub length-claim_loop :
    (ts : ℕ) (reclaim : Bool) (limit : ℕ) (rows : List Row)
    → length (claim_loop ts reclaim limit rows)
      ≡ min limit (length (keep (is_claimable reclaim) rows))
unfolding claim_loop keep
length-claim_loop ts reclaim zero [] = ground arith
length-claim_loop ts reclaim (suc n) [] = ground arith
length-claim_loop ts reclaim zero (r ∷ rs) = ground arith
length-claim_loop ts reclaim (suc n) (r ∷ rs) =
    ground (arith, length-claim_loop ts reclaim n rs, length-claim_loop ts reclaim (suc n) rs)

-- Where it comes from
abbrev pub IsClaimOf : ℕ → Bool → List Row → Row → Type 0
IsClaimOf ts reclaim rows q =
    (r : Row) × Memᴰ r rows × (is_claimable reclaim r ≡ true) × (q ≡ claimed_row ts r)

abbrev pub AllClaims : (Row → Type 0) → List Row → Type 0
AllClaims P [] = Unit
AllClaims P (q ∷ qs) = P q × AllClaims P qs
