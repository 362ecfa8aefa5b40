-- ===== src/Completion/Budgeting.antt =====
-- The rework budget over a whole run.
use teleagent_collab.Common.{ℕ, ◌+◌, ◌≤◌, ◌≡◌, refl, false, List, [], ◌∷◌, arith, if◌then◌else◌}
use teleagent_collab.Completion.Rework.{ReworkBudget, start, consume_rework, clamp_subdeadline}

-- The calls of `consume_rework` at the given clock readings: how many succeed, and the budget left.
unfoldable pub consume_all : List ℕ → ReworkBudget → ℕ × ReworkBudget
consume_all [] b = (0, b)
consume_all (now ∷ rest) b =
    let (b', done) = consume_rework now b in
    let (n, last) = consume_all rest b' in (if done then n + 1 else n, last)

consume_one :
    (now : ℕ) (b : ReworkBudget)
    → let (b', done) = consume_rework now b in
      (b'.wall_deadline ≡ b.wall_deadline)
      × (b'.max_reworks ≡ b.max_reworks)
      × (b'.reworks_used ≡ b.reworks_used + (if done then 1 else 0))
      × (b.reworks_used ≤ b.max_reworks → b'.reworks_used ≤ b.max_reworks)
      × (b.wall_deadline ≤ now → done ≡ false)
unfolding consume_rework
consume_one now b = ground arith

consume_all_lem :
    (ts : List ℕ) (b : ReworkBudget)
    → b.reworks_used ≤ b.max_reworks
    → ((consume_all ts b).1.wall_deadline ≡ b.wall_deadline)
      × ((consume_all ts b).1.reworks_used ≡ b.reworks_used + (consume_all ts b).0)
      × ((consume_all ts b).1.reworks_used ≤ b.max_reworks)
unfolding consume_all
consume_all_lem [] b h = (refl, omega arith, h)
consume_all_lem (now ∷ rest) b h =
    let (wall, cap, used, within, _) = consume_one now b in
    let (wall', used', within') =
      consume_all_lem rest (consume_rework now b).0 (omega (arith, within h)) in
    ground (arith, within h)

-- Whatever the clock shows at each call, a started budget grants at most `max_reworks` reworks in
-- all, counts each of them, and keeps its wall deadline.
pub consume_all_bounded :
    (now timeout_sec max_reworks : ℕ) (ts : List ℕ)
    → let (granted, b) = consume_all ts (start now timeout_sec max_reworks) in
      (granted ≤ max_reworks) × (b.reworks_used ≡ granted) × (b.wall_deadline ≡ now + timeout_sec)
unfolding start
consume_all_bounded now timeout_sec max_reworks ts =
    let (wall, used, within) =
      consume_all_lem ts (start now timeout_sec max_reworks) (omega arith) in
    ground arith

-- From the deadline on no rework is granted, and a sub-deadline never lies past the deadline.
deadline_is_hard :
    (now extra : ℕ) (b : ReworkBudget)
    → ((b.wall_deadline ≤ now → (consume_rework now b).1 ≡ false)
        × (clamp_subdeadline now extra b ≤ b.wall_deadline))
unfolding clamp_subdeadline
deadline_is_hard now extra b = ((consume_one now b).4, omega arith)
