-- ===== src/Limiter/Rate.antt =====
-- determineRate: the minimum of two limits where 0 means that there is none.
use center_agent.Prelude.{ℕ, ◌≤◌, ◌≡◌, ◌↔◌, ◌⊎◌, ◌||◌, arith, ltb, ◌==◌, nat_eq, if◌then◌else◌}

unfoldable pub determine_rate : ℕ → ℕ → ℕ
determine_rate node user =
    if node == 0 || user == 0
    then (if ltb user node then node else if ltb node user then user else 0)
    else if ltb user node
    then user
    else if ltb node user
    then node
    else node

-- The rate is 0 exactly when both limits are 0. Else it is one of the two limits, and no limit that
-- is set lies below it.
pub determine_rate_min :
    (node user : ℕ)
    → ((determine_rate node user ≡ 0) ↔ ((node ≡ 0) × (user ≡ 0)))
      × ((node ≡ 0) ⊎ (determine_rate node user ≤ node))
      × ((user ≡ 0) ⊎ (determine_rate node user ≤ user))
      × ((determine_rate node user ≡ node) ⊎ (determine_rate node user ≡ user))
unfolding determine_rate
determine_rate_min node user = (ground arith, ground arith, ground arith, ground arith)
