-- ===== src/Trainer/Balanced/Tests.antt =====
-- Two datasets of three samples each.
use agent_rl.Common.{ℕ, ◌≡◌, refl, some, List, [], ◌∷◌, arith, All}
use agent_rl.Trainer.Balanced.{getitem, total_length, lcm_all}
use agent_rl.Trainer.Balanced.Reach.{getitem_reaches}

abbrev two : List (List ℕ)
two = (10 ∷ 11 ∷ 12 ∷ []) ∷ (20 ∷ 21 ∷ 22 ∷ []) ∷ []

getitem_reaches_example : ((a : ℕ) × (getitem two 7 ≡ some a)) × (getitem two 5 ≡ some 22)
getitem_reaches_example =
    getitem_reaches two 7 1 2 (20 ∷ 21 ∷ 22 ∷ []) 22 (omega arith) (omega arith, (omega arith, tt))
      refl refl

-- The last index is 2: of the six samples, three are never used.
short : total_length two ≡ 3
unfolding total_length lcm_all agent_rl.Common.Divides.lcm agent_rl.Common.Divides.gcd
short = refl
