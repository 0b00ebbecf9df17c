-- ===== src/Trainer/Balanced.antt =====
-- trainer/src/agentrl/trainer/agentic/data_provider.py: samples of several datasets in turn.
pub mod Reach
mod Tests
use agent_rl.Common.{
  ℕ, zero, suc, ◌%◌, ◌/◌, Option, none, some, List, [], ◌∷◌, map, length, get_elem?, ◌==◌,
  if◌then◌else◌,
}
use agent_rl.Common.Divides.{lcm}

-- `math.lcm(*sizes)`, which is 1 of no sizes.
unfoldable pub lcm_all : List ℕ → ℕ
lcm_all [] = 1
lcm_all (n ∷ ns) = lcm n (lcm_all ns)

-- `BalancedDataset.__len__`
unfoldable pub total_length : {A : Type 0} → List (List A) → ℕ
total_length datasets = lcm_all (map length datasets)

-- `dataset[i % len(dataset)]`; `none` is a ZeroDivisionError or an IndexError.
abbrev pub wrapped_item : {A : Type 0} → List A → ℕ → Option A
wrapped_item xs i = if length xs == 0 then none else get_elem? xs (i % length xs)

-- `BalancedDataset.__getitem__`
unfoldable pub getitem : {A : Type 0} → List (List A) → ℕ → Option A
getitem datasets item =
    let k = length datasets in
    if k == 0
    then none
    else elim (get_elem? datasets (item % k)) [ none ↦ none | some xs ↦ wrapped_item xs (item / k) ]
