-- ===== src/Worker/State.antt =====
-- worker/src/agentrl/worker/environment/state/local.py: which sessions use which container, in
-- memory. The locks and the renewals of this provider do nothing. The data of a session, which may be
-- anything, are what docker.py stores.
pub mod History
pub mod Counting
mod Tests
use agent_rl.Common.{
  ℕ, ◌+◌, Bool, true, false, Option, none, some, List, [], ◌∷◌, String, string_eq, beq, length, leb,
  ltb, contains, if◌then◌else◌,
}
use agent_rl.Worker.Provider.{SessionData}
use agent_rl.Common.Table.{Table, get, has, put, remove}

pub record LocalStateProvider : Type 0 where
  pub containers : Table String (List String)
  pub container_uses : Table String ℕ
  pub sessions : Table String SessionData

abbrev pub new_provider : LocalStateProvider
new_provider = record { containers = []; container_uses = []; sessions = [] }

-- A set as a list in which no member stands twice
abbrev pub add_member : String → List String → List String
add_member s xs = if contains xs s then xs else s ∷ xs

unfoldable pub discard : String → List String → List String
discard s [] = []
discard s (x ∷ xs) = let rest = discard s xs in if beq x s then rest else x ∷ rest

abbrev pub members : String → LocalStateProvider → List String
members c p = elim (get c p.containers) [ none ↦ [] | some xs ↦ xs ]

unfoldable pub container_total_uses : String → LocalStateProvider → ℕ
container_total_uses c p = elim (get c p.container_uses) [ none ↦ 0 | some n ↦ n ]

-- `none` is a KeyError at `self.containers[container_id]`.
unfoldable pub allocate_container : String → String → LocalStateProvider → Option LocalStateProvider
allocate_container c s p =
    let containers = if has c p.container_uses then p.containers else put c [] p.containers in
    elim (get c containers) [
      | none ↦ none
      | some xs ↦ some (record p {
        containers = put c (add_member s xs) containers;
        container_uses = put c (container_total_uses c p + 1) p.container_uses;
      })
    ]

unfoldable pub container_is_allocated : String → LocalStateProvider → Bool
container_is_allocated c p = elim (get c p.containers) [
  | none ↦ false
  | some xs ↦ ltb 0 (length xs)
]

unfoldable pub release_container : String → String → LocalStateProvider → LocalStateProvider
release_container c s p = elim (get c p.containers) [
  | none ↦ p
  | some xs ↦ record p { containers = put c (discard s xs) p.containers }
]

unfoldable pub container_current_uses : String → LocalStateProvider → ℕ
container_current_uses c p = length (members c p)

unfoldable pub containers_total_uses_gte : ℕ → Table String ℕ → List String
containers_total_uses_gte min_uses [] = []
containers_total_uses_gte min_uses ((c, uses) ∷ rest) =
    let found = containers_total_uses_gte min_uses rest in
    if leb min_uses uses then c ∷ found else found

unfoldable pub remove_container : String → LocalStateProvider → LocalStateProvider
remove_container c p = record p {
  containers = remove c p.containers;
  container_uses = remove c p.container_uses;
}

abbrev pub store_session : String → SessionData → LocalStateProvider → LocalStateProvider
store_session sid data_of p = record p { sessions = put sid data_of p.sessions }

abbrev pub get_session : String → LocalStateProvider → Option SessionData
get_session sid p = get sid p.sessions

abbrev pub delete_session : String → LocalStateProvider → LocalStateProvider
delete_session sid p = record p { sessions = remove sid p.sessions }
