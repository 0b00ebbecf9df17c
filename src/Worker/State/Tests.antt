-- ===== src/Worker/State/Tests.antt =====
-- One container that two sessions take, of which one gives it back.
use agent_rl.Common.{◌≡◌, ◌↔◌, refl, true, some, List, [], ◌∷◌, String, string_eq, contains}
use agent_rl.Worker.State.{
  LocalStateProvider, members, container_total_uses, container_is_allocated,
  containers_total_uses_gte, container_current_uses, discard, allocate_container, release_container,
}
use agent_rl.Worker.State.History.{
  Call, allocate, release, replay, holds, allocations, replay_lem, apply,
}
use agent_rl.Common.Table.{get, has, put}

abbrev calls : List Call
calls = release "box" "a" ∷ allocate "box" "b" ∷ allocate "box" "a" ∷ []

replay_lem_example :
    (p : LocalStateProvider) × (replay calls ≡ some p)
    × ((c s : String) → contains (members c p) s ≡ holds c s calls)
    × ((c : String)
        → (container_is_allocated c p ≡ true) ↔ ((s : String) × (holds c s calls ≡ true)))
    × ((c : String) → container_total_uses c p ≡ allocations c calls)
replay_lem_example = replay_lem calls

abbrev end_state : LocalStateProvider
end_state = record {
  containers = ("box", "b" ∷ []) ∷ [];
  container_uses = ("box", 2) ∷ [];
  sessions = [];
}

after_calls : replay calls ≡ some end_state
unfolding replay apply allocate_container release_container discard container_total_uses get has put
after_calls = refl

used_twice : containers_total_uses_gte 2 end_state.container_uses ≡ "box" ∷ []
unfolding containers_total_uses_gte
used_twice = refl

used_now : container_current_uses "box" end_state ≡ 1
unfolding container_current_uses get
used_now = refl
