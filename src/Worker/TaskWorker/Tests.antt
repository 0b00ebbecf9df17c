-- ===== src/Worker/TaskWorker/Tests.antt =====
-- A worker with room for two samples that runs one.
use agent_rl.Common.{nat_eq, ◌≤◌, ◌≡◌, ◌↔◌, refl, true, false, none, some, [], ◌∷◌, ◌++◌, length}
use agent_rl.Common.Int.{pos}
use agent_rl.Common.Table.{get, has, put}
use agent_rl.Worker.Session.{
  SampleStatus, SampleIndex, number, chat, rewarded, RewardHistoryItem, TaskOutput,
}
use agent_rl.Worker.TaskWorker.{
  agent_cancelled, TaskWorker, ok, start_sample, new_running, marked, cancel_end, response_content,
}
use agent_rl.Worker.TaskWorker.Sessions.{
  here, next, starts, capacity, cancel_leaks, after_end, settled,
}
use agent_rl.Worker.TaskWorker.Responses.{response_carries, chats}

abbrev idle : TaskWorker
idle = record { session_map = []; concurrency = 2; full_async = false; notices = [] }

abbrev index : SampleIndex
index = number (pos 3)

abbrev busy : TaskWorker
busy = record idle { session_map = (7, new_running 7 index none) ∷ [] }

admitted : start_sample 7 index none idle ≡ ok busy
unfolding start_sample has get put
admitted = refl

capacity_example : length busy.session_map ≤ 2
capacity_example = capacity {f = false} {w = busy} (next here (starts 7 index none admitted))

abbrev stopping : TaskWorker
stopping = record busy { session_map = (7, marked (new_running 7 index none)) ∷ [] }

has_seven : has 7 stopping.session_map ≡ true
unfolding has get
has_seven = refl

cancel_leaks_example :
    (has 7
        (settled
          (cancel_end 7 true agent_cancelled (after_end 7 index [] agent_cancelled stopping))
          (after_end 7 index [] agent_cancelled stopping)).session_map
      ≡ true)
    ↔ (agent_cancelled ≡ agent_cancelled)
cancel_leaks_example = cancel_leaks 7 index [] true agent_cancelled stopping refl has_seven

abbrev earned : RewardHistoryItem
earned = record { reward = pos 1; metrics = "{}" }

abbrev sent : TaskOutput
sent = record {
  index = some index;
  status = SampleStatus.running;
  result = none;
  history = chat "old" ∷ chat "a" ∷ rewarded earned ∷ chat "b" ∷ [];
  history_ptr = 1;
}

response_carries_example :
    ((response_content sent).messages ≡ chats (chat "a" ∷ []) ++ "b" ∷ [])
    × ((response_content sent).reward ≡ pos 1)
    × ((response_content sent).metric ≡ "{}")
response_carries_example =
    response_carries sent (chat "old" ∷ []) (chat "a" ∷ []) earned ("b" ∷ []) refl refl
