-- ===== src/Worker/TaskWorker/Responses.antt =====
-- What a response carries of the history that the task handed over.
use agent_rl.Common.{◌≡◌, ◌∙◌, refl, ap, List, [], ◌∷◌, ◌++◌, map, String, length, drop}
use mathlib.Core.Path.{ap₂}
use agent_rl.Worker.Session.{HistoryItem, chat, rewarded, RewardHistoryItem, TaskOutput}
use agent_rl.Worker.TaskWorker.{split_history, last_reward, response_content}

abbrev pub chats : List HistoryItem → List String
chats h = (split_history h).0

split-chats : (ms : List String) → split_history (map chat ms) ≡ (ms, [])
unfolding split_history
split-chats [] = refl
split-chats (m ∷ ms) = rw (split-chats ms) refl

split-append :
    (xs ys : List HistoryItem)
    → split_history (xs ++ ys)
      ≡ ((split_history xs).0 ++ (split_history ys).0, (split_history xs).1 ++ (split_history ys).1)
unfolding split_history
split-append [] ys = refl
split-append (chat m ∷ xs) ys = rw (split-append xs ys) refl
split-append (rewarded r ∷ xs) ys = rw (split-append xs ys) refl

last_reward-append :
    (rs : List RewardHistoryItem) (r : RewardHistoryItem)
    → last_reward (rs ++ r ∷ []) ≡ (r.reward, r.metrics)
unfolding last_reward
last_reward-append [] r = refl
last_reward-append (q ∷ []) r = refl
last_reward-append (q ∷ p ∷ rs) r = last_reward-append (p ∷ rs) r

drop-append : (xs ys : List HistoryItem) → drop (length xs) (xs ++ ys) ≡ ys
drop-append [] ys = refl
drop-append (x ∷ xs) ys = drop-append xs ys

split-last :
    (xs : List HistoryItem) (r : RewardHistoryItem) (ms : List String)
    → split_history (xs ++ rewarded r ∷ map chat ms)
      ≡ (chats xs ++ ms, (split_history xs).1 ++ r ∷ [])
unfolding split_history
split-last xs r ms =
    split-append xs (rewarded r ∷ map chat ms)
    ∙ ap
        (λ (t : List String × List RewardHistoryItem).
          ((split_history xs).0 ++ t.0, (split_history xs).1 ++ (r ∷ t.1)))
        (split-chats ms)

-- Behind what was handed over before, any items, a reward, and chat messages alone: the response has
-- the chat messages of all of these in order, and the last reward with its metrics.
pub response_carries :
    (o : TaskOutput) (old xs : List HistoryItem) (r : RewardHistoryItem) (ms : List String)
    → o.history ≡ old ++ (xs ++ rewarded r ∷ map chat ms)
    → o.history_ptr ≡ length old
    → ((response_content o).messages ≡ chats xs ++ ms)
      × ((response_content o).reward ≡ r.reward)
      × ((response_content o).metric ≡ r.metrics)
unfolding response_content
response_carries o old xs r ms e p =
    let rs = (split_history xs).1 in
    let slice =
      ap₂ (λ n h. split_history (drop n h)) p e
      ∙ ap split_history (drop-append old (xs ++ rewarded r ∷ map chat ms))
      ∙ split-last xs r ms in
    rw (slice, last_reward-append) (refl, refl, refl)
