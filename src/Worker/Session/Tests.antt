-- ===== src/Worker/Session/Tests.antt =====
-- A session whose task asks one question and gets one answer.
use agent_rl.Common.{◌≡◌, refl, true, false, some, List, [], ◌∷◌, ◌++◌}
use agent_rl.Worker.Session.{
  HistoryItem, chat, cancel, SessionController, Session, one, many, nil, cons, invalid, nothing,
  inject, agent_receive, action_begin, action_end, raises_cancelled,
}
use agent_rl.Worker.Session.Protocol.{
  Exchange, acting, injects, acts, responds, Reach, opened, agent_waits, here, next,
}
use agent_rl.Worker.Session.Delivery.{every_item_once}

abbrev asked : List HistoryItem
asked = chat "question" ∷ []

abbrev loaded : Exchange
loaded = record (opened 5) {
  session = record (opened 5).session { history = asked };
  injected = asked;
  unsent = asked;
}

abbrev handed_over : SessionController
handed_over = record (opened 5).session.controller {
  env_lock = true;
  agent_signal = 1;
  env_output = record (opened 5).session.controller.env_output { history = asked };
}

abbrev acting_now : Exchange
acting_now = record loaded {
  session = record loaded.session { controller = handed_over };
  env = acting;
}

abbrev answered_now : Exchange
answered_now = record acting_now {
  session = record acting_now.session {
    controller = record handed_over { agent_lock = false; agent_signal = 0 };
  };
  unsent = [];
  returned = asked;
}

first_response : Reach 5 answered_now
unfolding inject action_begin agent_receive
first_response =
    next {x = acting_now}
      (next {x = loaded}
        (next here (injects (one (chat "question")) true asked asked refl refl refl refl))
        (acts acting_now.session refl refl refl))
      (responds handed_over.env_output answered_now.session.controller refl refl refl)

every_item_once_example :
    (asked ≡ asked ++ []) × (agent_waits answered_now ≡ false → ◌≡◌ {A = List HistoryItem} [] [])
every_item_once_example = every_item_once first_response

-- A cancelled session raises in the task's next `action`.
abbrev cancelled_while_acting : Session
cancelled_while_acting = record answered_now.session {
  controller = record answered_now.session.controller { env_input = some cancel; env_signal = 1 };
}

cancel_raises :
    action_end cancelled_while_acting
    ≡ some (
        raises_cancelled (record cancelled_while_acting {
          controller = record cancelled_while_acting.controller {
            env_lock = false;
            env_signal = 0;
          };
        }))
unfolding action_end
cancel_raises = refl

-- `inject` flattens lists, skips what is false, and stops at what is invalid.
inject_nested :
    inject
      (many (
        cons (one (chat "a")) (
          cons nothing
            (cons (many (cons (one (chat "b")) nil)) (cons invalid (cons (one (chat "c")) nil))))))
      []
    ≡ (false, chat "a" ∷ chat "b" ∷ [])
unfolding inject
inject_nested = refl
