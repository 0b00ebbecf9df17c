-- ===== src/Worker/Session/Protocol.antt =====
-- One session: the request handlers on one side, the task on the other, interleaved at their awaits,
-- with what the task injected, what of it no request has returned yet, and what they returned.
use agent_rl.Common.{ℕ, ◌≡◌, ◌≢◌, Bool, true, some, List, [], ◌++◌, String, drop}
use agent_rl.Worker.Session.{
  HistoryItem, normal, TaskOutput, SessionController, Session, new_session, Injection, inject,
  agent_send, agent_receive, action_begin, answered, action_end, env_finish,
}

-- Where the task stands: at work, in `action`, or done.
pub data EnvPc : Type 0 where
  working : EnvPc
  acting : EnvPc
  ended : EnvPc

pub record Exchange : Type 0 where
  pub session : Session
  pub env : EnvPc
  pub injected : List HistoryItem
  pub unsent : List HistoryItem
  pub returned : List HistoryItem

-- `env_output.history[env_output.history_ptr:]`, what a handler puts into its response
abbrev pub fresh : TaskOutput → List HistoryItem
fresh o = drop o.history_ptr o.history

abbrev pub agent_waits : Exchange → Bool
agent_waits x = x.session.controller.agent_lock

-- `Session.clear`, `Session.cover` and `Session.set_full_history` have no step, and no one is
-- cancelled: this is a task that calls none of the three.
pub data Step (x y : Exchange) : Type 0 where
  -- the task injects, in `action` or by itself; `inject` adds to the history, also where an item is
  -- invalid and it raises: the items before that one stay
  injects :
      (i : Injection) (complete : Bool) (h : List HistoryItem) (new : List HistoryItem)
      → x.env ≡ working
      → inject i x.session.history ≡ (complete, h)
      → h ≡ x.session.history ++ new
      → y ≡ record x {
        session = record x.session { history = h };
        injected = x.injected ++ new;
        unsent = x.unsent ++ new;
      }
      → Step x y
  acts :
      (s : Session)
      → x.env ≡ working
      → action_begin x.session ≡ some s
      → y ≡ record x { session = s; env = acting }
      → Step x y
  resumes :
      (s : Session)
      → x.env ≡ acting
      → action_end x.session ≡ some (answered s)
      → y ≡ record x { session = s; env = working }
      → Step x y
  -- the wrapper hands over the session's own history, and the session is no longer in the map
  finishes :
      (o : TaskOutput) (c : SessionController)
      → x.env ≡ working
      → o.history ≡ x.session.history
      → env_finish o x.session.controller ≡ some c
      → y ≡ record x { session = record x.session { controller = c }; env = ended }
      → Step x y
  -- `interact`, whose guard has found `agent_lock` free and the session in the map
  requests :
      (messages : List String) (c : SessionController)
      → x.env ≢ ended
      → agent_send (some (normal messages)) x.session.controller ≡ some c
      → y ≡ record x { session = record x.session { controller = c } }
      → Step x y
  responds :
      (o : TaskOutput) (c : SessionController)
      → agent_waits x ≡ true
      → agent_receive x.session.controller ≡ some (o, c)
      → y ≡ record x {
        session = record x.session { controller = c };
        returned = x.returned ++ fresh o;
        unsent = [];
      }
      → Step x y

-- `start_sample`: a new session whose first request waits, and a task that sets to work
abbrev pub opened : ℕ → Exchange
opened id =
    let s = new_session id in
    record {
      session = record s { controller = record s.controller { agent_lock = true } };
      env = working;
      injected = [];
      unsent = [];
      returned = [];
    }

pub data Reach (id : ℕ) : Exchange → Type 0 where
  here : Reach id (opened id)
  next : {x y : Exchange} → Reach id x → Step x y → Reach id y
