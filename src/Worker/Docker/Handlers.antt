-- ===== src/Worker/Docker/Handlers.antt =====
-- The handlers of the controller, as what they do to the provider.
use agent_rl.Common.{ℕ, Bool, Option, List, String}
use agent_rl.Worker.Provider.{StateProvider}
use agent_rl.Worker.Docker.{DockerApi, Delegation, World}
use agent_rl.Worker.Docker.Containers.{clean_containers}
use agent_rl.Worker.Docker.Sessions.{start_session, renew_session, end_session}
use agent_rl.Worker.Docker.Steps.{Course, here}
use agent_rl.Worker.Docker.Labels.{IsLabelled}
use agent_rl.Worker.Docker.Starting.{start_session-On}
use agent_rl.Worker.Docker.Ending.{clean_containers-On, renew_session-On, end_session-On}

-- The handlers of the controller
pub data Handler : Type 0 where
  starts : (rounds looks : ℕ) → List String → (immutable : Bool) → Handler
  renews : (session : String) → Handler
  ends_session : (depth : ℕ) → (session : String) → Handler
  cleans : (depth : ℕ) → Handler

module _ {D S : Type 0} (api : DockerApi D) (task : Delegation D) (provider : StateProvider S) where
  -- The world that a handler ends in, whatever its outcome is
  unfoldable pub after_handler : Handler → World D S → World D S
  after_handler (starts rounds looks ts immutable) w =
      (start_session api task provider rounds looks ts immutable w).1
  after_handler (renews s) w = (renew_session api task provider s w).1
  after_handler (ends_session depth s) w = (end_session api task provider depth s w).1
  after_handler (cleans depth) w = (clean_containers api task provider depth w).1

-- Whatever the daemon answers and however a handler ends, it takes the provider only through the steps
-- that workers may interleave, if containers have the labels that they were made with.
pub handler-Course :
    {D S : Type 0} (api : DockerApi D) (task : Delegation D) (provider : StateProvider S)
    (kind : String → Option String)
    → IsLabelled api task kind
    → (h : Handler) (w : World D S)
    → Course api task provider kind w.state (after_handler api task provider h w).state
unfolding after_handler
handler-Course api task provider kind l (starts rounds looks ts immutable) w =
    ((start_session-On api task provider kind l w.state rounds looks ts immutable).holds w here).0
handler-Course api task provider kind l (renews s) w =
    ((renew_session-On api task provider kind w.state s).holds w here).0
handler-Course api task provider kind l (ends_session depth s) w =
    ((end_session-On api task provider kind w.state depth s).holds w here).0
handler-Course api task provider kind l (cleans depth) w =
    ((clean_containers-On api task provider kind w.state depth).holds w here).0
