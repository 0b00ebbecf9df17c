-- ===== src/Worker/K8s/Tests.antt =====
-- The pod cache of worker/src/agentrl/worker/environment/k8s.py on concrete events.
use mathlib.Core.Path.{subst}
use agent_rl.Common.{
  Option, ◌≡◌, refl, true, false, none, some, List, [], ◌∷◌, String, string_eq, All,
}
use agent_rl.Common.Table.{get, put, remove}
use agent_rl.Worker.K8s.{
  Phase, pending, running, failed, Pod, PodCache, EventType, deleted, changed, Event,
  label_exclusive, label_subtype, lower_is, is_shared, named, set_pod, record_labelled, record_with,
  record_pod, drop_in, evict_from, evict_with, evict_pod, record_all, refresh, set_version,
  note_version, apply, on_event, watch, error, Round, ready, watch_pods, or_empty, is_over,
  is_usable, is_offered, offered, identify_into, identify_pods,
}
use agent_rl.Worker.K8s.Cached.{IsListed}
use agent_rl.Worker.K8s.Latest.{latest, listed}
use agent_rl.Worker.K8s.Rounds.{has_error, after_rounds}
use agent_rl.Worker.K8s.Offers.{Among, identify_offers}

abbrev pod_at : String → Phase → Pod
pod_at name phase = record {
  metadata = some (record {
    name = name;
    labels = some ((label_exclusive, "False") ∷ (label_subtype, "os") ∷ []);
    has_deletion_timestamp = false;
    resource_version = none;
  });
  phase = some phase;
}

abbrev os_kind : String → String
os_kind name = "os"

pod_at-IsListed : (name : String) (phase : Phase) → IsListed os_kind (pod_at name phase)
unfolding is_shared lower_is named get
pod_at-IsListed name phase = record { data_of = _; has_data = refl; shared = refl; of_kind = refl }

abbrev event_of : EventType → Pod → Event
event_of type pod = record { type = type; object = some pod }

abbrev two_pods : List Pod
two_pods = pod_at "a" pending ∷ pod_at "b" pending ∷ []

abbrev no_cache : PodCache
no_cache = record { pods = []; is_initialized = false; resource_version = none }

-- Round one ends with an error, after which the pods are listed again.
abbrev failing_events : List Event
failing_events = event_of deleted (pod_at "a" failed) ∷ record { type = error; object = none } ∷ []

abbrev some_events : List Event
some_events =
    event_of changed (pod_at "a" running)
    ∷ event_of deleted (pod_at "b" failed)
    ∷ event_of changed (pod_at "c" failed)
    ∷ []

abbrev round_of : List Event → Round
round_of events = record { items = two_pods; version = none; events = events }

abbrev two_rounds : List Round
two_rounds = round_of failing_events ∷ round_of some_events ∷ []

one-IsListed :
    (name : String) (phase : Phase) (pod : Pod)
    → some (pod_at name phase) ≡ some pod
    → IsListed os_kind pod
one-IsListed name phase pod e = subst (IsListed os_kind) (cc e) (pod_at-IsListed name phase)

no-IsListed : (pod : Pod) → ◌≡◌ {A = Option Pod} none (some pod) → IsListed os_kind pod
no-IsListed pod e = cc e

two-AllListed : All (IsListed os_kind) two_pods
two-AllListed = (pod_at-IsListed "a" pending, (pod_at-IsListed "b" pending, tt))

-- Only the pod that runs is offered.
only_running :
    get "os" (identify_pods ("os" ∷ []) [] two_pods none (watch_pods two_rounds no_cache))
    ≡ some (pod_at "a" running ∷ [])
unfolding identify_into offered is_offered is_usable is_over watch_pods ready watch on_event apply
    note_version set_version refresh record_all evict_pod evict_with evict_from drop_in record_pod
    record_with record_labelled set_pod or_empty named is_shared lower_is get put remove
only_running = refl

identify_offers_example :
    (pods : List Pod) × (get "os"
        (identify_pods [] ("os" ∷ []) [] none (watch_pods two_rounds no_cache))
      ≡ some pods)
    × Among (pod_at "a" running) pods
    × All (λ (p : Pod). is_offered p ≡ true) pods
unfolding latest listed after_rounds has_error is_offered is_usable is_over is_shared lower_is get
identify_offers_example =
    identify_offers os_kind "a" two_rounds [] none no_cache [] ("os" ∷ []) (pod_at "a" running) refl
      (
        (two-AllListed, (one-IsListed "a" failed, (no-IsListed, tt))),
        (
          (
            two-AllListed,
            (one-IsListed "a" running, (one-IsListed "b" failed, (one-IsListed "c" failed, tt))),
          ),
          tt,
        ),
      )
      tt refl refl refl

-- An error makes the asking list the pods again.
listed_again :
    get "os" (
      identify_pods
        ("os" ∷ [])
        []
        (pod_at "b" running ∷ [])
        none
        (watch_pods (round_of failing_events ∷ []) no_cache))
    ≡ some (pod_at "b" running ∷ [])
unfolding identify_into offered is_offered is_usable is_over watch_pods ready watch on_event apply
    note_version set_version refresh record_all evict_pod evict_with evict_from drop_in record_pod
    record_with record_labelled set_pod or_empty named is_shared lower_is get put remove
listed_again = refl
