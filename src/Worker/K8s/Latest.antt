-- ===== src/Worker/K8s/Latest.antt =====
-- What the pod cache of worker/src/agentrl/worker/environment/k8s.py holds after a listing, and after events
-- of the watch.
use agent_rl.Common.{
  ◌≡◌, refl, ap, ◌∙◌, Bool, true, false, not, Bool-cases, inl, inr, Option, none, some, List, [],
  ◌∷◌, String, string_eq, All, if◌then◌else◌,
}
use agent_rl.Common.Table.{get}
use agent_rl.Worker.K8s.{
  Metadata, Pod, PodCache, EventType, error, bookmark, deleted, changed, Event, named, or_empty,
  record_pod, record_all, refresh, set_version, note_version, apply, on_event, watch,
}
use agent_rl.Worker.K8s.Cached.{IsListed, AllListed, seen, cached, cached-record, cached-evict}

abbrev pub seen_in : String → EventType → Option Pod → Option Pod → Option Pod
seen_in name type none old = old
seen_in name type (some pod) old = seen name type pod old

abbrev pub is_error : EventType → Bool
is_error error = true
is_error _ = false

unfoldable pub latest : String → List Event → Option Pod → Option Pod
latest name [] old = old
latest name (event ∷ events) old =
    let rest = latest name events (seen_in name event.type event.object old) in
    if is_error event.type then old else rest

-- What the last pod of a name in a listing is
unfoldable pub listed : String → List Pod → Option Pod → Option Pod
listed name [] old = old
listed name (pod ∷ pods) old = listed name pods (seen name changed pod old)

module _ (kind : String → String) (n : String) where
  set_version-pods :
      (version : Option String) (c : PodCache) → (set_version version c).pods ≡ c.pods
  unfolding set_version
  set_version-pods none c = refl
  set_version-pods (some version) c = refl

  note_version-pods : (md : Option Metadata) (c : PodCache) → (note_version md c).pods ≡ c.pods
  unfolding note_version
  note_version-pods none c = refl
  note_version-pods (some m) c = set_version-pods (named m.resource_version) c

  cached-apply :
      (type : EventType) (pod : Pod) (c : PodCache)
      → IsListed kind pod
      → is_error type ≡ false
      → cached n (kind n) (apply type pod c) ≡ seen n type pod (cached n (kind n) c)
  unfolding apply
  cached-apply error pod c l e = cc e
  cached-apply bookmark pod c l e = refl
  cached-apply deleted pod c l e = cached-evict kind n pod c l
  cached-apply changed pod c l e = cached-record kind n pod c l

  cached-event :
      (type : EventType) (object : Option Pod) (c : PodCache)
      → ((pod : Pod) → object ≡ some pod → IsListed kind pod)
      → cached n (kind n) (on_event type object c).0 ≡ seen_in n type object (cached n (kind n) c)
  unfolding on_event
  cached-event error none c l = refl
  cached-event error (some pod) c l = refl
  cached-event bookmark none c l = refl
  cached-event deleted none c l = refl
  cached-event changed none c l = refl
  cached-event bookmark (some pod) c l =
      cached-apply bookmark pod (note_version pod.metadata c) (l pod refl) refl
      ∙ ap (λ pods. seen n bookmark pod (get n (or_empty (get (kind n) pods))))
          (note_version-pods pod.metadata c)
  cached-event deleted (some pod) c l =
      cached-apply deleted pod (note_version pod.metadata c) (l pod refl) refl
      ∙ ap (λ pods. seen n deleted pod (get n (or_empty (get (kind n) pods))))
          (note_version-pods pod.metadata c)
  cached-event changed (some pod) c l =
      cached-apply changed pod (note_version pod.metadata c) (l pod refl) refl
      ∙ ap (λ pods. seen n changed pod (get n (or_empty (get (kind n) pods))))
          (note_version-pods pod.metadata c)

  goes_on-is_error :
      (type : EventType) (object : Option Pod) (c : PodCache)
      → (on_event type object c).1 ≡ not (is_error type)
  unfolding on_event
  goes_on-is_error error object c = refl
  goes_on-is_error bookmark none c = refl
  goes_on-is_error bookmark (some pod) c = refl
  goes_on-is_error deleted none c = refl
  goes_on-is_error deleted (some pod) c = refl
  goes_on-is_error changed none c = refl
  goes_on-is_error changed (some pod) c = refl

  seen_in-error :
      (type : EventType) (object : Option Pod) (old : Option Pod)
      → is_error type ≡ true
      → seen_in n type object old ≡ old
  seen_in-error error none old e = refl
  seen_in-error error (some pod) old e = refl
  seen_in-error bookmark object old e = cc e
  seen_in-error deleted object old e = cc e
  seen_in-error changed object old e = cc e

  pub watch-latest :
      (events : List Event) (c : PodCache)
      → AllListed kind events
      → cached n (kind n) (watch events c) ≡ latest n events (cached n (kind n) c)
  unfolding watch latest
  watch-latest [] c l = refl
  watch-latest (event ∷ events) c (here, later) = elim (Bool-cases (is_error event.type)) [
    | inl q ↦
        rw (goes_on-is_error, q)
          (cached-event event.type event.object c here
            ∙ seen_in-error event.type event.object (cached n (kind n) c) q)
    | inr q ↦
        rw (goes_on-is_error, q)
          (watch-latest events (on_event event.type event.object c).0 later
            ∙ ap (latest n events) (cached-event event.type event.object c here))
  ]

  record_all-listed :
      (items : List Pod) (c : PodCache)
      → All (IsListed kind) items
      → cached n (kind n) (record_all items c) ≡ listed n items (cached n (kind n) c)
  unfolding record_all listed
  record_all-listed [] c l = refl
  record_all-listed (pod ∷ items) c (here, later) =
      record_all-listed items (record_pod pod c) later
      ∙ ap (listed n items) (cached-record kind n pod c here)

  pub refresh-listed :
      (items : List Pod) (version : Option String) (c : PodCache)
      → All (IsListed kind) items
      → cached n (kind n) (refresh items version c) ≡ listed n items none
  unfolding refresh or_empty get
  refresh-listed items version c l = record_all-listed items (record c { pods = [] }) l
