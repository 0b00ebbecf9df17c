-- ===== src/Worker/K8s/Rounds.antt =====
-- What the pod cache of worker/src/agentrl/worker/environment/k8s.py holds after the rounds of the watch,
-- each with a listing where the cache is not initialized.
use agent_rl.Common.{
  ◌≡◌, refl, ap, ◌∙◌, Bool, true, false, not, ◌||◌, Bool-cases, inl, inr, Option, none, some, List,
  [], ◌∷◌, String, string_eq, All, if◌then◌else◌,
}
use agent_rl.Common.Table.{Table, get}
use agent_rl.Worker.K8s.{
  Metadata, Pod, PodCache, EventType, error, bookmark, deleted, changed, Event, Round, named,
  labels_of, label_subtype, is_shared, label_exclusive, set_pod, record_labelled, record_with,
  record_pod, drop_in, evict_from, evict_with, evict_pod, refresh, ready, set_version, note_version,
  apply, on_event, watch, watch_pods,
}
use agent_rl.Worker.K8s.Cached.{IsListed, AllListed, cached}
use agent_rl.Worker.K8s.Latest.{latest, listed, is_error, watch-latest, refresh-listed}

unfoldable pub has_error : List Event → Bool
has_error [] = false
has_error (event ∷ events) = is_error event.type || has_error events

-- What is known of a name: `none` if the cache is not initialized.
abbrev pub relisted : String → List Pod → Option (Option Pod) → Option Pod
relisted name items none = listed name items none
relisted name items (some old) = old

abbrev pub after_events : String → List Event → Option Pod → Option (Option Pod)
after_events name events old = if has_error events then none else some (latest name events old)

unfoldable pub after_rounds : String → List Round → Option (Option Pod) → Option (Option Pod)
after_rounds name [] told = told
after_rounds name (round ∷ rounds) told =
    after_rounds name rounds (after_events name round.events (relisted name round.items told))

record_pod-initialized :
    (pod : Pod) (c : PodCache) → (record_pod pod c).is_initialized ≡ c.is_initialized
unfolding record_pod set_pod record_with record_labelled
record_pod-initialized pod c = by_metadata pod.metadata
  where
    by_subtype :
        (o : Option String) (m : Metadata)
        → (set_pod o m.name pod c).is_initialized ≡ c.is_initialized
    by_subtype none m = refl
    by_subtype (some s) m = refl

    by_metadata : (o : Option Metadata) → (record_with o pod c).is_initialized ≡ c.is_initialized
    by_metadata none = refl
    by_metadata (some m) =
        elim (Bool-cases (is_shared (get label_exclusive (labels_of m.labels)))) [
          | inl q ↦ rw q (by_subtype (named (get label_subtype (labels_of m.labels))) m)
          | inr q ↦ rw q refl
        ]

drop_in-initialized :
    (s name : String) (o : Option (Table String Pod)) (c : PodCache)
    → (drop_in s name o c).is_initialized ≡ c.is_initialized
unfolding drop_in
drop_in-initialized s name none c = refl
drop_in-initialized s name (some t) c = refl

evict_pod-initialized :
    (pod : Pod) (c : PodCache) → (evict_pod pod c).is_initialized ≡ c.is_initialized
unfolding evict_pod evict_from evict_with
evict_pod-initialized pod c = by_metadata pod.metadata
  where
    by_subtype :
        (o : Option String) (name : String)
        → (evict_from o name c).is_initialized ≡ c.is_initialized
    by_subtype none name = refl
    by_subtype (some s) name = drop_in-initialized s name (get s c.pods) c

    by_metadata : (o : Option Metadata) → (evict_with o c).is_initialized ≡ c.is_initialized
    by_metadata none = refl
    by_metadata (some m) = by_subtype (named (get label_subtype (labels_of m.labels))) m.name

note_version-initialized :
    (o : Option Metadata) (c : PodCache) → (note_version o c).is_initialized ≡ c.is_initialized
unfolding note_version set_version
note_version-initialized none c = refl
note_version-initialized (some m) c = by_version (named m.resource_version)
  where
    by_version : (o : Option String) → (set_version o c).is_initialized ≡ c.is_initialized
    by_version none = refl
    by_version (some v) = refl

-- An event other than an error leaves the cache initialized.
on_event-initialized :
    (type : EventType) (object : Option Pod) (c : PodCache)
    → c.is_initialized ≡ true
    → ((on_event type object c).0.is_initialized ≡ not (is_error type))
      × ((on_event type object c).1 ≡ not (is_error type))
unfolding on_event apply
on_event-initialized error object c e = (refl, refl)
on_event-initialized bookmark none c e = (e, refl)
on_event-initialized deleted none c e = (e, refl)
on_event-initialized changed none c e = (e, refl)
on_event-initialized bookmark (some pod) c e = (note_version-initialized pod.metadata c ∙ e, refl)
on_event-initialized deleted (some pod) c e = (
  evict_pod-initialized pod (note_version pod.metadata c)
      ∙ note_version-initialized pod.metadata c
      ∙ e,
  refl,
)
on_event-initialized changed (some pod) c e = (
  record_pod-initialized pod (note_version pod.metadata c)
      ∙ note_version-initialized pod.metadata c
      ∙ e,
  refl,
)

watch-initialized :
    (events : List Event) (c : PodCache)
    → c.is_initialized ≡ true
    → (watch events c).is_initialized ≡ not (has_error events)
unfolding watch has_error
watch-initialized [] c e = e
watch-initialized (event ∷ events) c e =
    let (now, goes_on) = on_event-initialized event.type event.object c e in
    elim (Bool-cases (is_error event.type)) [
      | inl q ↦ rw (goes_on, q) (now ∙ ap not q)
      | inr q ↦
          rw (goes_on, q)
            (watch-initialized events (on_event event.type event.object c).0 (now ∙ ap not q))
    ]

-- The pods that are listed and that events are about are shared and of a subtype that their name has.
abbrev pub RoundsListed : (String → String) → List Round → Type 0
RoundsListed kind =
    All (λ (round : Round). All (IsListed kind) round.items × AllListed kind round.events)

module _ (kind : String → String) (n : String) where
  Tracks : Option (Option Pod) → PodCache → Type 0
  Tracks none c = c.is_initialized ≡ false
  Tracks (some old) c = (c.is_initialized ≡ true) × (cached n (kind n) c ≡ old)

  ready-Tracks :
      (items : List Pod) (version : Option String) (told : Option (Option Pod)) (c : PodCache)
      → All (IsListed kind) items
      → Tracks told c
      → Tracks (some (relisted n items told)) (ready items version c)
  unfolding Tracks ready refresh
  ready-Tracks items version none c l e =
      let filled = ap (λ b. if b then c else refresh items version c) e in
      (
        ap (λ (d : PodCache). d.is_initialized) filled,
        ap (cached n (kind n)) filled ∙ refresh-listed kind n items version c l,
      )
  ready-Tracks items version (some old) c l (e, q) =
      let same = ap (λ b. if b then c else refresh items version c) e in
      (ap (λ (d : PodCache). d.is_initialized) same ∙ e, ap (cached n (kind n)) same ∙ q)

  watch-Tracks :
      (events : List Event) (old : Option Pod) (c : PodCache)
      → AllListed kind events
      → Tracks (some old) c
      → Tracks (after_events n events old) (watch events c)
  unfolding Tracks
  watch-Tracks events old c l (e, q) = elim (Bool-cases (has_error events)) [
    | inl h ↦ rw h (watch-initialized events c e ∙ ap not h)
    | inr h ↦ rw h (
      watch-initialized events c e ∙ ap not h,
      watch-latest kind n events c l ∙ ap (latest n events) q,
    )
  ]

  watch_pods-Tracks :
      (rounds : List Round) (told : Option (Option Pod)) (c : PodCache)
      → RoundsListed kind rounds
      → Tracks told c
      → Tracks (after_rounds n rounds told) (watch_pods rounds c)
  unfolding after_rounds watch_pods
  watch_pods-Tracks [] told c l t = t
  watch_pods-Tracks (round ∷ rounds) told c ((items, events), later) t =
      watch_pods-Tracks rounds _ _ later (
        watch-Tracks round.events (relisted n round.items told) _ events
          (ready-Tracks round.items round.version told c items t))

  pub ready-cached :
      (rounds : List Round) (items : List Pod) (version : Option String) (c : PodCache)
      → c.is_initialized ≡ false
      → RoundsListed kind rounds
      → All (IsListed kind) items
      → cached n (kind n) (ready items version (watch_pods rounds c))
        ≡ relisted n items (after_rounds n rounds none)
  unfolding Tracks
  ready-cached rounds items version c e l all =
      (ready-Tracks items version (after_rounds n rounds none) (watch_pods rounds c) all
        (watch_pods-Tracks rounds none c l e)).1
