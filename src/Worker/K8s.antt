-- ===== src/Worker/K8s.antt =====
-- worker/src/agentrl/worker/environment/k8s.py: the environments of a task in Kubernetes pods. Here: what
-- the code reads of a pod, and its cache of the shared pods, which a watch keeps up to date.
pub mod Cached
pub mod Latest
pub mod Rounds
pub mod Offers
mod Tests
use Prim.Native.Char.{code}
use agent_rl.Common.{
  ℕ, ◌+◌, Bool, true, false, not, ◌&&◌, ◌||◌, ◌==◌, leb, Option, none, some, List, [], ◌∷◌, String,
  string_eq, beq, if◌then◌else◌,
}
use agent_rl.Common.Table.{Table, get, put, remove}

pub data Phase : Type 0 where
  pending running succeeded failed unknown : Phase

pub record Metadata : Type 0 where
  pub name : String
  pub labels : Option (Table String String)
  pub has_deletion_timestamp : Bool
  pub resource_version : Option String

pub record Pod : Type 0 where
  pub metadata : Option Metadata
  pub phase : Option Phase

pub record PodCache : Type 0 where
  pub pods : Table String (Table String Pod)
  pub is_initialized : Bool
  pub resource_version : Option String

-- An event of the watch, with its object when that is a pod
pub data EventType : Type 0 where
  error bookmark deleted changed : EventType

pub record Event : Type 0 where
  pub type : EventType
  pub object : Option Pod

abbrev lower : ℕ → ℕ
lower c = if leb 65 c && leb c 90 then c + 32 else c

-- `s.lower() == t`
unfoldable pub lower_is : String → String → Bool
lower_is String.[] String.[] = true
lower_is String.[] (String.◌∷◌ c t) = false
lower_is (String.◌∷◌ b s) String.[] = false
lower_is (String.◌∷◌ b s) (String.◌∷◌ c t) =
    let rest = lower_is s t in lower (code b) == code c && rest

abbrev pub label_exclusive : String
label_exclusive = "agentrl.live/exclusive"

abbrev pub label_subtype : String
label_subtype = "agentrl.live/subtype-name"

-- `labels.get(K8S_LABEL_EXCLUSIVE, '').lower() == str(False).lower()`
unfoldable pub is_shared : Option String → Bool
is_shared none = false
is_shared (some label) = lower_is label "false"

-- A string that is not missing or empty
unfoldable pub named : Option String → Option String
named none = none
named (some String.[]) = none
named (some (String.◌∷◌ c s)) = some (String.◌∷◌ c s)

abbrev pub labels_of : Option (Table String String) → Table String String
labels_of none = []
labels_of (some labels) = labels

unfoldable pub or_empty : Option (Table String Pod) → Table String Pod
or_empty none = []
or_empty (some cached) = cached

-- `self._pod_cache.setdefault(subtype, {})[name] = pod`
unfoldable pub set_pod : Option String → (name : String) → Pod → PodCache → PodCache
set_pod none name pod c = c
set_pod (some subtype) name pod c = record c {
  pods = put subtype (put name pod (or_empty (get subtype c.pods))) c.pods;
}

unfoldable pub record_labelled : Pod → Metadata → PodCache → PodCache
record_labelled pod m c =
    if is_shared (get label_exclusive (labels_of m.labels))
    then set_pod (named (get label_subtype (labels_of m.labels))) m.name pod c
    else c

unfoldable pub record_with : Option Metadata → Pod → PodCache → PodCache
record_with none pod c = c
record_with (some m) pod c = record_labelled pod m c

-- `_record_pod_cache`
unfoldable pub record_pod : Pod → PodCache → PodCache
record_pod pod c = record_with pod.metadata pod c

unfoldable pub drop_everywhere :
    (name : String) → Table String (Table String Pod) → Table String (Table String Pod)
drop_everywhere name [] = []
drop_everywhere name ((subtype, cached) ∷ pods) =
    (subtype, remove name cached) ∷ drop_everywhere name pods

unfoldable pub drop_in : (subtype name : String) → Option (Table String Pod) → PodCache → PodCache
drop_in subtype name none c = c
drop_in subtype name (some cached) c = record c { pods = put subtype (remove name cached) c.pods }

unfoldable pub evict_from : Option String → (name : String) → PodCache → PodCache
evict_from none name c = record c { pods = drop_everywhere name c.pods }
evict_from (some subtype) name c = drop_in subtype name (get subtype c.pods) c

unfoldable pub evict_with : Option Metadata → PodCache → PodCache
evict_with none c = c
evict_with (some m) c = evict_from (named (get label_subtype (labels_of m.labels))) m.name c

-- `_evict_pod_from_cache`
unfoldable pub evict_pod : Pod → PodCache → PodCache
evict_pod pod c = evict_with pod.metadata c

-- `_refresh_pod_cache`, with the answer to the listing
unfoldable pub record_all : List Pod → PodCache → PodCache
record_all [] c = c
record_all (pod ∷ pods) c = record_all pods (record_pod pod c)

unfoldable pub refresh : List Pod → (resource_version : Option String) → PodCache → PodCache
refresh items version c =
    let filled = record_all items (record c { pods = [] }) in
    record filled { is_initialized = true; resource_version = version }

-- The cache is filled by a listing unless it is initialized.
unfoldable pub ready : List Pod → (resource_version : Option String) → PodCache → PodCache
unfolding refresh
ready items version c =
    let filled = refresh items version c in if c.is_initialized then c else filled

unfoldable pub set_version : Option String → PodCache → PodCache
set_version none c = c
set_version (some version) c = record c { resource_version = some version }

unfoldable pub note_version : Option Metadata → PodCache → PodCache
note_version none c = c
note_version (some m) c = set_version (named m.resource_version) c

unfoldable pub apply : EventType → Pod → PodCache → PodCache
apply bookmark pod c = c
apply deleted pod c = evict_pod pod c
apply _ pod c = record_pod pod c

-- One turn of the watch: the cache, and whether the stream goes on
unfoldable pub on_event : EventType → Option Pod → PodCache → PodCache × Bool
on_event error object c = (record c { is_initialized = false; resource_version = none }, false)
on_event type none c = (c, true)
on_event type (some pod) c = (apply type pod (note_version pod.metadata c), true)

unfoldable pub watch : List Event → PodCache → PodCache
watch [] c = c
watch (event ∷ events) c =
    let (next, goes_on) = on_event event.type event.object c in
    let rest = watch events next in if goes_on then rest else next

-- One round of `_watch_pods`: the answer to a listing, in case there is one, and the events until the
-- stream ends. That the API answers 410 does what an event of type ERROR does.
pub record Round : Type 0 where
  pub items : List Pod
  pub version : Option String
  pub events : List Event

unfoldable pub watch_pods : List Round → PodCache → PodCache
watch_pods [] c = c
watch_pods (round ∷ rounds) c =
    watch_pods rounds (watch round.events (ready round.items round.version c))

unfoldable pub is_over : Option Phase → Bool
is_over none = false
is_over (some pending) = false
is_over (some running) = false
is_over (some _) = true

unfoldable pub is_usable : Option Metadata → Option Phase → Bool
is_usable none phase = false
is_usable (some m) phase =
    not m.has_deletion_timestamp
    && is_shared (get label_exclusive (labels_of m.labels))
    && not (is_over phase)

unfoldable pub is_offered : Pod → Bool
is_offered pod = is_usable pod.metadata pod.phase

unfoldable pub offered : Table String Pod → List Pod
offered [] = []
offered ((name, pod) ∷ cached) =
    let rest = offered cached in if is_offered pod then pod ∷ rest else rest

unfoldable pub identify_into :
    List String → PodCache → Table String (List Pod) → Table String (List Pod)
identify_into [] c result = result
identify_into (subtype ∷ subtypes) c result =
    identify_into subtypes c (put subtype (offered (or_empty (get subtype c.pods))) result)

-- `subtypes or self.valid_subtypes`
abbrev pub requested : (subtypes valid_subtypes : List String) → List String
requested [] valid_subtypes = valid_subtypes
requested (s ∷ subtypes) valid_subtypes = s ∷ subtypes

-- `_identify_pods`, with the answer to the listing in case there is one
abbrev pub identify_pods :
    (subtypes valid_subtypes : List String)
    → List Pod
    → Option String
    → PodCache
    → Table String (List Pod)
identify_pods subtypes valid_subtypes items version c =
    identify_into (requested subtypes valid_subtypes) (ready items version c) []
