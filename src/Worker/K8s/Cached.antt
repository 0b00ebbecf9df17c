-- ===== src/Worker/K8s/Cached.antt =====
-- What recording and evicting a pod does to the pod cache of
-- worker/src/agentrl/worker/environment/k8s.py.
use agent_rl.Common.{
  ◌≡◌, refl, sym, ap, ◌∙◌, Bool, true, false, Bool-cases, inl, inr, Option, none, some, List,
  String, string_eq, beq, beq_iff, All, if◌then◌else◌,
}
use agent_rl.Common.Table.{Table, get, get-put, get-remove}
use agent_rl.Worker.K8s.{
  Metadata, Pod, PodCache, EventType, deleted, changed, Event, label_exclusive, label_subtype,
  is_shared, named, labels_of, or_empty, set_pod, record_labelled, record_with, record_pod, drop_in,
  evict_from, evict_with, evict_pod,
}

abbrev pub cached : String → String → PodCache → Option Pod
cached name subtype c = get name (or_empty (get subtype c.pods))

-- A shared pod, of the subtype that its name has
pub record IsListed (kind : String → String) (pod : Pod) : Type 0 where
  pub data_of : Metadata
  pub has_data : pod.metadata ≡ some data_of
  pub shared : is_shared (get label_exclusive (labels_of data_of.labels)) ≡ true
  pub of_kind : named (get label_subtype (labels_of data_of.labels)) ≡ some (kind data_of.name)

abbrev pub AllListed : (String → String) → List Event → Type 0
AllListed kind = All (λ (event : Event). (pod : Pod) → event.object ≡ some pod → IsListed kind pod)

abbrev pub has_name : String → Option Metadata → Bool
has_name name none = false
has_name name (some m) = beq m.name name

-- What the last event about a name says, up to an error
abbrev pub seen : String → EventType → Pod → Option Pod → Option Pod
seen name deleted pod old = if has_name name pod.metadata then none else old
seen name changed pod old = if has_name name pod.metadata then some pod else old
seen name _ pod old = old

other_name :
    (kind : String → String) (name n : String)
    → beq (kind name) (kind n) ≡ false
    → beq name n ≡ false
other_name kind name n q = elim (Bool-cases (beq name n)) [
  | inl r ↦ cc ((beq_iff (kind name) (kind n)).1 (ap kind ((beq_iff name n).0 r)), q)
  | inr r ↦ r
]

cached-set_pod :
    (kind : String → String) (name n : String) (pod : Pod) (c : PodCache)
    → cached n (kind n) (set_pod (some (kind name)) name pod c)
      ≡ (if beq name n then some pod else cached n (kind n) c)
unfolding set_pod or_empty
cached-set_pod kind name n pod c = elim (Bool-cases (beq (kind name) (kind n))) [
  | inl q ↦
      let same = (beq_iff (kind name) (kind n)).0 q in rw (get-put, q) (rw (get-put, same) refl)
  | inr q ↦ rw (get-put, q) (rw (other_name kind name n q) refl)
]

cached-drop_in :
    (kind : String → String) (name n : String) (o : Option (Table String Pod)) (c : PodCache)
    → get (kind name) c.pods ≡ o
    → cached n (kind n) (drop_in (kind name) name o c)
      ≡ (if beq name n then none else cached n (kind n) c)
unfolding drop_in or_empty get
cached-drop_in kind name n none c e = elim (Bool-cases (beq name n)) [
  | inl r ↦
      let same = ap kind ((beq_iff name n).0 r) in
      rw r (ap (λ k. get n (or_empty (get k c.pods))) (sym same) ∙ ap (λ t. get n (or_empty t)) e)
  | inr r ↦ rw r refl
]
cached-drop_in kind name n (some t) c e = elim (Bool-cases (beq (kind name) (kind n))) [
  | inl q ↦
      let same = (beq_iff (kind name) (kind n)).0 q in
      rw (get-put, q)
        (get-remove name n t
          ∙ ap (λ x. if beq name n then none else x)
              (ap (λ o. get n (or_empty o)) (sym e)
                ∙ ap (λ k. get n (or_empty (get k c.pods))) same))
  | inr q ↦ rw (get-put, q) (rw (other_name kind name n q) refl)
]

module _ (kind : String → String) (n : String) where
  record_with-listed :
      (pod : Pod) (m : Metadata) (c : PodCache)
      → is_shared (get label_exclusive (labels_of m.labels)) ≡ true
      → named (get label_subtype (labels_of m.labels)) ≡ some (kind m.name)
      → cached n (kind n) (record_with (some m) pod c)
        ≡ (if beq m.name n then some pod else cached n (kind n) c)
  unfolding record_with record_labelled
  record_with-listed pod m c s k = rw (s, k) (cached-set_pod kind m.name n pod c)

  pub cached-record :
      (pod : Pod) (c : PodCache)
      → IsListed kind pod
      → cached n (kind n) (record_pod pod c) ≡ seen n changed pod (cached n (kind n) c)
  unfolding record_pod
  cached-record pod c l =
      ap (λ md. cached n (kind n) (record_with md pod c)) l.has_data
      ∙ record_with-listed pod l.data_of c l.shared l.of_kind
      ∙ ap (λ md. if has_name n md then some pod else cached n (kind n) c) (sym l.has_data)

  evict_with-listed :
      (m : Metadata) (c : PodCache)
      → named (get label_subtype (labels_of m.labels)) ≡ some (kind m.name)
      → cached n (kind n) (evict_with (some m) c)
        ≡ (if beq m.name n then none else cached n (kind n) c)
  unfolding evict_with evict_from
  evict_with-listed m c k = rw k (cached-drop_in kind m.name n (get (kind m.name) c.pods) c refl)

  pub cached-evict :
      (pod : Pod) (c : PodCache)
      → IsListed kind pod
      → cached n (kind n) (evict_pod pod c) ≡ seen n deleted pod (cached n (kind n) c)
  unfolding evict_pod
  cached-evict pod c l =
      ap (λ md. cached n (kind n) (evict_with md c)) l.has_data
      ∙ evict_with-listed l.data_of c l.of_kind
      ∙ ap (λ md. if has_name n md then none else cached n (kind n) c) (sym l.has_data)
