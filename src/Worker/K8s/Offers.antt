-- ===== src/Worker/K8s/Offers.antt =====
-- The pods that `_identify_pods` of worker/src/agentrl/worker/environment/k8s.py offers to a session.
use agent_rl.Common.{
  ◌≡◌, ap, ◌∙◌, ◌⊎◌, inl, inr, Bool, true, false, Bool-cases, Option, none, some, List, [], ◌∷◌,
  String, string_eq, beq, beq_iff, contains, All, if◌then◌else◌, arith,
}
use agent_rl.Common.Table.{Table, get, put, get-put}
use agent_rl.Worker.K8s.{
  Pod, PodCache, Round, is_offered, offered, or_empty, identify_into, identify_pods, requested,
  ready, watch_pods,
}
use agent_rl.Worker.K8s.Cached.{IsListed}
use agent_rl.Worker.K8s.Rounds.{relisted, after_rounds, RoundsListed, ready-cached}

abbrev pub Among : Pod → List Pod → Type 0
Among pod [] = ⊥
Among pod (p ∷ pods) = (p ≡ pod) ⊎ Among pod pods

-- Every pod that is offered may be used, and every cached pod that may be used is offered.
offered-usable : (cache : Table String Pod) → All (λ (p : Pod). is_offered p ≡ true) (offered cache)
unfolding offered
offered-usable [] = tt
offered-usable ((name, pod) ∷ cache) = elim (Bool-cases (is_offered pod)) [
  | inl q ↦ rw q (q, offered-usable cache)
  | inr q ↦ rw q (offered-usable cache)
]

found_here :
    (b : Bool) (p pod : Pod) (o : Option Pod)
    → b ≡ true
    → (if b then some p else o) ≡ some pod
    → p ≡ pod
found_here true p pod o q e = cc e
found_here false p pod o q e = cc q

found_later :
    (b : Bool) (p pod : Pod) (o : Option Pod)
    → b ≡ false
    → (if b then some p else o) ≡ some pod
    → o ≡ some pod
found_later true p pod o q e = cc q
found_later false p pod o q e = e

Among-if :
    (b : Bool) (p pod : Pod) (pods : List Pod)
    → Among pod pods
    → Among pod (if b then p ∷ pods else pods)
Among-if true p pod pods a = inr a
Among-if false p pod pods a = a

offered-Among :
    (name : String) (cache : Table String Pod) (pod : Pod)
    → get name cache ≡ some pod
    → is_offered pod ≡ true
    → Among pod (offered cache)
unfolding offered get
offered-Among name [] pod e u = cc e
offered-Among name ((j, p) ∷ cache) pod e u = elim (Bool-cases (beq j name)) [
  | inl q ↦
      let same = found_here (beq j name) p pod (get name cache) q e in
      rw (ap is_offered same ∙ u) (inl same)
  | inr q ↦
      Among-if (is_offered p) p pod (offered cache)
        (offered-Among name cache pod (found_later (beq j name) p pod (get name cache) q e) u)
]

offers_of : String → PodCache → List Pod
offers_of subtype c = offered (or_empty (get subtype c.pods))

-- What was found for a subtype, or is still to be found
identify_into-get :
    (subtypes : List String) (c : PodCache) (t : String) (result : Table String (List Pod))
    → (contains subtypes t ≡ true) ⊎ (get t result ≡ some (offers_of t c))
    → get t (identify_into subtypes c result) ≡ some (offers_of t c)
unfolding identify_into offers_of
identify_into-get [] c t result (inl e) = cc e
identify_into-get [] c t result (inr e) = e
identify_into-get (s ∷ subtypes) c t result wanted = elim (Bool-cases (beq s t)) [
  | inl q ↦
      identify_into-get subtypes c t _
        (inr (rw (get-put, q) (ap (λ k. some (offers_of k c)) ((beq_iff s t).0 q))))
  | inr q ↦ identify_into-get subtypes c t _ (still wanted q)
]
  where
    still :
        (contains (s ∷ subtypes) t ≡ true) ⊎ (get t result ≡ some (offers_of t c))
        → beq s t ≡ false
        → (contains subtypes t ≡ true)
          ⊎ (get t (put s (offers_of s c) result) ≡ some (offers_of t c))
    still (inl e) q = inl (ground (arith, e, q))
    still (inr e) q = inr (rw (get-put, q) e)

-- A cache that starts uninitialized has seen any rounds of the watch, and then some subtypes are asked
-- for, or all of them if none is named. If the last event about a name, or the last listing if there
-- was no such event since, says a pod to be there, that may be used and whose subtype is asked for,
-- then this pod is offered for the subtype, and all pods that are offered may be used. An event of
-- type ERROR makes the next round, or the asking, list the pods again, and the events before it do not
-- count any more. The pods that are listed and that events are about are shared and of a subtype that
-- their name has.
pub identify_offers :
    (kind : String → String) (name : String) (rounds : List Round) (items : List Pod)
    (version : Option String) (c : PodCache) (subtypes valid_subtypes : List String) (pod : Pod)
    → c.is_initialized ≡ false
    → RoundsListed kind rounds
    → All (IsListed kind) items
    → contains (requested subtypes valid_subtypes) (kind name) ≡ true
    → relisted name items (after_rounds name rounds none) ≡ some pod
    → is_offered pod ≡ true
    → (pods : List Pod) × (get
          (kind name)
          (identify_pods subtypes valid_subtypes items version (watch_pods rounds c))
        ≡ some pods)
      × Among pod pods
      × All (λ (p : Pod). is_offered p ≡ true) pods
unfolding offers_of
identify_offers kind name rounds items version c subtypes valid_subtypes pod new rounds_listed
      items_listed asked last usable =
    let now = ready items version (watch_pods rounds c) in
    let cache = or_empty (get (kind name) now.pods) in
    (
      offered cache,
      identify_into-get (requested subtypes valid_subtypes) now (kind name) [] (inl asked),
      offered-Among name cache pod
          (ready-cached kind name rounds items version c new rounds_listed items_listed ∙ last)
          usable,
      offered-usable cache,
    )
