-- ===== src/Worker/State/Counting.antt =====
-- The local provider as a state provider of the worker.
use agent_rl.Common.{
  ◌+◌, ◌≤◌, ◌≡◌, refl, Bool, false, ◌&&◌, some, List, [], ◌∷◌, String, string_eq, beq, beq_iff,
  length, contains, if◌then◌else◌, arith, Option-cases, inl, inr,
}
use agent_rl.Common.Table.{Table, get, has, put, get-put, get-remove}
use agent_rl.Worker.Provider.{StateProvider, IsCounting}
use agent_rl.Worker.State.{
  LocalStateProvider, add_member, discard, members, container_total_uses, allocate_container,
  container_is_allocated, release_container, container_current_uses, remove_container,
  store_session, get_session, delete_session,
}
use agent_rl.Worker.State.History.{contains-discard}

-- `renew_container` and `renew_session` do nothing.
abbrev pub local_provider : StateProvider LocalStateProvider
local_provider = record {
  allocate_container = λ c s p. allocate_container c s p;
  renew_container = λ c s p. p;
  container_is_allocated = λ c p. container_is_allocated c p;
  container_current_uses = λ c p. container_current_uses c p;
  container_total_uses = λ c p. container_total_uses c p;
  release_container = λ c s p. release_container c s p;
  remove_container = λ c p. remove_container c p;
  store_session = λ s v p. store_session s v p;
  renew_session = λ s p. p;
  get_session = λ s p. get_session s p;
  delete_session = λ s p. delete_session s p;
}

length-discard : (s : String) (xs : List String) → length (discard s xs) ≤ length xs
unfolding discard
length-discard s [] = ground arith
length-discard s (x ∷ xs) = ground (arith, length-discard s xs)

abbrev has_member : String → String → LocalStateProvider → Bool
has_member c s p = contains (members c p) s

-- The containers that an allocation starts from, and the provider that it ends in.
abbrev opened : String → LocalStateProvider → Table String (List String)
opened c p = if has c p.container_uses then p.containers else put c [] p.containers

abbrev allocated : String → String → List String → LocalStateProvider → LocalStateProvider
allocated c s xs p = record p {
  containers = put c (add_member s xs) (opened c p);
  container_uses = put c (container_total_uses c p + 1) p.container_uses;
}

allocated_by :
    (c s : String) (p q : LocalStateProvider)
    → allocate_container c s p ≡ some q
    → (xs : List String) × (get c (opened c p) ≡ some xs) × (q ≡ allocated c s xs p)
unfolding allocate_container
allocated_by c s p q e = elim (Option-cases (get c (opened c p))) [
  | inl n ↦ absurd (ground (arith, n, e))
  | inr (xs, g) ↦ (xs, g, ground (arith, g, e))
]

total-allocated :
    (c s d : String) (p q : LocalStateProvider)
    → allocate_container c s p ≡ some q
    → container_total_uses d q
      ≡ (if beq c d then container_total_uses d p + 1 else container_total_uses d p)
unfolding container_total_uses
total-allocated c s d p q e =
    let (xs, g, r) = allocated_by c s p q e in
    rw r (ground (arith, get-put c d (container_total_uses c p + 1) p.container_uses, beq_iff c d))

length-add_member : (s : String) (xs : List String) → length (add_member s xs) ≤ length xs + 1
length-add_member s xs = ground arith

current-allocated :
    (c s d : String) (p q : LocalStateProvider)
    → allocate_container c s p ≡ some q
    → container_current_uses d q
      ≤ (if beq c d then container_current_uses d p + 1 else container_current_uses d p)
unfolding container_current_uses
current-allocated c s d p q e =
    let (xs, g, r) = allocated_by c s p q e in
    rw r (
      ground (
        arith,
        get-put c d (add_member s xs) (opened c p),
        get-put c d [] p.containers,
        get-put c c [] p.containers,
        length-add_member s xs,
        beq_iff c d,
        beq_iff c c,
        g,
      ))

current-released :
    (c s d : String) (p : LocalStateProvider)
    → container_current_uses d (release_container c s p) ≤ container_current_uses d p
unfolding container_current_uses release_container
current-released c s d p = elim (Option-cases (get c p.containers)) [
  | inl n ↦ ground (arith, n)
  | inr (xs, g) ↦
      ground (arith, g, get-put c d (discard s xs) p.containers, length-discard s xs, beq_iff c d)
]

total-released :
    (c s d : String) (p : LocalStateProvider)
    → container_total_uses d (release_container c s p) ≡ container_total_uses d p
unfolding container_total_uses release_container
total-released c s d p = ground arith

has_member-released :
    (c s d t : String) (p : LocalStateProvider)
    → has_member d t (release_container c s p)
      ≡ (if beq c d && beq s t then false else has_member d t p)
unfolding release_container
has_member-released c s d t p = elim (Option-cases (get c p.containers)) [
  | inl n ↦ ground (arith, n, beq_iff c d)
  | inr (xs, g) ↦
      ground
        (arith, g, get-put c d (discard s xs) p.containers, contains-discard s t xs, beq_iff c d)
]

-- The local provider counts as the worker relies on.
pub local-IsCounting : IsCounting local_provider
unfolding container_total_uses container_current_uses remove_container
local-IsCounting = record {
  uses = has_member;
  total-allocate = total-allocated;
  current-allocate = current-allocated;
  total-release = total-released;
  current-release = current-released;
  uses-release = has_member-released;
  total-remove = λ c d p. ground (arith, get-remove c d p.container_uses);
  current-remove = λ c d p. ground (arith, get-remove c d p.containers);
  uses-remove = λ c d t p. ground (arith, get-remove c d p.containers);
  renew_container-Keeps = λ c s. record {
    total_kept = λ d p. refl;
    current_kept = λ d p. refl;
    uses_kept = λ d t p. refl;
  };
  renew_session-Keeps = λ s. record {
    total_kept = λ d p. refl;
    current_kept = λ d p. refl;
    uses_kept = λ d t p. refl;
  };
  store_session-Keeps = λ s v. record {
    total_kept = λ d p. refl;
    current_kept = λ d p. refl;
    uses_kept = λ d t p. refl;
  };
  delete_session-Keeps = λ s. record {
    total_kept = λ d p. refl;
    current_kept = λ d p. refl;
    uses_kept = λ d t p. refl;
  };
  get-delete = λ s p. ground (arith, get-remove s s p.sessions, beq_iff s s);
}
