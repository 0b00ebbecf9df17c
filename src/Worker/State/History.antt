-- ===== src/Worker/State/History.antt =====
-- The provider against the history of the calls: who holds a container, and how often it was taken.
use agent_rl.Common.{
  ℕ, ◌+◌, ◌≡◌, ◌↔◌, refl, sym, ◌∙◌, Bool, true, false, Option, none, some, List, [], ◌∷◌, String,
  string_eq, beq, beq_iff, length, ltb, contains, if◌then◌else◌, arith, Option-cases, Bool-cases,
  inl, inr, ◌&&◌,
}
use agent_rl.Common.Table.{
  Table, get, has, put, get-put, get-remove, has-put, has-remove, has-get, get_of_has,
}
use agent_rl.Worker.Provider.{SessionData}
use agent_rl.Worker.State.{
  LocalStateProvider, new_provider, add_member, discard, members, container_total_uses,
  allocate_container, container_is_allocated, release_container, remove_container, store_session,
  delete_session,
}

pub data Call : Type 0 where
  allocate : String → String → Call
  release : String → String → Call
  remove_all : String → Call
  store : String → SessionData → Call
  delete : String → Call

unfoldable pub apply : Call → LocalStateProvider → Option LocalStateProvider
apply (allocate c s) p = allocate_container c s p
apply (release c s) p = some (release_container c s p)
apply (remove_all c) p = some (remove_container c p)
apply (store sid v) p = some (store_session sid v p)
apply (delete sid) p = some (delete_session sid p)

-- The provider after calls, the latest first.
unfoldable pub replay : List Call → Option LocalStateProvider
replay [] = some new_provider
replay (call ∷ calls) = elim (replay calls) [ none ↦ none | some p ↦ apply call p ]

-- By the history alone: the last call about the container and the session was to allocate it.
unfoldable pub holds : String → String → List Call → Bool
holds c s [] = false
holds c s (allocate d t ∷ calls) = if beq d c && beq t s then true else holds c s calls
holds c s (release d t ∷ calls) = if beq d c && beq t s then false else holds c s calls
holds c s (remove_all d ∷ calls) = if beq d c then false else holds c s calls
holds c s (store sid v ∷ calls) = holds c s calls
holds c s (delete sid ∷ calls) = holds c s calls

-- How often the container was allocated since it was last removed.
unfoldable pub allocations : String → List Call → ℕ
allocations c [] = 0
allocations c (allocate d t ∷ calls) =
    if beq d c then allocations c calls + 1 else allocations c calls
allocations c (release d t ∷ calls) = allocations c calls
allocations c (remove_all d ∷ calls) = if beq d c then 0 else allocations c calls
allocations c (store sid v ∷ calls) = allocations c calls
allocations c (delete sid ∷ calls) = allocations c calls

record Matches (calls : List Call) (p : LocalStateProvider) : Type 0 where
  held : (c s : String) → contains (members c p) s ≡ holds c s calls
  uses : (c : String) → container_total_uses c p ≡ allocations c calls
  keys : (c : String) → has c p.container_uses ≡ has c p.containers

contains-add_member :
    (s t : String) (xs : List String)
    → contains (add_member s xs) t ≡ (if beq s t then true else contains xs t)
contains-add_member s t xs = ground (arith, beq_iff s t, beq_iff t s)

pub contains-discard :
    (s t : String) (xs : List String)
    → contains (discard s xs) t ≡ (if beq s t then false else contains xs t)
unfolding discard
contains-discard s t [] = ground arith
contains-discard s t (x ∷ xs) =
    ground (arith, contains-discard s t xs, beq_iff s t, beq_iff t x, beq_iff x s)

get_of_present :
    (c : String) (t : Table String (List String))
    → has c t ≡ true
    → (xs : List String) × (get c t ≡ some xs)
unfolding get has
get_of_present c [] h = ground arith
get_of_present c ((d, ys) ∷ t) h = elim (Bool-cases (beq d c)) [
  | inl e ↦ (ys, ground (arith, e))
  | inr e ↦ let (xs, q) = get_of_present c t (ground (arith, e, h)) in (xs, ground (arith, e, q))
]

-- The provider that `allocate_container` makes of the containers and the members it starts from.
abbrev allocated :
    String
    → String
    → Table String (List String)
    → List String
    → LocalStateProvider
    → LocalStateProvider
allocated c s cs xs p = record p {
  containers = put c (add_member s xs) cs;
  container_uses = put c (container_total_uses c p + 1) p.container_uses;
}

allocated-Matches :
    (c s : String) (cs : Table String (List String)) (calls : List Call) (p : LocalStateProvider)
    → ((d : String) → beq c d ≡ false → get d cs ≡ get d p.containers)
    → ((d : String) → beq c d ≡ false → has d cs ≡ has d p.containers)
    → Matches calls p
    → Matches (allocate c s ∷ calls) (allocated c s cs (members c p) p)
unfolding holds allocations container_total_uses
allocated-Matches c s cs calls p same same_keys m = record {
  held = λ d t. ground (
    arith,
    get-put c d (add_member s (members c p)) cs,
    contains-add_member s t (members c p),
    m.held d t,
    m.held c t,
    same d,
    beq_iff c d,
  );
  uses = λ d. ground (
    arith,
    get-put c d (container_total_uses c p + 1) p.container_uses,
    m.uses d,
    m.uses c,
    beq_iff c d,
  );
  keys = λ d. ground (
    arith,
    has-put c d (container_total_uses c p + 1) p.container_uses,
    has-put c d (add_member s (members c p)) cs,
    m.keys d,
    same_keys d,
  );
}

allocate-Matches :
    (c s : String) (calls : List Call) (p : LocalStateProvider)
    → Matches calls p
    → (q : LocalStateProvider) × (allocate_container c s p ≡ some q)
      × Matches (allocate c s ∷ calls) q
unfolding allocate_container
allocate-Matches c s calls p m = elim (Bool-cases (has c p.container_uses)) [
  | inl old ↦
      let (xs, g) = get_of_present c p.containers (ground (arith, m.keys c, old)) in
      (
        allocated c s p.containers (members c p) p,
        ground (arith, old, g),
        allocated-Matches c s p.containers calls p (λ d n. refl) (λ d n. refl) m,
      )
  | inr new ↦
      let cs = put c [] p.containers in
      (
        allocated c s cs (members c p) p,
        ground (
          arith,
          new,
          get-put c c [] p.containers,
          beq_iff c c,
          get_of_has c p.containers,
          m.keys c,
        ),
        allocated-Matches c s cs calls p (λ d n. ground (arith, n, get-put c d [] p.containers))
            (λ d n. ground (arith, n, has-put c d [] p.containers)) m,
      )
]

release-Matches :
    (c s : String) (calls : List Call) (p : LocalStateProvider)
    → Matches calls p
    → Matches (release c s ∷ calls) (release_container c s p)
unfolding release_container holds allocations container_total_uses
release-Matches c s calls p m = elim (Option-cases (get c p.containers)) [
  | inl n ↦ record {
    held = λ d t. ground (arith, n, m.held d t, m.held c t, beq_iff c d);
    uses = λ d. ground (arith, n, m.uses d);
    keys = λ d. ground (arith, n, m.keys d);
  }
  | inr (xs, g) ↦ record {
    held = λ d t. ground (
      arith,
      g,
      get-put c d (discard s xs) p.containers,
      contains-discard s t xs,
      m.held d t,
      m.held c t,
      beq_iff c d,
    );
    uses = λ d. ground (arith, g, m.uses d);
    keys = λ d. ground (
      arith,
      g,
      m.keys d,
      has-put c d (discard s xs) p.containers,
      has-get c p.containers xs,
      beq_iff c d,
    );
  }
]

remove-Matches :
    (c : String) (calls : List Call) (p : LocalStateProvider)
    → Matches calls p
    → Matches (remove_all c ∷ calls) (remove_container c p)
unfolding remove_container holds allocations container_total_uses
remove-Matches c calls p m = record {
  held = λ d t. ground (arith, get-remove c d p.containers, m.held d t);
  uses = λ d. ground (arith, get-remove c d p.container_uses, m.uses d);
  keys =
      λ d. ground (arith, has-remove c d p.container_uses, has-remove c d p.containers, m.keys d);
}

new-Matches : Matches [] new_provider
unfolding get has holds allocations container_total_uses
new-Matches = record { held = λ c s. refl; uses = λ c. refl; keys = λ c. refl }

replay-Matches :
    (calls : List Call) → (p : LocalStateProvider) × (replay calls ≡ some p) × Matches calls p
unfolding replay apply holds allocations container_total_uses
replay-Matches [] = (new_provider, refl, new-Matches)
replay-Matches (allocate c s ∷ calls) =
    let (p, e, m) = replay-Matches calls in
    let (q, f, n) = allocate-Matches c s calls p m in (q, ground (arith, e, f), n)
replay-Matches (release c s ∷ calls) =
    let (p, e, m) = replay-Matches calls in
    (release_container c s p, ground (arith, e), release-Matches c s calls p m)
replay-Matches (remove_all c ∷ calls) =
    let (p, e, m) = replay-Matches calls in
    (remove_container c p, ground (arith, e), remove-Matches c calls p m)
replay-Matches (store sid v ∷ calls) =
    let (p, e, m) = replay-Matches calls in
    (
      store_session sid v p,
      ground (arith, e),
      record { held = λ c s. m.held c s; uses = λ c. m.uses c; keys = λ c. m.keys c },
    )
replay-Matches (delete sid ∷ calls) =
    let (p, e, m) = replay-Matches calls in
    (
      delete_session sid p,
      ground (arith, e),
      record { held = λ c s. m.held c s; uses = λ c. m.uses c; keys = λ c. m.keys c },
    )

some_member :
    (xs : List String) → (ltb 0 (length xs) ≡ true) ↔ ((s : String) × (contains xs s ≡ true))
some_member [] = (λ e. cc e, λ r. cc r.1)
some_member (x ∷ xs) = (λ e. (x, ground (arith, beq_iff x x)), λ r. ground arith)

allocated_iff :
    (c : String) (p : LocalStateProvider)
    → (container_is_allocated c p ≡ true) ↔ ((s : String) × (contains (members c p) s ≡ true))
unfolding container_is_allocated
allocated_iff c p = elim (Option-cases (get c p.containers)) [
  | inl n ↦ (λ e. absurd (ground (arith, n, e)), λ r. absurd (ground (arith, n, r.1)))
  | inr (xs, g) ↦
      let both = some_member xs in
      (
        λ e. let (s, f) = both.0 (ground (arith, g, e)) in (s, ground (arith, g, f)),
        λ r. ground (arith, g, both.1 (r.0, ground (arith, g, r.1))),
      )
]

-- After any calls none of which fails: a session is a member of a container exactly when the last call
-- about the two allocated it, a container is allocated exactly when some session is such, and its
-- total uses are its allocations since it was last removed.
pub replay_lem :
    (calls : List Call)
    → (p : LocalStateProvider) × (replay calls ≡ some p)
      × ((c s : String) → contains (members c p) s ≡ holds c s calls)
      × ((c : String)
          → (container_is_allocated c p ≡ true) ↔ ((s : String) × (holds c s calls ≡ true)))
      × ((c : String) → container_total_uses c p ≡ allocations c calls)
replay_lem calls =
    let (p, e, m) = replay-Matches calls in
    (
      p,
      e,
      m.held,
      λ c.
          let (to, of) = allocated_iff c p in
          (λ q. let (s, f) = to q in (s, sym (m.held c s) ∙ f), λ r. of (r.0, m.held c r.0 ∙ r.1)),
      m.uses,
    )
