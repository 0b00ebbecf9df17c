-- ===== src/Worker/Docker/Starting.antt =====
-- What starts a session takes the provider through steps.
use agent_rl.Common.{
  ℕ, zero, suc, ◌≡◌, refl, sym, Bool, true, false, Option, none, some, List, [], ◌∷◌, ◌++◌, String,
  string_eq, beq, beq_iff, Bool-cases, inl, inr, All, arith,
}
use mathlib.Core.Path.{subst}
use agent_rl.Common.Table.{Table, get}
use agent_rl.Worker.Provider.{StateProvider}
use agent_rl.Worker.Docker.{
  raises, waits, Container, shared, not_started, not_healthy, DockerApi, Delegation, World, Action,
  ◌>>=◌,
}
use agent_rl.Worker.Docker.Triples.{
  Anything, any_value, Ensures, outcome-Ensures, pure-Ensures, go_on-Ensures, bind-Ensures,
  if-Ensures,
}
use agent_rl.Worker.Docker.Containers.{
  container_url, identify_containers, wait_for_health, is_some_of,
}
use agent_rl.Worker.Docker.Sessions.{
  Starting, select, allocate, allocate_shared, changed_to, take, share, or_else, is_own,
  allocate_own, candidates_of, share_all, urls, add_homepage, start_session, are_valid, values,
}
use agent_rl.Worker.Docker.Steps.{Step, shares, owns, stores, extends}
use agent_rl.Worker.Docker.Labels.{
  IsLabelled, On, call, task_call, draw, move, plain_call, create_container-On,
}

module _ {D S : Type 0} (api : DockerApi D) (task : Delegation D) (provider : StateProvider S)
    (kind : String → Option String) (labelled : IsLabelled api task kind) (start : S) where
  abbrev OnCourse : World D S → Type 0
  OnCourse w = On api task provider kind start w

  abbrev OfKind : Option String → Container → Type 0
  OfKind k c = kind c.id ≡ k

  -- Listings of shared containers, by their subtypes
  abbrev AreListed : Table String (List Container) → Type 0
  AreListed found = All (λ (e : String × List Container). All (OfKind (some e.0)) e.1) found

  changed_to-On :
      (o : Option S) (w : World D S)
      → OnCourse w
      → ((st : S) → o ≡ some st → Step api task provider kind w.state st)
      → OnCourse (changed_to api task provider o w).1
  changed_to-On none w j e = j
  changed_to-On (some st) w j e = extends j (e st refl)

  allocate_own_one :
      (c s : String) → kind c ≡ none → Ensures OnCourse Anything (allocate api task provider c s)
  allocate_own_one c s k = record {
    holds = λ w j. (
      changed_to-On (provider.allocate_container c s w.state) w j (λ st e. owns c s k e),
      any_value (allocate api task provider c s w).0,
    );
  }

  take-On :
      (t s : String) (cs : List Container) (o : Option String) (w : World D S)
      → All (OfKind (some t)) cs
      → select api task provider t cs w.state ≡ o
      → OnCourse w
      → OnCourse (take api task provider s o w).1
  unfolding ◌>>=◌
  take-On t s cs none w a e j = j
  take-On t s cs (some c) w a e j =
      let j2 =
        changed_to-On (provider.allocate_container c s w.state) w j
          (λ st f. shares t s c cs a e f) in
      ((go_on-Ensures {J = OnCourse} {V = Anything} (λ u _. pure-Ensures {V = Anything} (some c) tt)
          (allocate api task provider c s w).0
          (any_value (allocate api task provider c s w).0)).holds
        (allocate api task provider c s w).1 j2).0

  allocate_shared-On :
      (t s : String) (cs : List Container)
      → All (OfKind (some t)) cs
      → Ensures OnCourse Anything (allocate_shared api task provider t s cs)
  unfolding allocate_shared
  allocate_shared-On t s cs a = record {
    holds = λ w j. (
      take-On t s cs (select api task provider t cs w.state) w a refl j,
      any_value (allocate_shared api task provider t s cs w).0,
    );
  }

  or_else-On :
      (m : Action D S String) (o : Option String)
      → Ensures OnCourse Anything m
      → Ensures OnCourse Anything (or_else api task provider m o)
  or_else-On m none e = e
  or_else-On m (some c) e = pure-Ensures c tt

  with_fresh :
      (t c : String) (cs : List Container)
      → All (OfKind (some t)) cs
      → kind c ≡ some t
      → All (OfKind (some t)) (cs ++ record { id = c; depends_on = [] } ∷ [])
  with_fresh t c [] a e = (e, tt)
  with_fresh t c (k ∷ cs) a e = (a.0, with_fresh t c cs a.1 e)

  share-On :
      (rounds : ℕ) (t s : String) (cs : List Container)
      → All (OfKind (some t)) cs
      → Ensures OnCourse Anything (share api task provider rounds t s cs)
  unfolding share
  share-On zero t s cs a = outcome-Ensures waits tt
  share-On (suc rounds) t s cs a = bind-Ensures (allocate_shared-On t s cs a) (λ selected _.
      or_else-On _ selected (
        bind-Ensures (create_container-On api task provider kind start labelled t [] false)
          (λ fresh k.
            share-On rounds t s (cs ++ record { id = fresh; depends_on = [] } ∷ [])
              (with_fresh t fresh cs a k))))

  allocate_own-On :
      (immutable : Bool) (s : String) (ts : List String) (begun : Starting)
      → Ensures OnCourse Anything (allocate_own api task provider immutable s ts begun)
  unfolding allocate_own
  allocate_own-On immutable s [] begun = pure-Ensures begun tt
  allocate_own-On immutable s (t ∷ ts) begun =
      if-Ensures (is_own api task provider immutable t)
        (λ _.
          bind-Ensures (create_container-On api task provider kind start labelled t [] true) (λ c k.
            bind-Ensures (allocate_own_one c s k) (λ _ _. allocate_own-On immutable s ts _)))
        (λ _. allocate_own-On immutable s ts _)

  identify-On : (ts : List String) → Ensures OnCourse AreListed (identify_containers api ts)
  unfolding identify_containers
  identify-On [] = pure-Ensures [] tt
  identify-On (t ∷ ts) =
      bind-Ensures
        (call api task provider kind start true (api.list (shared t)) (λ d. labelled.listed t d))
        (λ cs a. bind-Ensures (identify-On ts) (λ rest b. pure-Ensures ((t, cs) ∷ rest) (a, b)))

  candidates_at :
      (t u : String) (cs : List Container) (found : Table String (List Container))
      → beq u t ≡ true
      → candidates_of api task provider t ((u, cs) ∷ found) ≡ cs
  unfolding get
  candidates_at t u cs found b = ground (arith, b)

  candidates_past :
      (t u : String) (cs : List Container) (found : Table String (List Container))
      → beq u t ≡ false
      → candidates_of api task provider t ((u, cs) ∷ found)
        ≡ candidates_of api task provider t found
  unfolding get
  candidates_past t u cs found b = ground (arith, b)

  candidates :
      (t : String) (found : Table String (List Container))
      → AreListed found
      → All (OfKind (some t)) (candidates_of api task provider t found)
  unfolding get
  candidates t [] a = tt
  candidates t ((u, cs) ∷ found) a = elim (Bool-cases (beq u t)) [
    | inl b ↦
        subst (All (OfKind (some t))) (sym (candidates_at t u cs found b))
          (rw (sym ((beq_iff u t).0 b)) a.0)
    | inr b ↦
        subst (All (OfKind (some t))) (sym (candidates_past t u cs found b))
          (candidates t found a.1)
  ]

  share_all-On :
      (rounds : ℕ) (s : String) (found : Table String (List Container)) (ts : List String)
      (begun : Starting)
      → AreListed found
      → Ensures OnCourse Anything (share_all api task provider rounds s found ts begun)
  unfolding share_all
  share_all-On rounds s found [] begun a = pure-Ensures begun tt
  share_all-On rounds s found (t ∷ ts) begun a =
      bind-Ensures
        (draw api task provider kind start (api.shuffle (candidates_of api task provider t found))
          (λ d. labelled.shuffled (OfKind (some t)) _ d (candidates t found a)))
        (λ cs b.
          bind-Ensures (share-On rounds t s cs b) (λ c _. share_all-On rounds s found ts _ a))

  urls-On : (cs : Table String String) → Ensures OnCourse Anything (urls api task provider cs)
  unfolding urls container_url
  urls-On [] = pure-Ensures [] tt
  urls-On ((t, c) ∷ rest) =
      bind-Ensures {V = Anything}
        (bind-Ensures
          (task_call api task provider kind start (api.address c)
            (λ d. any_value (api.address c d).0))
          (λ ip _. pure-Ensures _ tt))
        (λ u _. bind-Ensures (urls-On rest) (λ us _. pure-Ensures _ tt))

  add_homepage-On :
      (s : String) (begun : Starting) (page : Option String)
      → Ensures OnCourse Anything (add_homepage api task provider s begun page)
  add_homepage-On s begun none = pure-Ensures begun tt
  add_homepage-On s begun (some t) = bind-Ensures (urls-On begun.containers) (λ us _.
      bind-Ensures
        (create_container-On api task provider kind start labelled t (task.homepage_envs us) true)
        (λ c k. bind-Ensures (allocate_own_one c s k) (λ _ _. pure-Ensures _ tt)))

  wait_for_health-On :
      (looks : ℕ) (ids : List String) → Ensures OnCourse Anything (wait_for_health api looks ids)
  unfolding wait_for_health
  wait_for_health-On zero ids = outcome-Ensures waits tt
  wait_for_health-On (suc looks) ids =
      bind-Ensures (plain_call api task provider kind start true (api.list (not_started ids)))
        (λ young _.
          if-Ensures (is_some_of young) (λ _. wait_for_health-On looks ids)
            (λ _.
              bind-Ensures
                (plain_call api task provider kind start true (api.list (not_healthy ids)))
                (λ ill _.
                  if-Ensures (is_some_of ill) (λ _. wait_for_health-On looks ids)
                    (λ _. pure-Ensures tt tt))))

  pub start_session-On :
      (rounds looks : ℕ) (ts : List String) (immutable : Bool)
      → Ensures OnCourse Anything (start_session api task provider rounds looks ts immutable)
  unfolding start_session
  start_session-On rounds looks ts immutable =
      if-Ensures (are_valid api task provider ts)
        (λ _.
          bind-Ensures (draw api task provider kind start {V = Anything} api.uuid (λ d. tt)) (λ s _.
            bind-Ensures (allocate_own-On immutable s ts _) (λ begun _.
              bind-Ensures (identify-On begun.to_share) (λ found a.
                bind-Ensures (share_all-On rounds s found begun.to_share begun a) (λ with_shared _.
                  bind-Ensures (add_homepage-On s with_shared task.homepage) (λ all_of _.
                    bind-Ensures
                      (move api task provider kind start (provider.store_session s _)
                        (λ st. stores s _))
                      (λ _ _.
                        bind-Ensures (wait_for_health-On looks (values all_of.containers)) (λ _ _.
                          bind-Ensures (urls-On all_of.containers)
                            (λ us _. pure-Ensures _ tt)))))))))
        (λ _. outcome-Ensures raises tt)
