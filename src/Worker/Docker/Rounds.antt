-- ===== src/Worker/Docker/Rounds.antt =====
-- How often the loop over one subtype goes round when no other worker is in between.
use agent_rl.Common.{
  ℕ, suc, ◌≡◌, refl, false, Option, none, some, List, [], ◌∷◌, ◌++◌, String, string_eq,
  Option-cases, Bool-cases, inl, inr, arith,
}
use agent_rl.Worker.Provider.{StateProvider}
use agent_rl.Worker.Docker.{
  Outcome, ok, docker_error, client_error, timeout_error, raises, waits, Container, DockerApi,
  Delegation, World, Action, pure, go_on, ◌>>=◌,
}
use agent_rl.Worker.Docker.Triples.{Value, any_value}
use agent_rl.Worker.Docker.Containers.{create_container}
use agent_rl.Worker.Docker.Creating.{Creates, create_container-Ensures}
use agent_rl.Worker.Docker.Sessions.{
  select, is_reached, share, allocate_shared, or_else, changed_to,
}
use agent_rl.Worker.Docker.Settling.{is_waiting, MakesNew, create_container-Settles}

module _ {D S : Type 0} (api : DockerApi D) (task : Delegation D) (provider : StateProvider S) where
  abbrev Unused : S → String → Type 0
  Unused st c =
      (provider.container_total_uses c st ≡ 0) × (provider.container_current_uses c st ≡ 0)

  -- A container that nobody has used has room.
  select-Unused :
      (t c : String) (cs : List Container) (st : S)
      → Unused st c
      → (d : String) × (select api task provider t
            (cs ++ record { id = c; depends_on = [] } ∷ [])
            st
          ≡ some d)
  unfolding select
  select-Unused t c [] st u = (c, ground (arith, u.0, u.1))
  select-Unused t c (k ∷ cs) st u =
      let (d, e) = select-Unused t c cs st u in
      elim (Bool-cases (is_reached (task.reuse_limit t) (provider.container_total_uses k.id st))) [
        | inl p ↦ (d, ground (arith, p, e))
        | inr p ↦
            elim (Bool-cases
              (is_reached (task.concurrency_limit t) (provider.container_current_uses k.id st))) [
                | inl q ↦ (d, ground (arith, p, q, e))
                | inr q ↦ (k.id, ground (arith, p, q))
              ]
      ]

  took :
      (more : Action D S String) (d : String) (o : Option S) (w : World D S)
      → let a =
          go_on {D = D} {S = S}
            (λ (x : Unit {0}). pure (some d))
            (changed_to api task provider o w).0
            (changed_to api task provider o w).1 in
        is_waiting (go_on (or_else api task provider more) a.0 a.1).0 ≡ false
  took more d none w = refl
  took more d (some st) w = refl

  share-room :
      (rounds : ℕ) (t s d : String) (cs : List Container) (w : World D S)
      → select api task provider t cs w.state ≡ some d
      → is_waiting (share api task provider (suc rounds) t s cs w).0 ≡ false
  unfolding share allocate_shared ◌>>=◌
  share-room rounds t s d cs w e = rw e (took _ d (provider.allocate_container d s w.state) w)

  module _ (st : S) (new : MakesNew api task provider st) where
    abbrev Here : World D S → Type 0
    Here w = (w.state ≡ st) × new.later w.daemon

    Here-Creates : Creates api task Here (λ k c. Unused st c)
    Here-Creates = record {
      reset = λ w j. j;
      drawn_name = record { holds = λ w j. ((j.0, new.later_uuid w.daemon j.1), tt) };
      configured = λ a. record {
        holds = λ w j. ((j.0, new.later_configure a w.daemon j.1), new.configured a w.daemon);
      };
      made = λ a. record {
        holds = λ w j. ((j.0, new.later_create a w.daemon j.1), new.made_new a w.daemon j.1);
      };
      pulled_image = λ i. record {
        holds = λ w j. ((j.0, new.later_pull i w.daemon j.1), any_value (api.pull i w.daemon).0);
      };
      started = λ c. record {
        holds = λ w j. ((j.0, new.later_start c w.daemon j.1), any_value (api.start c w.daemon).0);
      };
    }

    share-created :
        (rounds : ℕ) (t s : String) (cs : List Container) (o : Outcome String) (w : World D S)
        → is_waiting o ≡ false
        → Here w
        → Value (Unused st) o
        → is_waiting
            (go_on
              (λ c.
                share api task provider
                  (suc rounds)
                  t
                  s
                  (cs ++ record { id = c; depends_on = [] } ∷ []))
              o
              w).0
          ≡ false
    share-created rounds t s cs (ok c) w n j u =
        let (d, e) = select-Unused t c cs w.state (rw j.0 u) in
        share-room rounds t s d (cs ++ record { id = c; depends_on = [] } ∷ []) w e
    share-created rounds t s cs (docker_error status) w n j u = refl
    share-created rounds t s cs client_error w n j u = refl
    share-created rounds t s cs timeout_error w n j u = refl
    share-created rounds t s cs raises w n j u = refl
    share-created rounds t s cs waits w n j u = n

  -- When no other worker comes in between, calls of the daemon end and a container that is made has an
  -- id that the provider does not know, two rounds of the loop end it with a container or an exception.
  pub share_ends :
      (w : World D S) (new : MakesNew api task provider w.state) (rounds : ℕ) (t s : String)
      (cs : List Container)
      → new.later w.daemon
      → is_waiting (share api task provider (suc (suc rounds)) t s cs w).0 ≡ false
  unfolding share allocate_shared ◌>>=◌
  share_ends w new rounds t s cs l = elim (Option-cases (select api task provider t cs w.state)) [
    | inr (d, f) ↦ share-room (suc rounds) t s d cs w f
    | inl n ↦
        let c = create_container {S = S} api task t [] false in
        let (j, v) =
          (create_container-Ensures api task (Here w.state new) (λ k c. Unused w.state c)
              (Here-Creates w.state new) t [] false).holds
            w (refl, l) in
        rw n (
          share-created w.state new rounds t s cs (c w).0 (c w).1
            ((create_container-Settles api task provider w.state new t [] false).settled w) j v)
  ]
