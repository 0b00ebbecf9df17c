-- ===== src/Worker/Docker/Ending.antt =====
-- What deletes containers, renews and ends sessions takes the provider through steps.
use agent_rl.Common.{
  ℕ, zero, suc, true, false, ◌||◌, ◌==◌, Option, none, some, List, [], ◌∷◌, String, string_eq, ltb,
  contains,
}
use agent_rl.Worker.Provider.{SessionData, StateProvider}
use agent_rl.Worker.Docker.{
  Outcome, docker_error, client_error, waits, Container, shared, exclusive, unhealthy_shared,
  DockerApi, Delegation, Action,
}
use agent_rl.Worker.Docker.Triples.{
  Anything, any_value, Ensures, outcome-Ensures, pure-Ensures, catch-Ensures, bind-Ensures,
  if-Ensures, for_each-Ensures,
}
use agent_rl.Worker.Docker.Containers.{
  delete_container, identify_containers, loaded, deleted, or_unlabelled, or_gone, close_shell,
  delete_labelled, delete_listed, delete_unallocated, delete_worn, clean_worn, clean_containers,
}
use agent_rl.Worker.Docker.Sessions.{
  renew_session, end_session, end_found, renew_found, values, release_unless,
}
use agent_rl.Worker.Docker.Steps.{releases, removes, renews, renews_session, ends}
use agent_rl.Worker.Docker.Labels.{On, ask, move, plain_call}

module _ {D S : Type 0} (api : DockerApi D) (task : Delegation D) (provider : StateProvider S)
    (kind : String → Option String) (start : S) where
  or_unlabelled-On :
      (o : Outcome (List String))
      → Ensures (On api task provider kind start) Anything (or_unlabelled o)
  or_unlabelled-On (docker_error status) = pure-Ensures [] tt
  or_unlabelled-On o = outcome-Ensures o (any_value o)

  or_gone-On :
      (o : Outcome (Unit {0})) → Ensures (On api task provider kind start) Anything (or_gone o)
  or_gone-On (docker_error status) = pure-Ensures tt tt
  or_gone-On client_error = pure-Ensures tt tt
  or_gone-On o = outcome-Ensures o (any_value o)

  close_shell-On : (c : String) → Ensures (On api task provider kind start) Anything (close_shell c)
  close_shell-On c = record { holds = λ w j. (j, tt) }

  delete_labelled-On :
      (other : String → Action D S (Unit {0})) (c : String) (deps : List String)
      → ((d : String) → Ensures (On api task provider kind start) Anything (other d))
      → Ensures
          (On api task provider kind start)
          Anything
          (delete_labelled api provider other c deps)
  unfolding delete_labelled deleted
  delete_labelled-On other c deps h = bind-Ensures (close_shell-On c) (λ _ _.
      bind-Ensures (for_each-Ensures deps h) (λ _ _.
        bind-Ensures
          (catch-Ensures (plain_call api task provider kind start false (api.delete c))
            (λ o v. or_gone-On o))
          (λ _ _.
            move api task provider kind start (provider.remove_container c) (λ st. removes c))))

  delete_container-On :
      (depth : ℕ) (c : String)
      → Ensures (On api task provider kind start) Anything (delete_container api provider depth c)
  unfolding delete_container loaded
  delete_container-On zero c = outcome-Ensures waits tt
  delete_container-On (suc depth) c =
      bind-Ensures
        (catch-Ensures (plain_call api task provider kind start true (api.depends_on c))
          (λ o v. or_unlabelled-On o))
        (λ deps _.
          delete_labelled-On (delete_container api provider depth) c deps
            (delete_container-On depth))

  delete_listed-On :
      (depth : ℕ) (c : Container)
      → Ensures (On api task provider kind start) Anything (delete_listed api provider depth c)
  unfolding delete_listed
  delete_listed-On depth c =
      delete_labelled-On (delete_container api provider depth) c.id c.depends_on
        (delete_container-On depth)

  delete_unallocated-On :
      (depth : ℕ) (c : Container)
      → Ensures (On api task provider kind start) Anything (delete_unallocated api provider depth c)
  unfolding delete_unallocated
  delete_unallocated-On depth c =
      bind-Ensures (ask api task provider kind start (provider.container_is_allocated c.id))
        (λ used _. if-Ensures used (λ _. pure-Ensures tt tt) (λ _. delete_listed-On depth c))

  delete_worn-On :
      (depth limit : ℕ) (c : Container)
      → Ensures (On api task provider kind start) Anything (delete_worn api provider depth limit c)
  unfolding delete_worn
  delete_worn-On depth limit c =
      bind-Ensures (ask api task provider kind start (provider.container_is_allocated c.id))
        (λ used _.
          bind-Ensures (ask api task provider kind start (provider.container_total_uses c.id))
            (λ total _.
              if-Ensures (used || ltb total limit) (λ _. pure-Ensures tt tt)
                (λ _. delete_listed-On depth c)))

  clean_worn-On :
      (depth : ℕ) (found : String × List Container)
      → Ensures
          (On api task provider kind start)
          Anything
          (clean_worn api task provider depth found)
  clean_worn-On depth found =
      if-Ensures (task.reuse_limit found.0 == 0) (λ _. pure-Ensures tt tt)
        (λ _. for_each-Ensures found.1 (delete_worn-On depth (task.reuse_limit found.0)))

  identify_any :
      (ts : List String)
      → Ensures (On api task provider kind start) Anything (identify_containers api ts)
  unfolding identify_containers
  identify_any [] = pure-Ensures [] tt
  identify_any (t ∷ ts) =
      bind-Ensures (plain_call api task provider kind start true (api.list (shared t)))
        (λ cs _. bind-Ensures (identify_any ts) (λ rest _. pure-Ensures ((t, cs) ∷ rest) tt))

  pub clean_containers-On :
      (depth : ℕ)
      → Ensures
          (On api task provider kind start)
          Anything
          (clean_containers api task provider depth)
  unfolding clean_containers
  clean_containers-On depth =
      bind-Ensures (plain_call api task provider kind start true (api.list exclusive)) (λ cs _.
        bind-Ensures (for_each-Ensures cs (delete_unallocated-On depth)) (λ _ _.
          bind-Ensures (plain_call api task provider kind start true (api.list unhealthy_shared))
            (λ ds _. bind-Ensures (for_each-Ensures ds (delete_unallocated-On depth)) (λ _ _.
              bind-Ensures (identify_any task.subtypes)
                (λ found _. for_each-Ensures found (clean_worn-On depth))))))

  renew_found-On :
      (s : String) (found : Option SessionData)
      → Ensures (On api task provider kind start) Anything (renew_found api task provider s found)
  renew_found-On s none = pure-Ensures tt tt
  renew_found-On s (some v) =
      for_each-Ensures (values v.containers)
        (λ c. move api task provider kind start (provider.renew_container c s) (λ st. renews c s))

  pub renew_session-On :
      (s : String)
      → Ensures (On api task provider kind start) Anything (renew_session api task provider s)
  unfolding renew_session
  renew_session-On s =
      bind-Ensures
        (move api task provider kind start (provider.renew_session s) (λ st. renews_session s))
        (λ _ _.
          bind-Ensures (ask api task provider kind start (provider.get_session s))
            (λ found _. renew_found-On s found))

  release_unless-On :
      (own : List String) (s c : String)
      → Ensures
          (On api task provider kind start)
          Anything
          (release_unless api task provider own s c)
  release_unless-On own s c =
      if-Ensures (contains own c) (λ _. pure-Ensures tt tt)
        (λ _.
          move api task provider kind start (provider.release_container c s) (λ st. releases c s))

  end_found-On :
      (depth : ℕ) (s : String) (found : Option SessionData)
      → Ensures
          (On api task provider kind start)
          Anything
          (end_found api task provider depth s found)
  end_found-On depth s none = pure-Ensures tt tt
  end_found-On depth s (some v) =
      bind-Ensures
        (for_each-Ensures (values v.containers) (release_unless-On v.exclusive_containers s))
        (λ _ _. for_each-Ensures v.exclusive_containers (delete_container-On depth))

  pub end_session-On :
      (depth : ℕ) (s : String)
      → Ensures (On api task provider kind start) Anything (end_session api task provider depth s)
  unfolding end_session
  end_session-On depth s =
      bind-Ensures (ask api task provider kind start (provider.get_session s)) (λ found _.
        bind-Ensures (end_found-On depth s found)
          (λ _ _. move api task provider kind start (provider.delete_session s) (λ st. ends s)))
