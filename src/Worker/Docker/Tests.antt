-- ===== src/Worker/Docker/Tests.antt =====
-- A daemon that makes one container for browsers, which two sessions may use at a time and three in all.
use agent_rl.Common.{
  ℕ, zero, suc, ◌≡◌, refl, Bool, true, false, Option, none, some, List, [], ◌∷◌, String, string_eq,
  beq, beq_iff, if◌then◌else◌, All, arith,
}
use agent_rl.Worker.Provider.{SessionData}
use agent_rl.Common.Table.{remove, get, has, put}
use agent_rl.Worker.State.{
  release_container, discard, remove_container, LocalStateProvider, new_provider,
  allocate_container, container_current_uses, container_total_uses,
}
use agent_rl.Worker.State.Counting.{local_provider, local-IsCounting}
use agent_rl.Worker.Docker.{
  Outcome, ok, docker_error, Container, Listing, shared, DockerApi, Delegation, World, http_port,
  attempts, ◌>>=◌,
}
use agent_rl.Worker.Docker.Triples.{Value}
use agent_rl.Worker.Docker.Labels.{IsLabelled}
use agent_rl.Worker.Docker.Sessions.{
  end_session, values, select, share, start_session, allocate_shared, allocate_own, share_all, urls,
  are_valid,
}
use agent_rl.Worker.Docker.Containers.{
  delete_container, delete_labelled, loaded, deleted, for_each, create_container, created,
  identify_containers, wait_for_health, container_url,
}
use agent_rl.Worker.Docker.Steps.{Course, here, extends, shares, Within, Course-Within}
use agent_rl.Worker.Docker.Settling.{is_waiting, MakesNew}
use agent_rl.Worker.Docker.Rounds.{share_ends}
use agent_rl.Worker.Docker.Freeing.{AnswersDeletes}
use agent_rl.Worker.Docker.SessionEnd.{end_session_frees}
use agent_rl.Worker.Docker.Handlers.{starts, after_handler, handler-Course}

abbrev box : Container
box = record { id = "box"; depends_on = [] }

abbrev make : (is_exclusive is_browser : Bool) → ℕ → Outcome String × ℕ
make true b d = (docker_error 500, d)
make false false d = (docker_error 500, d)
make false true d = (ok "box", suc d)

abbrev boxes : ℕ → List Container
boxes zero = []
boxes (suc d) = box ∷ []

abbrev listing : Listing → ℕ → List Container
listing (shared t) d = if beq t "browser" then boxes d else []
listing _ d = []

abbrev daemon : DockerApi ℕ
daemon = record {
  uuid = λ d. ("s1", d);
  shuffle = λ cs d. (cs, d);
  create = λ a d. make a.is_exclusive (beq a.subtype "browser") d;
  start = λ c d. (ok tt, d);
  pull = λ i d. (ok tt, d);
  list = λ l d. (ok (listing l d), d);
  depends_on = λ c d. (ok [], d);
  delete = λ c d. (ok tt, d);
  address = λ c d. (ok "10.0.0.2", d);
}

abbrev browsing : Delegation ℕ
browsing = record {
  subtypes = "browser" ∷ [];
  concurrency_limit = λ t. 2;
  reuse_limit = λ t. 3;
  configure = λ a d. (ok (record a { image = some "browser:1" }), d);
  images = [];
  service_port = λ t. some 8080;
  homepage = none;
  homepage_envs = λ us. [];
}

abbrev kind : String → Option String
kind c = if beq c "box" then some "browser" else none

boxes-Value : (d : ℕ) → All (λ (c : Container). kind c.id ≡ some "browser") (boxes d)
boxes-Value zero = tt
boxes-Value (suc d) = (refl, tt)

listed_boxes :
    (t : String) (b : Bool) (d : ℕ)
    → beq t "browser" ≡ b
    → All (λ (c : Container). kind c.id ≡ some t) (if b then boxes d else [])
listed_boxes t true d e = rw ((beq_iff t "browser").0 e) (boxes-Value d)
listed_boxes t false d e = tt

made_box :
    (t : String) (x b : Bool) (d : ℕ)
    → beq t "browser" ≡ b
    → Value (λ c. kind c ≡ (if x then none else some t)) (make x b d).0
made_box t true b d e = tt
made_box t false false d e = tt
made_box t false true d e = rw ((beq_iff t "browser").0 e) refl

labelled : IsLabelled daemon browsing kind
labelled = record {
  listed = λ t d. listed_boxes t (beq t "browser") d refl;
  made = λ a d. made_box a.subtype a.is_exclusive (beq a.subtype "browser") d refl;
  configured = λ a d. refl;
  shuffled = λ P cs d a. a;
}

nobody_yet : Within daemon browsing local_provider kind new_provider
unfolding container_current_uses container_total_uses get
nobody_yet = record { concurrent = λ c t k l. ground arith; reused = λ c t k l. ground arith }

abbrev one_user : LocalStateProvider
one_user = record {
  containers = ("box", "s1" ∷ []) ∷ [];
  container_uses = ("box", 1) ∷ [];
  sessions = [];
}

one_step : Course daemon browsing local_provider kind new_provider one_user
unfolding select container_current_uses container_total_uses allocate_container get has put
one_step = extends here (shares "browser" "s1" "box" (box ∷ []) (refl, tt) refl refl)

Course-Within_example : Within daemon browsing local_provider kind one_user
Course-Within_example =
    Course-Within daemon browsing local_provider kind local-IsCounting new_provider one_user
      one_step nobody_yet

abbrev first_world : World ℕ LocalStateProvider
first_world = record { daemon = 0; state = new_provider; has_client = false; shells = [] }

handler-Course_example :
    Course daemon browsing local_provider kind first_world.state
      (after_handler daemon browsing local_provider
        (starts 2 1 ("browser" ∷ []) true)
        first_world).state
handler-Course_example =
    handler-Course daemon browsing local_provider kind labelled (starts 2 1 ("browser" ∷ []) true)
      first_world

unused :
    (x b : Bool) (d : ℕ)
    → Value
        (λ (c : String).
          (container_total_uses c new_provider ≡ 0) × (container_current_uses c new_provider ≡ 0))
        (make x b d).0
unfolding container_current_uses container_total_uses get
unused true b d = tt
unused false false d = tt
unused false true d = (refl, refl)

make_ends : (x b : Bool) (d : ℕ) → is_waiting (make x b d).0 ≡ false
make_ends true b d = refl
make_ends false false d = refl
make_ends false true d = refl

abbrev makes_new : MakesNew daemon browsing local_provider new_provider
makes_new = record {
  later = λ d. Unit {0};
  later_uuid = λ d l. tt;
  later_create = λ a d l. tt;
  later_pull = λ i d l. tt;
  later_start = λ c d l. tt;
  later_configure = λ a d l. tt;
  configured = λ a d. refl;
  made_new = λ a d l. unused a.is_exclusive (beq a.subtype "browser") d;
  create_ends = λ a d. make_ends a.is_exclusive (beq a.subtype "browser") d;
  pull_ends = λ i d. refl;
  start_ends = λ c d. refl;
  configure_ends = λ a d. refl;
}

share_ends_example :
    is_waiting (share daemon browsing local_provider 2 "browser" "s1" [] first_world).0 ≡ false
share_ends_example =
    share_ends daemon browsing local_provider first_world makes_new 0 "browser" "s1" [] tt

-- A session starts with a container that is made for it.
started :
    (start_session daemon browsing local_provider 2 1 ("browser" ∷ []) true first_world).0
    ≡ ok ("s1", ("browser", "box") ∷ [], ("browser", http_port "10.0.0.2" 8080) ∷ [])
unfolding start_session are_valid allocate_own identify_containers share_all share allocate_shared
    select create_container created attempts allocate_container container_total_uses
    container_current_uses wait_for_health urls container_url get has put ◌>>=◌
started = refl

abbrev answers_deletes : AnswersDeletes daemon
answers_deletes = record {
  rank = λ c. 0;
  answers = λ c d. refl;
  ranked = λ c d. tt;
  deletes = λ c d. refl;
}

abbrev both_held : SessionData
both_held = record {
  containers = ("browser", "box") ∷ ("shop", "shop1") ∷ [];
  exclusive_containers = "shop1" ∷ [];
}

abbrev two_held : World ℕ LocalStateProvider
two_held = record first_world {
  state = record {
    containers = ("box", "s1" ∷ "s2" ∷ []) ∷ ("shop1", "s1" ∷ []) ∷ [];
    container_uses = ("box", 2) ∷ ("shop1", 1) ∷ [];
    sessions = ("s1", both_held) ∷ [];
  };
}

stored_there : local_provider.get_session "s1" two_held.state ≡ some both_held
unfolding get
stored_there = refl

end_session_frees_example :
    ((end_session daemon browsing local_provider 1 "s1" two_held).0 ≡ ok tt)
    × All
        (λ c.
          local-IsCounting.uses c "s1"
            (end_session daemon browsing local_provider 1 "s1" two_held).1.state
          ≡ false)
        (values both_held.containers)
    × All
        (λ c.
          local-IsCounting.uses c "s1"
            (end_session daemon browsing local_provider 1 "s1" two_held).1.state
          ≡ false)
        both_held.exclusive_containers
    × (local_provider.get_session "s1"
          (end_session daemon browsing local_provider 1 "s1" two_held).1.state
        ≡ none)
end_session_frees_example =
    end_session_frees daemon browsing local_provider local-IsCounting answers_deletes "s1" 1
      both_held two_held stored_there (ground arith, tt)

-- The other session keeps the shared container, and the session's own container is gone.
left_over :
    (end_session daemon browsing local_provider 1 "s1" two_held).1.state.containers
    ≡ ("box", "s2" ∷ []) ∷ []
unfolding end_session delete_container delete_labelled loaded deleted attempts for_each
    release_container discard remove_container get has put remove ◌>>=◌
left_over = refl
