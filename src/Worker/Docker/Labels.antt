-- ===== src/Worker/Docker/Labels.antt =====
-- Parts of the handlers take the provider through steps, whatever the daemon answers; a container that
-- is made has the labels it is made for.
use agent_rl.Common.{◌≡◌, Bool, Option, none, some, List, String, string_eq, if◌then◌else◌, All}
use agent_rl.Common.Table.{Table}
use agent_rl.Worker.Provider.{StateProvider}
use agent_rl.Worker.Docker.{
  Outcome, Container, shared, Attrs, DockerApi, Delegation, World, docker_call, change, asks, drawn,
  of_task,
}
use agent_rl.Worker.Docker.Triples.{Value, Anything, any_value, Ensures, attempts-Ensures}
use agent_rl.Worker.Docker.Containers.{create_container}
use agent_rl.Worker.Docker.Steps.{Step, Course, extends}
use agent_rl.Worker.Docker.Creating.{kind_of, Creates, create_container-Ensures}

-- What the code relies on of the labels of containers, which `kind` knows: a container has the labels it
-- is created with, a listing has containers of the labels it asks for, a task leaves the labels of the
-- attributes it configures, and shuffling adds nothing.
pub record IsLabelled {D : Type 0} (api : DockerApi D) (task : Delegation D)
    (kind : String → Option String) : Type 1 where
  pub listed :
      (t : String) (d : D)
      → Value (All (λ (c : Container). kind c.id ≡ some t)) (api.list (shared t) d).0
  pub made : (a : Attrs) (d : D) → Value (λ c. kind c ≡ kind_of a) (api.create a d).0
  pub configured : (a : Attrs) (d : D) → Value (λ b. kind_of b ≡ kind_of a) (task.configure a d).0
  pub shuffled :
      (P : Container → Type 0) (cs : List Container) (d : D) → All P cs → All P (api.shuffle cs d).0

module _ {D S : Type 0} (api : DockerApi D) (task : Delegation D) (provider : StateProvider S)
    (kind : String → Option String) (start : S) where
  abbrev pub On : World D S → Type 0
  On w = Course api task provider kind start w.state

  pub call :
      {A : Type 0} {V : A → Type 0} (retry : Bool) (operation : D → Outcome A × D)
      → ((d : D) → Value V (operation d).0)
      → Ensures On V (docker_call retry operation)
  call retry operation v =
      attempts-Ensures operation (λ w j. j) (record { holds = λ w j. (j, v w.daemon) })
        (if retry then 1 else 0)

  pub task_call :
      {A : Type 0} {V : A → Type 0} (operation : D → Outcome A × D)
      → ((d : D) → Value V (operation d).0)
      → Ensures On V (of_task operation)
  task_call operation v = record { holds = λ w j. (j, v w.daemon) }

  pub draw :
      {A : Type 0} {V : A → Type 0} (f : D → A × D) → ((d : D) → V (f d).0) → Ensures On V (drawn f)
  draw f v = record { holds = λ w j. (j, v w.daemon) }

  pub ask : {A : Type 0} (f : S → A) → Ensures On Anything (asks f)
  ask f = record { holds = λ w j. (j, tt) }

  pub move :
      (f : S → S)
      → ((st : S) → Step api task provider kind st (f st))
      → Ensures On Anything (change f)
  move f e = record { holds = λ w j. (extends j (e w.state), tt) }

  pub plain_call :
      {A : Type 0} (retry : Bool) (operation : D → Outcome A × D)
      → Ensures On Anything (docker_call retry operation)
  plain_call retry operation = call retry operation (λ d. any_value (operation d).0)

  pub On-Creates : IsLabelled api task kind → Creates api task On (λ k c. kind c ≡ k)
  On-Creates labelled = record {
    reset = λ w j. j;
    drawn_name = draw api.uuid (λ d. tt);
    configured = λ a. task_call (task.configure a) (labelled.configured a);
    made = λ a. record { holds = λ w j. (j, labelled.made a w.daemon) };
    pulled_image = λ i. record { holds = λ w j. (j, any_value (api.pull i w.daemon).0) };
    started = λ c. task_call (api.start c) (λ d. any_value (api.start c d).0);
  }

  pub create_container-On :
      IsLabelled api task kind
      → (t : String) (extra : Table String String) (is_exclusive : Bool)
      → Ensures On
          (λ c. kind c ≡ (if is_exclusive then none else some t))
          (create_container api task t extra is_exclusive)
  create_container-On labelled t extra is_exclusive =
      create_container-Ensures api task On (λ k c. kind c ≡ k) (On-Creates labelled) t extra
        is_exclusive
