-- ===== src/Worker/Docker/Freeing.antt =====
-- What the end of a session frees.
use agent_rl.Common.{
  ℕ, zero, suc, ◌<◌, ◌≡◌, refl, ap, ◌∙◌, Bool, true, false, ◌⊎◌, inl, inr, List, [], ◌∷◌, String,
  string_eq, beq, beq_iff, Bool-cases, All, arith,
}
use agent_rl.Worker.Provider.{StateProvider, IsCounting}
use agent_rl.Worker.Docker.{
  Outcome, ok, docker_error, client_error, timeout_error, raises, waits, DockerApi, Delegation,
  World, Action, ◌>>=◌, ◌>>◌, attempt, attempts, or_retry, is_retryable, docker_call, change,
}
use agent_rl.Worker.Docker.Triples.{Value, attempts-Ensures}
use agent_rl.Worker.Docker.Containers.{
  delete_container, delete_labelled, loaded, deleted, or_unlabelled, or_gone, close_shell, for_each,
}

-- An answer of the daemon, or a failure that the deletion of a container gets over
abbrev is_answer : {A : Type 0} → Outcome A → Bool
is_answer (ok a) = true
is_answer (docker_error status) = true
is_answer _ = false

abbrev is_harmless : {A : Type 0} → Outcome A → Bool
is_harmless client_error = true
is_harmless o = is_answer o

-- What the code relies on of the daemon in deletions: it answers, and a container depends on containers
-- of a lower rank, as those that were made before it.
pub record AnswersDeletes {D : Type 0} (api : DockerApi D) : Type 0 where
  pub rank : String → ℕ
  pub answers : (c : String) (d : D) → is_answer (api.depends_on c d).0 ≡ true
  pub ranked : (c : String) (d : D) → Value (All (λ e. rank e < rank c)) (api.depends_on c d).0
  pub deletes : (c : String) (d : D) → is_harmless (api.delete c d).0 ≡ true

module _ {D S : Type 0} where
  retry_answers :
      {A : Type 0} (operation : D → Outcome A × D) (o : Outcome A) (w : World D S)
      → ((d : D) → is_answer (operation d).0 ≡ true)
      → is_answer o ≡ true
      → is_answer (or_retry (attempt operation) o w).0 ≡ true
  retry_answers operation (ok a) w h e = refl
  retry_answers operation (docker_error status) w h e = elim (Bool-cases (is_retryable status)) [
    | inl r ↦ rw r (h w.daemon)
    | inr r ↦ rw r refl
  ]
  retry_answers operation client_error w h e = absurd (ground (arith, e))
  retry_answers operation timeout_error w h e = absurd (ground (arith, e))
  retry_answers operation raises w h e = absurd (ground (arith, e))
  retry_answers operation waits w h e = absurd (ground (arith, e))

module _ {D S : Type 0} (api : DockerApi D) (task : Delegation D) (provider : StateProvider S)
    (counting : IsCounting provider) (answering : AnswersDeletes api) (s : String) where
  abbrev pub Free : String → World D S → Type 0
  Free c w = counting.uses c s w.state ≡ false

  -- An action that ends without an exception, leaves what is free, and frees containers
  pub record Frees (m : Action D S (Unit {0})) (F : String → Type 0) : Type 0 where
    pub result : (w : World D S) → (m w).0 ≡ ok tt
    pub keeps : (c : String) (w : World D S) → Free c w → Free c (m w).1
    pub frees : (c : String) (w : World D S) → F c → Free c (m w).1

  pub seq-Frees :
      (m n : Action D S (Unit {0})) (F G : String → Type 0)
      → Frees m F
      → Frees n G
      → Frees (m >> n) (λ c. F c ⊎ G c)
  unfolding ◌>>=◌
  seq-Frees m n F G e k = record {
    result = λ w. rw (e.result w) (k.result (m w).1);
    keeps = λ c w f. rw (e.result w) (k.keeps c (m w).1 (e.keeps c w f));
    frees = λ c w f.
        rw (e.result w)
          (elim f [ inl a ↦ k.keeps c (m w).1 (e.frees c w a) | inr b ↦ k.frees c (m w).1 b ]);
  }

  -- The containers that an action for each of a list frees
  unfoldable pub SomeOf : (F : String → String → Type 0) → List String → String → Type 0
  SomeOf F [] d = (true ≡ false)
  SomeOf F (c ∷ cs) d = F c d ⊎ SomeOf F cs d

  pub for_each-Frees :
      (act : String → Action D S (Unit {0})) (F : String → String → Type 0) (P : String → Type 0)
      (cs : List String)
      → All P cs
      → ((c : String) → P c → Frees (act c) (F c))
      → Frees (for_each act cs) (SomeOf F cs)
  unfolding for_each SomeOf
  for_each-Frees act F P [] p h = record {
    result = λ w. refl;
    keeps = λ c w f. f;
    frees = λ c w e. cc e;
  }
  for_each-Frees act F P (c ∷ cs) p h =
      seq-Frees (act c) (for_each act cs) (F c) (SomeOf F cs) (h c p.0)
        (for_each-Frees act F P cs p.1 h)

  remove-Frees : (c : String) → Frees (change (provider.remove_container c)) (λ d. beq c d ≡ true)
  remove-Frees c = record {
    result = λ w. refl;
    keeps = λ d w f. ground (arith, counting.uses-remove c d s w.state, f);
    frees = λ d w e. ground (arith, counting.uses-remove c d s w.state, e);
  }

  pub release-Frees :
      (c : String) → Frees (change (provider.release_container c s)) (λ d. beq c d ≡ true)
  release-Frees c = record {
    result = λ w. refl;
    keeps = λ d w f. ground (arith, counting.uses-release c s d s w.state, f);
    frees = λ d w e. ground (arith, counting.uses-release c s d s w.state, e, beq_iff s s);
  }

  pub fewer-Frees :
      (m : Action D S (Unit {0})) (F G : String → Type 0)
      → ((c : String) → G c → F c)
      → Frees m F
      → Frees m G
  fewer-Frees m F G h e = record {
    result = e.result;
    keeps = e.keeps;
    frees = λ c w g. e.frees c w (h c g);
  }

  -- After an action that has a value and leaves the provider
  bind-Frees :
      {A : Type 0} (m : Action D S A) (f : A → Action D S (Unit {0})) (Q : A → Type 0)
      (F : String → Type 0)
      → ((w : World D S) → (a : A) × ((m w).0 ≡ ok a) × ((m w).1.state ≡ w.state) × Q a)
      → ((a : A) → Q a → Frees (f a) F)
      → Frees (m >>= f) F
  unfolding ◌>>=◌
  bind-Frees m f Q F v h = record {
    result = λ w. let (a, e, i, q) = v w in rw e ((h a q).result (m w).1);
    keeps = λ c w g. let (a, e, i, q) = v w in rw e ((h a q).keeps c (m w).1 (rw i g));
    frees = λ c w g. let (a, e, i, q) = v w in rw e ((h a q).frees c (m w).1 g);
  }

  gone : (o : Outcome (Unit {0})) (w : World D S) → is_harmless o ≡ true → or_gone o w ≡ (ok tt, w)
  gone (ok a) w e = refl
  gone (docker_error status) w e = refl
  gone client_error w e = refl
  gone timeout_error w e = absurd (ground (arith, e))
  gone raises w e = absurd (ground (arith, e))
  gone waits w e = absurd (ground (arith, e))

  deleted-Frees : (c : String) → Frees (deleted api c) (λ d. true ≡ false)
  unfolding deleted attempts
  deleted-Frees c = record {
    result = λ w. rw (gone (api.delete c w.daemon).0 _ (answering.deletes c w.daemon)) refl;
    keeps = λ d w f. rw (gone (api.delete c w.daemon).0 _ (answering.deletes c w.daemon)) f;
    frees = λ d w e. cc e;
  }

  close_shell-Frees : (c : String) → Frees (close_shell c) (λ d. true ≡ false)
  close_shell-Frees c = record { result = λ w. refl; keeps = λ d w f. f; frees = λ d w e. cc e }

  delete_labelled-Frees :
      (other : String → Action D S (Unit {0})) (P : String → Type 0) (c : String)
      (deps : List String)
      → All P deps
      → ((d : String) → P d → Frees (other d) (λ e. beq d e ≡ true))
      → Frees (delete_labelled api provider other c deps) (λ d. beq c d ≡ true)
  unfolding delete_labelled
  delete_labelled-Frees other P c deps p h =
      fewer-Frees _ _ (λ d. beq c d ≡ true) (λ d e. inr (inr (inr e)))
        (seq-Frees _ _ _ _ (close_shell-Frees c) (
          seq-Frees _ _ _ _ (for_each-Frees other (λ d e. beq d e ≡ true) P deps p h)
            (seq-Frees _ _ _ _ (deleted-Frees c) (remove-Frees c))))

  unlabelled :
      (c : String) (o : Outcome (List String)) (w : World D S)
      → is_answer o ≡ true
      → Value (All (λ d. answering.rank d < answering.rank c)) o
      → (deps : List String) × ((or_unlabelled o w).0 ≡ ok deps)
        × ((or_unlabelled o w).1 ≡ w)
        × All (λ d. answering.rank d < answering.rank c) deps
  unlabelled c (ok deps) w e v = (deps, refl, refl, v)
  unlabelled c (docker_error status) w e v = ([], refl, refl, tt)
  unlabelled c client_error w e v = absurd (ground (arith, e))
  unlabelled c timeout_error w e v = absurd (ground (arith, e))
  unlabelled c raises w e v = absurd (ground (arith, e))
  unlabelled c waits w e v = absurd (ground (arith, e))

  answered :
      (c : String) (w : World D S) → is_answer (docker_call true (api.depends_on c) w).0 ≡ true
  unfolding attempts
  answered c w =
      retry_answers (api.depends_on c) (api.depends_on c w.daemon).0 _ (answering.answers c)
        (answering.answers c w.daemon)

  loads :
      (c : String) (w : World D S)
      → (deps : List String) × ((loaded api c w).0 ≡ ok deps)
        × ((loaded api c w).1.state ≡ w.state)
        × All (λ d. answering.rank d < answering.rank c) deps
  unfolding loaded
  loads c w =
      let call = docker_call {S = S} true (api.depends_on c) in
      let (i, v) =
        (attempts-Ensures {J = λ (u : World D S). u.state ≡ w.state}
            {V = All (λ d. answering.rank d < answering.rank c)} (api.depends_on c) (λ u j. j)
            (record { holds = λ u j. (j, answering.ranked c u.daemon) }) 1).holds
          w refl in
      let (deps, e, k, q) = unlabelled c (call w).0 (call w).1 (answered c w) v in
      (deps, e, ap (λ (u : World D S). u.state) k ∙ i, q)

  pub delete_container-Frees :
      (depth : ℕ) (c : String)
      → answering.rank c < depth
      → Frees (delete_container api provider depth c) (λ d. beq c d ≡ true)
  unfolding delete_container
  delete_container-Frees zero c l = absurd (ground (arith, l))
  delete_container-Frees (suc depth) c l =
      bind-Frees (loaded api c) _ (All (λ d. answering.rank d < answering.rank c)) _ (loads c)
        (λ deps q.
          delete_labelled-Frees (delete_container api provider depth)
            (λ d. answering.rank d < answering.rank c) c deps q
            (λ d m. delete_container-Frees depth d (ground (arith, l, m))))
