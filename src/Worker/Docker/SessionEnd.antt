-- ===== src/Worker/Docker/SessionEnd.antt =====
-- The end of a session: all its containers are free, and it is forgotten.
use agent_rl.Common.{
  ℕ, ◌<◌, ◌≡◌, refl, sym, ◌∙◌, Bool, true, false, ◌⊎◌, inl, inr, some, none, List, [], ◌∷◌, String,
  string_eq, beq, beq_iff, contains, if◌then◌else◌, Bool-cases, All, arith,
}
use agent_rl.Worker.Provider.{SessionData, StateProvider, IsCounting}
use agent_rl.Worker.Docker.{ok, DockerApi, Delegation, World, Action, pure, ◌>>=◌, change}
use agent_rl.Worker.Docker.Containers.{delete_container}
use agent_rl.Worker.Docker.Sessions.{values, release_unless, end_found, end_session}
use agent_rl.Worker.Docker.Freeing.{
  AnswersDeletes, Free, Frees, seq-Frees, fewer-Frees, SomeOf, for_each-Frees, release-Frees,
  delete_container-Frees,
}

each_of :
    (P : String → Type 0) (cs : List String)
    → ((c : String) → contains cs c ≡ true → P c)
    → All P cs
each_of P [] h = tt
each_of P (c ∷ cs) h =
    (h c (ground (arith, beq_iff c c)), each_of P cs (λ d e. h d (ground (arith, e))))

module _ {D S : Type 0} (api : DockerApi D) (task : Delegation D) (provider : StateProvider S)
    (counting : IsCounting provider) (answering : AnswersDeletes api) (s : String) where
  abbrev IsFree : String → World D S → Type 0
  IsFree c w = Free api task provider counting answering s c w

  abbrev FreesAll : Action D S (Unit {0}) → (String → Type 0) → Type 0
  FreesAll m F = Frees api task provider counting answering s m F

  nothing-Frees : (F : String → Type 0) → ((c : String) → F c → true ≡ false) → FreesAll (pure tt) F
  nothing-Frees F n = record { result = λ w. refl; keeps = λ c w f. f; frees = λ c w e. cc (n c e) }

  abbrev Released : List String → String → String → Type 0
  Released own c d = (beq c d ≡ true) × (contains own c ≡ false)

  release_or_not :
      (own : List String) (c : String) (b : Bool)
      → contains own c ≡ b
      → FreesAll (if b then pure tt else change (provider.release_container c s)) (Released own c)
  release_or_not own c true e = nothing-Frees (Released own c) (λ d r. sym e ∙ r.1)
  release_or_not own c false e =
      fewer-Frees api task provider counting answering s _ (λ d. beq c d ≡ true) (Released own c)
        (λ d r. r.0) (release-Frees api task provider counting answering s c)

  release_unless-Frees :
      (own : List String) (c : String)
      → FreesAll (release_unless api task provider own s c) (Released own c)
  release_unless-Frees own c = release_or_not own c (contains own c) refl

  found_in :
      (F : String → String → Type 0) (cs : List String) (d : String)
      → contains cs d ≡ true
      → ((c : String) → beq c d ≡ true → F c d)
      → SomeOf api task provider counting answering s F cs d
  unfolding SomeOf
  found_in F [] d e h = ground (arith, e)
  found_in F (c ∷ cs) d e h = elim (Bool-cases (beq c d)) [
    | inl b ↦ inl (h c b)
    | inr b ↦ inr (found_in F cs d (ground (arith, b, e)) h)
  ]

  all_true : (cs : List String) → All (λ c. true ≡ true) cs
  all_true [] = tt
  all_true (c ∷ cs) = (refl, all_true cs)

  unfoldable Held : SessionData → String → Type 0
  Held v c = (contains (values v.containers) c ≡ true) ⊎ (contains v.exclusive_containers c ≡ true)

  Held-found :
      (v : SessionData) (c : String)
      → Held v c
      → SomeOf api task provider counting answering s
          (Released v.exclusive_containers)
          (values v.containers)
          c
        ⊎ SomeOf api task provider counting answering s
            (λ d e. beq d e ≡ true)
            v.exclusive_containers
            c
  unfolding Held
  Held-found v c (inr e) = inr (found_in _ v.exclusive_containers c e (λ d b. b))
  Held-found v c (inl e) = elim (Bool-cases (contains v.exclusive_containers c)) [
    | inl b ↦ inr (found_in _ v.exclusive_containers c b (λ d g. g))
    | inr b ↦ inl (found_in _ (values v.containers) c e (λ d g. (g, rw ((beq_iff d c).0 g) b)))
  ]

  end_found-Frees :
      (depth : ℕ) (v : SessionData)
      → All (λ c. answering.rank c < depth) v.exclusive_containers
      → FreesAll (end_found api task provider depth s (some v)) (Held v)
  end_found-Frees depth v r =
      fewer-Frees api task provider counting answering s _ _ (Held v) (Held-found v) (
        seq-Frees api task provider counting answering s _ _ _ _
          (for_each-Frees api task provider counting answering s
            (release_unless api task provider v.exclusive_containers s)
            (Released v.exclusive_containers) (λ c. true ≡ true) (values v.containers)
            (all_true (values v.containers)) (λ c _. release_unless-Frees v.exclusive_containers c))
          (for_each-Frees api task provider counting answering s
            (delete_container api provider depth) (λ d e. beq d e ≡ true)
            (λ c. answering.rank c < depth) v.exclusive_containers r
            (delete_container-Frees api task provider counting answering s depth)))

  -- When the daemon answers the deletions and containers depend less deep than the bound, the end of a
  -- session that is stored returns, no container that it holds, shared or its own, is used by it any
  -- more, and the session is not stored any more.
  pub end_session_frees :
      (depth : ℕ) (v : SessionData) (w : World D S)
      → provider.get_session s w.state ≡ some v
      → All (λ c. answering.rank c < depth) v.exclusive_containers
      → let after = end_session api task provider depth s w in
        (after.0 ≡ ok tt)
        × All (λ c. counting.uses c s after.1.state ≡ false) (values v.containers)
        × All (λ c. counting.uses c s after.1.state ≡ false) v.exclusive_containers
        × (provider.get_session s after.1.state ≡ none)
  unfolding end_session ◌>>=◌ Held
  end_session_frees depth v w e r =
      let f = end_found-Frees depth v r in
      let kept = counting.delete_session-Keeps s in
      rw (e, f.result w)
        (
          refl,
          each_of _ (values v.containers) (λ c h. kept.uses_kept c s _ ∙ f.frees c w (inl h)),
          each_of _ v.exclusive_containers (λ c h. kept.uses_kept c s _ ∙ f.frees c w (inr h)),
          counting.get-delete s _,
        )
