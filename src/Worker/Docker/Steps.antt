-- ===== src/Worker/Docker/Steps.antt =====
-- The steps in which workers change the state of the provider: a block under a lock, or one call. Any
-- number of workers interleave them.
use agent_rl.Common.{
  ℕ, ◌+◌, ◌≤◌, ◌<◌, ◌≡◌, ◌≢◌, sym, false, Option, none, some, List, [], ◌∷◌, String, string_eq, beq,
  beq_iff, Bool-cases, inl, inr, All, arith,
}
use agent_rl.Worker.Provider.{SessionData, StateProvider, IsCounting, Keeps}
use agent_rl.Worker.Docker.{Container, DockerApi, Delegation}
use agent_rl.Worker.Docker.Sessions.{select, is_reached}

some_eq : (a b : String) → some a ≡ some b → a ≡ b
some_eq a b e = cc e

room :
    (limit uses next : ℕ)
    → is_reached limit uses ≡ false
    → 0 < limit
    → next ≤ uses + 1
    → next ≤ limit
room limit uses next e l n = ground (arith, e, l, n)

-- `kind` is none of an exclusive container, and the subtype of one that is shared.
module _ {D S : Type 0} (api : DockerApi D) (task : Delegation D) (provider : StateProvider S)
    (kind : String → Option String) where
  pub data Step : S → S → Type 0 where
    shares :
        {st next : S} (t s c : String) (cs : List Container)
        → All (λ (k : Container). kind k.id ≡ some t) cs
        → select api task provider t cs st ≡ some c
        → provider.allocate_container c s st ≡ some next
        → Step st next
    owns :
        {st next : S} (c s : String)
        → kind c ≡ none
        → provider.allocate_container c s st ≡ some next
        → Step st next
    releases : {st : S} (c s : String) → Step st (provider.release_container c s st)
    removes : {st : S} (c : String) → Step st (provider.remove_container c st)
    renews : {st : S} (c s : String) → Step st (provider.renew_container c s st)
    renews_session : {st : S} (s : String) → Step st (provider.renew_session s st)
    stores : {st : S} (s : String) (v : SessionData) → Step st (provider.store_session s v st)
    ends : {st : S} (s : String) → Step st (provider.delete_session s st)

  -- Steps, the latest at the end
  pub data Course (start : S) : S → Type 0 where
    here : Course start start
    extends : {st next : S} → Course start st → Step st next → Course start next

  -- Every shared container is within the limits of its subtype, where 0 stands for no limit.
  pub record Within (st : S) : Type 0 where
    pub concurrent :
        (c t : String)
        → kind c ≡ some t
        → 0 < task.concurrency_limit t
        → provider.container_current_uses c st ≤ task.concurrency_limit t
    pub reused :
        (c t : String)
        → kind c ≡ some t
        → 0 < task.reuse_limit t
        → provider.container_total_uses c st ≤ task.reuse_limit t

  other_kind : (c d u : String) → kind c ≡ none → kind d ≡ some u → c ≢ d
  other_kind c d u e g q = cc (e, g, q)

  select_of :
      (t c : String) (cs : List Container) (st : S)
      → All (λ (k : Container). kind k.id ≡ some t) cs
      → select api task provider t cs st ≡ some c
      → (kind c ≡ some t)
        × (is_reached (task.reuse_limit t) (provider.container_total_uses c st) ≡ false)
        × (is_reached (task.concurrency_limit t) (provider.container_current_uses c st) ≡ false)
  unfolding select
  select_of t c [] st a e = cc e
  select_of t c (k ∷ cs) st a e =
      elim (Bool-cases (is_reached (task.reuse_limit t) (provider.container_total_uses k.id st))) [
        | inl p ↦ select_of t c cs st a.1 (ground (arith, p, e))
        | inr p ↦
            elim (Bool-cases
              (is_reached (task.concurrency_limit t) (provider.container_current_uses k.id st))) [
                | inl q ↦ select_of t c cs st a.1 (ground (arith, p, q, e))
                | inr q ↦ let g = some_eq k.id c (ground (arith, p, q, e)) in rw (sym g) (a.0, p, q)
              ]
      ]

  fewer-Within :
      (st next : S)
      → ((d : String) → provider.container_total_uses d next ≤ provider.container_total_uses d st)
      → ((d : String)
          → provider.container_current_uses d next ≤ provider.container_current_uses d st)
      → Within st
      → Within next
  fewer-Within st next total current w = record {
    concurrent = λ c t k l. ground (arith, current c, w.concurrent c t k l);
    reused = λ c t k l. ground (arith, total c, w.reused c t k l);
  }

  module _ (counting : IsCounting provider) where
    kept-Within : {f : S → S} (st : S) → Keeps provider counting.uses f → Within st → Within (f st)
    kept-Within {f = f} st k w =
        fewer-Within st (f st) (λ d. ground (arith, k.total_kept d st))
          (λ d. ground (arith, k.current_kept d st)) w

    shared-Within :
        (t s c : String) (cs : List Container) (st next : S)
        → All (λ (k : Container). kind k.id ≡ some t) cs
        → select api task provider t cs st ≡ some c
        → provider.allocate_container c s st ≡ some next
        → Within st
        → Within next
    shared-Within t s c cs st next a e f w =
        let (k, p, q) = select_of t c cs st a e in
        record {
          concurrent = λ d u g l. elim (Bool-cases (beq c d)) [
            | inl b ↦
                let cd = (beq_iff c d).0 b in
                let tu = some_eq t u (cc (k, g, cd)) in
                rw (sym cd, sym tu)
                  (room (task.concurrency_limit t) (provider.container_current_uses c st)
                    (provider.container_current_uses c next) q (rw tu l)
                    (ground (arith, beq_iff c c, counting.current-allocate c s c st next f)))
            | inr b ↦
                ground (arith, b, counting.current-allocate c s d st next f, w.concurrent d u g l)
          ];
          reused = λ d u g l. elim (Bool-cases (beq c d)) [
            | inl b ↦
                let cd = (beq_iff c d).0 b in
                let tu = some_eq t u (cc (k, g, cd)) in
                rw (sym cd, sym tu)
                  (room (task.reuse_limit t) (provider.container_total_uses c st)
                    (provider.container_total_uses c next) p (rw tu l)
                    (ground (arith, beq_iff c c, counting.total-allocate c s c st next f)))
            | inr b ↦ ground (arith, b, counting.total-allocate c s d st next f, w.reused d u g l)
          ];
        }

    owned-Within :
        (c s : String) (st next : S)
        → kind c ≡ none
        → provider.allocate_container c s st ≡ some next
        → Within st
        → Within next
    owned-Within c s st next e f w = record {
      concurrent = λ d u g l. elim (Bool-cases (beq c d)) [
        | inl b ↦ absurd (other_kind c d u e g ((beq_iff c d).0 b))
        | inr b ↦ ground (arith, b, counting.current-allocate c s d st next f, w.concurrent d u g l)
      ];
      reused = λ d u g l. elim (Bool-cases (beq c d)) [
        | inl b ↦ absurd (other_kind c d u e g ((beq_iff c d).0 b))
        | inr b ↦ ground (arith, b, counting.total-allocate c s d st next f, w.reused d u g l)
      ];
    }

    step-Within : {st next : S} → Step st next → Within st → Within next
    step-Within {st} {next} (shares t s c cs a e f) w = shared-Within t s c cs st next a e f w
    step-Within {st} {next} (owns c s e f) w = owned-Within c s st next e f w
    step-Within {st} (releases c s) w =
        fewer-Within st (provider.release_container c s st)
          (λ d. ground (arith, counting.total-release c s d st))
          (λ d. counting.current-release c s d st) w
    step-Within {st} (removes c) w =
        fewer-Within st (provider.remove_container c st) (λ d. counting.total-remove c d st)
          (λ d. counting.current-remove c d st) w
    step-Within {st} (renews c s) w = kept-Within st (counting.renew_container-Keeps c s) w
    step-Within {st} (renews_session s) w = kept-Within st (counting.renew_session-Keeps s) w
    step-Within {st} (stores s v) w = kept-Within st (counting.store_session-Keeps s v) w
    step-Within {st} (ends s) w = kept-Within st (counting.delete_session-Keeps s) w

    -- With a provider that counts exactly (`IsCounting`), as the provider in memory does and one that may
    -- count an allocation twice does not: however the steps of the handlers interleave, if no shared
    -- container is used by more sessions at a time, or by more sessions in all since it was last removed,
    -- than the limits of its subtype say, then none is afterwards.
    pub Course-Within : (start st : S) → Course start st → Within start → Within st
    Course-Within start st here w = w
    Course-Within start st (extends p e) w = step-Within e (Course-Within start _ p w)
