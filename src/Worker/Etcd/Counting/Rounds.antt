-- ===== src/Worker/Etcd/Counting/Rounds.antt =====
-- `_increment_uses` of worker/src/agentrl/worker/environment/state/etcd.py, request by request: what it
-- writes is one more than what it read, under a comparison with what it read.
use mathlib.Core.Path.{subst}
use agent_rl.Common.{
  ℕ, zero, suc, ◌+◌, ◌≡◌, sym, ap, ◌∙◌, ◌⊎◌, inl, inr, Bool, true, false, not, ◌||◌, ◌==◌, none,
  some, if◌then◌else◌, arith,
}
use agent_rl.Worker.Etcd.{
  Bytes, Request, Response, Status, answered, rpc_error, range, single, Local, Program, done, raise,
  send, draw, read, write, ◌>>=◌,
}
use agent_rl.Worker.Etcd.Calls.{should_retry, or_retry, attempts}
use agent_rl.Worker.Etcd.Service.{Service, IsEtcd}
use agent_rl.Worker.Etcd.Counting.{successes}
use agent_rl.Worker.Etcd.Counting.Later.{
  count_of, at, Later, Later-refl, Later-trans, Later-range, IsIncrement, increment-counts,
  increment-Later, IsIncrement-stays,
}

module _ {E : Type 0} (service : Service E) (law : IsEtcd service) (key : Bytes) where
  abbrev pub After : E → E → Type 0
  After = Later service law key

  abbrev pub Ok : Request → E → Type 0
  Ok r e = (r ≡ single (range key none)) ⊎ IsIncrement service law key r e

  pub Ok-Later : (r : Request) (e : E) → Ok r e → After e (service.serve r e).1
  Ok-Later r e (inl q) =
      subst (λ s. After e (service.serve s e).1) (sym q) (Later-range service law key e)
  Ok-Later r e (inr inc) = increment-Later service law key r e inc

  pub Ok-stays : (r : Request) (e next : E) → After e next → Ok r e → Ok r next
  Ok-stays r e next later (inl q) = inl q
  Ok-stays r e next later (inr inc) = inr (IsIncrement-stays service law key r e next later inc)

  range-counts :
      (e : E) (made : ℕ)
      → count_of (at service law key e) ≡ some made
      → count_of (at service law key (service.serve (single (range key none)) e).1)
        ≡ some (made + successes service (single (range key none)) e)
  range-counts e made q = rw (law.holds-range, law.serve-range) (q ∙ ap some (omega arith))

  pub Ok-counts :
      (r : Request) (e : E) (made : ℕ)
      → Ok r e
      → count_of (at service law key e) ≡ some made
      → count_of (at service law key (service.serve r e).1) ≡ some (made + successes service r e)
  Ok-counts r e made (inl is_range) q =
      subst
        (λ s.
          count_of (at service law key (service.serve s e).1) ≡ some (made + successes service s e))
        (sym is_range) (range-counts e made q)
  Ok-counts r e made (inr inc) q = increment-counts service law key r e made inc q

  -- Every request of the method is allowed whenever it is sent, and the method returns what `Q` says.
  abbrev pub Counts : {A : Type 0} → (A → E → Type 0) → Program A → E → Type 0
  Counts Q (done a) e = Q a e
  Counts Q (raise error) e = Unit
  Counts Q (send r k) e =
      Ok r e
      × ((now : E)
          → After e now
          → Counts Q (k (answered (service.serve r now).0)) (service.serve r now).1)
      × ((now : E) (status : Status) → After e now → Counts Q (k (rpc_error status)) now)
  Counts Q (draw g) e = (id : Bytes) → Counts Q (g id) e
  Counts Q (read g) e = (l : Local) → Counts Q (g l) e
  Counts Q (write change p) e = Counts Q p e

  pub Counts-bind :
      {A B : Type 0} (Q : A → E → Type 0) (R : B → E → Type 0) (m : Program A) (f : A → Program B)
      (e : E)
      → Counts Q m e
      → ((a : A) (now : E) → After e now → Q a now → Counts R (f a) now)
      → Counts R (m >>= f) e
  unfolding ◌>>=◌
  Counts-bind Q R (done a) f e c g = g a e (Later-refl service law key e) c
  Counts-bind Q R (raise error) f e c g = tt
  Counts-bind Q R (send r k) f e (ok, on_answer, on_error) g = (
    ok,
    λ now later.
        Counts-bind Q R (k (answered (service.serve r now).0)) f (service.serve r now).1
          (on_answer now later)
          (λ a last after q.
            g a last
              (Later-trans service law key e now last later (
                Later-trans service law key now _ last (Ok-Later r now (Ok-stays r e now later ok))
                  after))
              q),
    λ now status later.
        Counts-bind Q R (k (rpc_error status)) f now (on_error now status later)
          (λ a last after q. g a last (Later-trans service law key e now last later after) q),
  )
  Counts-bind Q R (draw h) f e c g = λ id. Counts-bind Q R (h id) f e (c id) g
  Counts-bind Q R (read h) f e c g = λ l. Counts-bind Q R (h l) f e (c l) g
  Counts-bind Q R (write change p) f e c g = Counts-bind Q R p f e c g

  pub Counts-if :
      {A : Type 0} (Q : A → E → Type 0) (b : Bool) (m n : Program A) (e : E)
      → Counts Q m e
      → Counts Q n e
      → Counts Q (if b then m else n) e
  Counts-if Q true m n e s t = s
  Counts-if Q false m n e s t = t

  -- A request with its retries
  pub Counts-attempts :
      (Q : Response → E → Type 0) (n : ℕ) (r : Request) (e : E)
      → Ok r e
      → ((now : E) → After e now → Q (service.serve r now).0 (service.serve r now).1)
      → Counts Q (attempts n r) e
  unfolding attempts or_retry
  Counts-attempts Q zero r e ok q = tt
  Counts-attempts Q (suc n) r e ok q = (
    ok,
    λ now later. q now later,
    λ now status later. Counts-if Q (not (should_retry status) || n == 0) _ (attempts n r) now tt (
        Counts-attempts Q n r now (Ok-stays r e now later ok)
          (λ last after. q last (Later-trans service law key e now last later after))),
  )
