-- ===== src/Worker/Etcd/Counting/Increments.antt =====
-- The rounds of `_increment_uses` of worker/src/agentrl/worker/environment/state/etcd.py, and one step of
-- them with the count before and after it.
use mathlib.Core.Path.{subst}
use agent_rl.Common.{
  ℕ, zero, suc, ◌+◌, ◌≡◌, refl, sym, ap, ◌∙◌, inl, inr, Bool, Option, none, some, List, [], ◌∷◌,
}
use agent_rl.Worker.Etcd.{Bytes, KeyValue, Response, range, single, pairs, Program, done, ◌>>=◌}
use agent_rl.Worker.Etcd.Numbers.{str, digits, int_or_zero}
use agent_rl.Worker.Etcd.Calls.{kv_call}
use agent_rl.Worker.Etcd.Containers.{
  found, number, one_more, swap, has_succeeded, increment_once, increments,
}
use agent_rl.Worker.Etcd.Service.{Service, IsEtcd, to_list}
use agent_rl.Worker.Etcd.Counting.Later.{count_of, as_read, at, Later-range}
use agent_rl.Worker.Etcd.Counting.Rounds.{After, Counts, Counts-bind, Counts-if, Counts-attempts}

module _ {E : Type 0} (service : Service E) (law : IsEtcd service) (key : Bytes) where
  abbrev pub Anything : {A : Type 0} → A → E → Type 0
  Anything a e = Unit

  abbrev pub Counting : {A : Type 0} → Program A → E → Type 0
  Counting = Counts service law key Anything

  -- The response is what was read in a store that is no later than this one.
  abbrev Read : Response → E → Type 0
  Read response e =
      (seen : E) × After service law key seen e
      × (response ≡ pairs (to_list (at service law key seen)))

  swap-Counting :
      (seen e : E) (count : ℕ)
      → After service law key seen e
      → count_of (at service law key seen) ≡ some count
      → Counting
          (kv_call (swap key (as_read key (at service law key seen), str (count + 1)))
            >>= (λ result. done (has_succeeded result)))
          e
  swap-Counting seen e count since counted =
      Counts-bind service law key Anything Anything _ _ e
        (Counts-attempts service law key Anything 2 _ e
          (inr (record {
            seen = seen;
            since = since;
            count = count;
            counted = counted;
            is_swap = refl;
          }))
          (λ now later. tt))
        (λ result now later q. tt)

  abbrev pub after_read : List KeyValue → Program Bool
  after_read kvs = do
    change ← one_more key kvs
    result ← kv_call (swap key change)
    done (has_succeeded result)

  some_read :
      (seen e : E) (kv : KeyValue) (m : Option ℕ)
      → After service law key seen e
      → at service law key seen ≡ some kv
      → int_or_zero kv.value ≡ m
      → Counting (after_read (kv ∷ [])) e
  unfolding one_more number ◌>>=◌
  some_read seen e kv none since q p = rw p tt
  some_read seen e kv (some n) since q p = rw p (
      subst
        (λ o.
          Counting
            (kv_call (swap key (as_read key o, str (n + 1)))
              >>= (λ result. done (has_succeeded result)))
            e)
        q (swap-Counting seen e n since (ap count_of q ∙ p)))

  read-Counting :
      (seen e : E) (o : Option KeyValue)
      → After service law key seen e
      → at service law key seen ≡ o
      → Counting (after_read (to_list o)) e
  unfolding one_more ◌>>=◌ str digits
  read-Counting seen e none since q =
      subst
        (λ o.
          Counting
            (kv_call (swap key (as_read key o, str 1)) >>= (λ result. done (has_succeeded result)))
            e)
        q (swap-Counting seen e 0 since (ap count_of q))
  read-Counting seen e (some kv) since q = some_read seen e kv (int_or_zero kv.value) since q refl

  once-Counting : (e : E) → Counting (increment_once key) e
  unfolding increment_once found ◌>>=◌
  once-Counting e =
      Counts-bind service law key Read Anything (kv_call (single (range key none))) _ e
        (Counts-attempts service law key Read 2 (single (range key none)) e (inl refl)
          (λ now later. (now, Later-range service law key now, law.serve-range key now)))
        (λ response now later (seen, since, q).
          subst (λ (x : Response). Counting (found x >>= after_read) now) (sym q)
            (read-Counting seen now (at service law key seen) since refl))

  pub increments-Counting : (n : ℕ) (e : E) → Counting (increments n key) e
  unfolding increments
  increments-Counting zero e = tt
  increments-Counting (suc n) e =
      Counts-bind service law key Anything Anything (increment_once key) _ e (once-Counting e)
        (λ succeeded now later q.
          Counts-if service law key Anything succeeded _ _ now tt (increments-Counting n now))
