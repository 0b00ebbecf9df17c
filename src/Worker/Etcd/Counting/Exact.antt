-- ===== src/Worker/Etcd/Counting/Exact.antt =====
-- The count that `container_total_uses` of worker/src/agentrl/worker/environment/state/etcd.py returns.
use agent_rl.Common.{ℕ, ◌+◌, ◌≡◌, refl, sym, ap, ◌∙◌, Option, none, some, beq_iff, list_eq, arith}
use agent_rl.Common.Family.{at_update}
use agent_rl.Worker.Etcd.{
  Bytes, KeyValue, Local, rpc_error, single, delete_range, Program, done, raise, send, draw, read,
  write,
}
use agent_rl.Worker.Etcd.Containers.{number, total, increments}
use agent_rl.Worker.Etcd.Service.{
  Service, IsEtcd, Transport, replies, refuses, loses, advance, to_list, Going,
}
use agent_rl.Worker.Etcd.Counting.{
  Uses, Step, counts, runs, removes, elsewhere, Reached, here, then_step, won,
}
use agent_rl.Worker.Etcd.Counting.Later.{
  count_of, at, Later-refl, Later-trans, Later-same, Later-delete,
}
use agent_rl.Worker.Etcd.Counting.Rounds.{After, Ok-Later, Ok-stays, Ok-counts}
use agent_rl.Worker.Etcd.Counting.Increments.{Counting, increments-Counting}

module _ {E : Type 0} (service : Service E) (law : IsEtcd service) (key : Bytes) where
  abbrev IsCount : ℕ → E → Type 0
  IsCount made e = count_of (at service law key e) ≡ some made

  record Goes {A : Type 0} (e : E) (more made : ℕ) (next : Going service A) : Type 0 where
    pub goes_on : Counting service law key next.0 next.1.1
    pub later : After service law key e next.1.1
    pub counted : IsCount (made + more) next.1.1

  stays :
      {A : Type 0} (p : Program A) (l : Local) (e : E) (made : ℕ)
      → Counting service law key p e
      → IsCount made e
      → Goes e 0 made (p, (l, e))
  stays p l e made c q = record {
    goes_on = c;
    later = Later-refl service law key e;
    counted = q ∙ ap some (omega arith);
  }

  Counting-Goes :
      {A : Type 0} (t : Transport) (uuid : Bytes) (p : Program A) (l : Local) (e : E) (made : ℕ)
      → Counting service law key p e
      → IsCount made e
      → Goes e (won service t p e) made (advance service t uuid p l e)
  unfolding advance won
  Counting-Goes t uuid (done a) l e made c q = stays (done a) l e made c q
  Counting-Goes t uuid (raise error) l e made c q = stays (raise error) l e made c q
  Counting-Goes replies uuid (send r k) l e made (ok, on_answer, on_error) q = record {
    goes_on = on_answer e (Later-refl service law key e);
    later = Ok-Later service law key r e ok;
    counted = Ok-counts service law key r e made ok q;
  }
  Counting-Goes (refuses status) uuid (send r k) l e made (ok, on_answer, on_error) q =
      stays (k (rpc_error status)) l e made (on_error e status (Later-refl service law key e)) q
  Counting-Goes (loses status) uuid (send r k) l e made (ok, on_answer, on_error) q = record {
    goes_on = on_error _ status (Ok-Later service law key r e ok);
    later = Ok-Later service law key r e ok;
    counted = Ok-counts service law key r e made ok q;
  }
  Counting-Goes t uuid (draw g) l e made c q = stays (g uuid) l e made (c uuid) q
  Counting-Goes t uuid (read g) l e made c q = stays (g l) l e made (c l) q
  Counting-Goes t uuid (write change p) l e made c q = stays p (change l) e made c q

  Counting-stays :
      {A : Type 0} (p : Program A) (e next : E)
      → After service law key e next
      → Counting service law key p e
      → Counting service law key p next
  Counting-stays (done a) e next later c = tt
  Counting-stays (raise error) e next later c = tt
  Counting-stays (send r k) e next later (ok, on_answer, on_error) = (
    Ok-stays service law key r e next later ok,
    λ now after. on_answer now (Later-trans service law key e next now later after),
    λ now status after. on_error now status (Later-trans service law key e next now later after),
  )
  Counting-stays (draw g) e next later c = λ id. Counting-stays (g id) e next later (c id)
  Counting-stays (read g) e next later c = λ l. Counting-stays (g l) e next later (c l)
  Counting-stays (write change p) e next later c = Counting-stays p e next later c

  record Inv (s : Uses E) : Type 0 where
    pub all_count : (n : ℕ) → Counting service law key (s.tasks n) s.store
    pub counted : IsCount s.made s.store

  removed : (e : E) → at service law key (service.serve (single (delete_range key none)) e).1 ≡ none
  removed e = ground (arith, law.holds-delete key e key, beq_iff key key)

  Step-Inv : (s next : Uses E) → Step service law key s next → Inv s → Inv next
  Step-Inv s next (counts n) inv = record {
    all_count =
        at_update (λ m p. Counting service law key p s.store) s.tasks n (increments 16 key)
          (increments-Counting service law key 16 s.store) (λ m other. inv.all_count m);
    counted = inv.counted;
  }
  Step-Inv s next (runs n t uuid l) inv =
      let goes = Counting-Goes t uuid (s.tasks n) l s.store s.made (inv.all_count n) inv.counted in
      record {
        all_count =
            at_update
              (λ m p. Counting service law key p (advance service t uuid (s.tasks n) l s.store).1.1)
              s.tasks n _ goes.goes_on
              (λ m other. Counting-stays (s.tasks m) s.store _ goes.later (inv.all_count m));
        counted = goes.counted;
      }
  Step-Inv s next removes inv = record {
    all_count = λ m.
        Counting-stays (s.tasks m) s.store _ (Later-delete service law key s.store)
          (inv.all_count m);
    counted = ap count_of (removed s.store);
  }
  Step-Inv s next (elsewhere store grows same) inv = record {
    all_count = λ m.
        Counting-stays (s.tasks m) s.store store
          (Later-same service law key s.store store grows same) (inv.all_count m);
    counted = ap count_of same ∙ inv.counted;
  }

  Reached-Inv : (start s : Uses E) → Reached service law key start s → Inv start → Inv s
  Reached-Inv start s here inv = inv
  Reached-Inv start s (then_step before step) inv =
      Step-Inv _ s step (Reached-Inv start _ before inv)

  total-count : (o : Option KeyValue) (n : ℕ) → count_of o ≡ some n → total (to_list o) ≡ done n
  unfolding total number
  total-count none n q = cc q
  total-count (some kv) n q = rw q refl

  -- What `container_total_uses` makes of the answer to its request is the number of increments that
  -- took effect since the count was last removed, however runs of `_increment_uses` interleave with
  -- each other, with removals and with changes elsewhere in the store, and whether requests are
  -- refused or their answers lost, from a store without a count.
  pub total_exact :
      (start s : Uses E)
      → law.holds start.store key ≡ none
      → ((n : ℕ) → start.tasks n ≡ done tt)
      → start.made ≡ 0
      → Reached service law key start s
      → total (to_list (law.holds s.store key)) ≡ done s.made
  total_exact start s no_count no_tasks no_uses reached =
      let inv = Reached-Inv start s reached (record {
        all_count = λ n. rw (no_tasks n) tt;
        counted = ap count_of no_count ∙ ap some (sym no_uses);
      }) in
      total-count (law.holds s.store key) s.made inv.counted
