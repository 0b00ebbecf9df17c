-- ===== src/Worker/Etcd/Locking/Operations.antt =====
-- The methods of worker/src/agentrl/worker/environment/state/etcd.py that are not about locks take no
-- lock from its owner, whatever they are answered.
use agent_rl.Common.{
  ℕ, zero, suc, ◌≡◌, Bool, true, false, Option, none, some, List, [], ◌∷◌, list_eq, beq,
  if◌then◌else◌,
}
use agent_rl.Common.Table.{get}
use agent_rl.Worker.Etcd.{
  Bytes, KeyValue, Compare, Response, pairs, written, decided, granted, lives, Request, Program,
  ◌>>=◌,
}
use agent_rl.Worker.Etcd.Keys.{lock_key, container_uses_key}
use agent_rl.Worker.Etcd.Ranges.{IsBytes}
use agent_rl.Worker.Etcd.Calls.{kv_call, keep_alives}
use agent_rl.Worker.Etcd.Numbers.{int_or_zero}
use agent_rl.Worker.Etcd.Containers.{
  found, number, one_more, swap, increment_once, increments, total, with_uses, increment_uses,
  allocate_on, allocate_container, all_under, container_current_uses, container_total_uses,
  containers_total_uses_gte, release_container, remove_container,
}
use agent_rl.Worker.Etcd.Sessions.{
  open_session, generate_session_id, renew_lease, renew_session, store_on, store_session,
  get_session,
}
use agent_rl.Worker.Etcd.Service.{Service, IsEtcd}
use agent_rl.Worker.Etcd.Sending.{
  Sends-bind, Sends-call, Sends-attempts, Sends-keep_alives, Sends-grant,
}
use agent_rl.Worker.Etcd.Held.{
  Leaves-range, Leaves-put, Leaves-delete, Leaves-delete_range, Leaves-swap, Leaves-grant,
  Leaves-keep_alive,
}
use agent_rl.Worker.Etcd.Locking.{
  Operation, allocates, releases, removes, counts, totals, finds_worn, generates, stores, looks_up,
  renews, program_of,
}
use agent_rl.Worker.Etcd.Locking.Trying.{Anyone, Harmless, Gentle}
use agent_rl.Worker.Etcd.Locking.Apart.{session_away, uses_away, allocation_away, container_away}

module _ (prefix name : Bytes) (b : IsBytes (lock_key prefix name)) where
  module _ {E : Type 0} (service : Service E) (law : IsEtcd service) where
    abbrev Mild : {A : Type 0} → Program A → Type 0
    Mild = Gentle service law prefix name

    abbrev lock : Bytes
    lock = lock_key prefix name

    keep_alives_mild : (n lease : ℕ) → Mild (keep_alives n lease)
    keep_alives_mild =
        Sends-keep_alives prefix (Harmless service law prefix name)
          (Leaves-keep_alive service law lock Anyone)

    calls :
        {B : Type 0} (r : Request) (f : Response → Program B)
        → Harmless service law prefix name r
        → ((response : Response) → Mild (f response))
        → Mild (kv_call r >>= f)
    calls = Sends-call prefix (Harmless service law prefix name)

    after :
        {A B : Type 0} (m : Program A) (f : A → Program B)
        → Mild m
        → ((a : A) → Mild (f a))
        → Mild (m >>= f)
    after = Sends-bind prefix (Harmless service law prefix name)

    if_mild :
        {A : Type 0} (b : Bool) (m n : Program A) → Mild m → Mild n → Mild (if b then m else n)
    if_mild true m n s t = s
    if_mild false m n s t = t

    found_mild : (response : Response) → Mild (found response)
    unfolding found
    found_mild (pairs kvs) = tt
    found_mild written = tt
    found_mild (decided b responses) = tt
    found_mild (granted lease) = tt
    found_mild (lives ttl) = tt

    number_mild : (n : Option ℕ) → Mild (number n)
    unfolding number
    number_mild none = tt
    number_mild (some n) = tt

    one_more_mild : (key : Bytes) (kvs : List KeyValue) → Mild (one_more key kvs)
    unfolding one_more
    one_more_mild key [] = tt
    one_more_mild key (kv ∷ kvs) = after _ _ (number_mild (int_or_zero kv.value)) (λ n. tt)

    swap_mild :
        (key : Bytes) (change : Compare × Bytes)
        → beq key lock ≡ false
        → Harmless service law prefix name (swap key change)
    unfolding swap
    swap_mild key (compare, value) away = Leaves-swap service law lock Anyone compare key value away

    increment_once_mild : (key : Bytes) → beq key lock ≡ false → Mild (increment_once key)
    unfolding increment_once
    increment_once_mild key away =
        calls _ _ (Leaves-range service law lock Anyone key none) (λ response.
          after _ _ (found_mild response) (λ kvs.
            after _ _ (one_more_mild key kvs)
              (λ change. calls _ _ (swap_mild key change away) (λ result. tt))))

    increments_mild : (n : ℕ) (key : Bytes) → beq key lock ≡ false → Mild (increments n key)
    unfolding increments
    increments_mild zero key away = tt
    increments_mild (suc n) key away =
        after _ _ (increment_once_mild key away)
          (λ succeeded. if_mild succeeded _ _ tt (increments_mild n key away))

    allocate_on_mild : (c s : Bytes) (lease : Option ℕ) → Mild (allocate_on prefix c s lease)
    unfolding allocate_on increment_uses
    allocate_on_mild c s none = tt
    allocate_on_mild c s (some lease) =
        calls _ _
          (Leaves-put service law lock Anyone _ _ (some lease) (allocation_away prefix name c s))
          (λ response. increments_mild 16 (container_uses_key prefix c) (uses_away prefix name c))

    total_mild : (kvs : List KeyValue) → Mild (total kvs)
    unfolding total
    total_mild [] = tt
    total_mild (kv ∷ kvs) = number_mild (int_or_zero kv.value)

    with_uses_mild : (n : ℕ) (kvs : List KeyValue) → Mild (with_uses n kvs)
    unfolding with_uses
    with_uses_mild n [] = tt
    with_uses_mild n (kv ∷ kvs) =
        after _ _ (number_mild (int_or_zero kv.value))
          (λ uses. after _ _ (with_uses_mild n kvs) (λ matches. tt))

    all_under_mild : (key : Bytes) → Mild (all_under prefix key)
    unfolding all_under
    all_under_mild key = calls _ _ (Leaves-range service law lock Anyone key _) found_mild

    renew_lease_mild : (lease : Option ℕ) → Mild (renew_lease lease)
    renew_lease_mild none = tt
    renew_lease_mild (some lease) = keep_alives_mild 3 lease

    module _ {D : Type 0} (dumps : D → Bytes) (loads : Bytes → Option D) where
      store_on_mild :
          (s : Bytes) (value : D) (lease : Option ℕ)
          → Mild (store_on prefix dumps loads s value lease)
      unfolding store_on
      store_on_mild s value none = tt
      store_on_mild s value (some lease) =
          calls _ _
            (Leaves-put service law lock Anyone _ _ (some lease) (session_away prefix name s))
            (λ response. tt)

      pub program_of-Gentle : (op : Operation D) → Mild (program_of prefix dumps loads op)
      unfolding allocate_container release_container remove_container container_current_uses
          container_total_uses containers_total_uses_gte generate_session_id store_session
          get_session renew_session open_session
      program_of-Gentle (allocates c s) = λ l sound. allocate_on_mild c s (get s l.session_leases)
      program_of-Gentle (releases c s) =
          calls _ _ (Leaves-delete service law lock Anyone _ (allocation_away prefix name c s))
            (λ r. tt)
      program_of-Gentle (removes c) =
          after _ _
            (calls _ _
              (Leaves-delete_range service law lock Anyone _ _ (container_away prefix name b c))
              (λ r.
                Sends-attempts prefix (Harmless service law prefix name) 2 _
                  (Leaves-delete service law lock Anyone _ (uses_away prefix name c))))
            (λ r. tt)
      program_of-Gentle (counts c) = after _ _ (after _ _ (all_under_mild _) (λ kvs. tt)) (λ n. tt)
      program_of-Gentle (totals c) =
          after _ _
            (after _ _ (calls _ _ (Leaves-range service law lock Anyone _ none) found_mild)
              total_mild)
            (λ n. tt)
      program_of-Gentle (finds_worn n) =
          after _ _ (after _ _ (all_under_mild _) (with_uses_mild n)) (λ found. tt)
      program_of-Gentle (generates expiry) =
          after _ _
            (after _ _
              (Sends-grant prefix (Harmless service law prefix name)
                (Leaves-keep_alive service law lock Anyone) (Leaves-grant service law lock Anyone)
                expiry)
              (λ lease id. (λ l sound. sound, tt)))
            (λ id. tt)
      program_of-Gentle (stores s value) = λ l sound. store_on_mild s value (get s l.session_leases)
      program_of-Gentle (looks_up s) =
          after _ _
            (calls _ _ (Leaves-range service law lock Anyone _ none)
              (λ response. after _ _ (found_mild response) (λ kvs. tt)))
            (λ value. tt)
      program_of-Gentle (renews s) = λ l sound. renew_lease_mild (get s l.session_leases)
