-- ===== src/Worker/Etcd/Calls.antt =====
-- worker/src/agentrl/worker/environment/state/etcd.py: the calls of the service with their retries,
-- and the leases.
use agent_rl.Common.{
  ℕ, zero, suc, Bool, true, false, not, ◌||◌, ◌==◌, ltb, Option, none, some, list_eq, if◌then◌else◌,
}
use agent_rl.Common.Table.{get, put}
use agent_rl.Worker.Etcd.{
  Bytes, Request, lease_grant, lease_keep_alive, Response, granted, lives, Status, other_status,
  Reply, answered, rpc_error, rpc, runtime_error, unexpected, Program, done, raise, send, read,
  write, ◌>>=◌, ◌>>◌,
}

-- `_should_retry`
abbrev pub should_retry : Status → Bool
should_retry other_status = false
should_retry _ = true

-- The reply to one attempt, and the attempts after it
unfoldable pub or_retry : (is_last : Bool) → Program Response → Reply → Program Response
or_retry is_last rest (answered response) = done response
or_retry is_last rest (rpc_error status) =
    if not (should_retry status) || is_last then raise (rpc status) else rest

unfoldable pub attempts : ℕ → Request → Program Response
attempts zero request = raise runtime_error
attempts (suc n) request = send request (or_retry (n == 0) (attempts n request))

abbrev pub kv_call : Request → Program Response
kv_call = attempts 2

abbrev pub lease_call : Request → Program Response
lease_call = attempts 2

unfoldable pub lease_of : Response → Program ℕ
lease_of (granted lease) = done lease
lease_of _ = raise unexpected

abbrev pub grant_lease : ℕ → Program ℕ
grant_lease ttl = lease_call (lease_grant ttl) >>= lease_of

-- A lease that has expired and a failed call are tried again.
unfoldable pub or_again : Program (Unit {0}) → Reply → Program (Unit {0})
or_again rest (answered (lives (suc ttl))) = done tt
or_again rest _ = rest

unfoldable pub keep_alives : ℕ → ℕ → Program (Unit {0})
keep_alives zero lease = done tt
keep_alives (suc n) lease = send (lease_keep_alive lease) (or_again (keep_alives n lease))

abbrev pub keepalive : ℕ → Program (Unit {0})
keepalive = keep_alives 3

abbrev pub max_five : ℕ → ℕ
max_five ttl = if ltb ttl 5 then 5 else ttl

-- The lease of an owner: that of its session, its own, or a new one
unfoldable pub lease_for : (owner : Bytes) → (ttl : ℕ) → (session own : Option ℕ) → Program ℕ
lease_for owner ttl (some lease) own = keepalive lease >> done lease
lease_for owner ttl none (some lease) = keepalive lease >> done lease
lease_for owner ttl none none = do
  lease ← grant_lease (max_five ttl)
  write (λ l. record l { lock_leases = put owner lease l.lock_leases }) (done lease)

unfoldable pub ensure_lock_lease : (owner : Bytes) → (ttl : ℕ) → Program ℕ
ensure_lock_lease owner ttl =
    read (λ l. lease_for owner ttl (get owner l.session_leases) (get owner l.lock_leases))
