-- ===== src/Worker/Etcd/Sessions.antt =====
-- worker/src/agentrl/worker/environment/state/etcd.py: the sessions.
use agent_rl.Common.{ℕ, Option, none, some, List, [], ◌∷◌, list_eq}
use agent_rl.Common.Table.{get, put, remove}
use agent_rl.Worker.Etcd
use agent_rl.Worker.Etcd.{
  Bytes, KeyValue, range, delete_range, single, lease_revoke, value_error, Local, Program, done,
  raise, draw, read, write, ◌>>=◌, ◌>>◌,
}
use agent_rl.Worker.Etcd.Keys.{session_key}
use agent_rl.Worker.Etcd.Calls.{kv_call, lease_call, grant_lease, keepalive}
use agent_rl.Worker.Etcd.Containers.{found}

unfoldable pub open_session : (session : Bytes) → (lease : ℕ) → Local → Local
open_session session lease l = record l {
  session_leases = put session lease l.session_leases;
  lock_leases = put session lease l.lock_leases;
}

unfoldable pub generate_session_id : (session_expiry : ℕ) → Program Bytes
generate_session_id session_expiry = do
  lease ← grant_lease session_expiry
  draw (λ session. write (open_session session lease) (done session))

abbrev pub renew_lease : Option ℕ → Program (Unit {0})
renew_lease none = done tt
renew_lease (some lease) = keepalive lease

unfoldable pub renew_session : (session : Bytes) → Program (Unit {0})
renew_session session = read (λ l. renew_lease (get session l.session_leases))

abbrev pub revoke : Option ℕ → Program (Unit {0})
revoke none = done tt
revoke (some lease) = lease_call (lease_revoke lease) >> done tt

unfoldable pub forget_session : (session : Bytes) → Local → Local
forget_session session l = record l { session_leases = remove session l.session_leases }

unfoldable pub forget_lease : (session : Bytes) → Local → Local
forget_lease session l = record l { lock_leases = remove session l.lock_leases }

-- `json.dumps` and `json.loads`, where `none` is a JSONDecodeError
module _ (prefix : Bytes) {D : Type 0} (dumps : D → Bytes) (loads : Bytes → Option D) where
  unfoldable pub store_on : (session : Bytes) → D → Option ℕ → Program (Unit {0})
  store_on session value none = raise value_error
  store_on session value (some lease) =
      kv_call (single (Etcd.put (session_key prefix session) (dumps value) (some lease))) >> done tt

  unfoldable pub store_session : (session : Bytes) → D → Program (Unit {0})
  store_session session value = read (λ l. store_on session value (get session l.session_leases))

  unfoldable pub loaded : List KeyValue → Option D
  loaded [] = none
  loaded (kv ∷ kvs) = loads kv.value

  unfoldable pub get_session : (session : Bytes) → Program (Option D)
  get_session session = do
    response ← kv_call (single (range (session_key prefix session) none))
    kvs ← found response
    done (loaded kvs)

unfoldable pub delete_session : (prefix session : Bytes) → Program (Unit {0})
delete_session prefix session =
    kv_call (single (delete_range (session_key prefix session) none))
    >> read (λ l.
      write (forget_session session)
        (revoke (get session l.session_leases) >> write (forget_lease session) (done tt)))
