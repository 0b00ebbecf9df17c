-- ===== src/Worker/Etcd/Locks.antt =====
-- worker/src/agentrl/worker/environment/state/etcd.py: `acquire_lock` and `release_lock`.
use agent_rl.Common.{
  ℕ, Bool, true, false, Option, none, some, [], ◌∷◌, list_eq, pair_eq, beq, if◌then◌else◌,
}
use agent_rl.Common.Table.{get, put, remove}
use agent_rl.Worker.Etcd
use agent_rl.Worker.Etcd.{
  Bytes, KeyValue, version_is, value_is, range, delete_range, Request, txn, Response, decided,
  Local, Program, done, read, write, ◌>>=◌, ◌>>◌,
}
use agent_rl.Worker.Etcd.Keys.{lock_key}
use agent_rl.Worker.Etcd.Calls.{kv_call, ensure_lock_lease}

-- `client_id or self._default_lock_client`
unfoldable pub owner_of : Option Bytes → Local → Bytes
owner_of none l = l.default_lock_client
owner_of (some []) l = l.default_lock_client
owner_of (some (b ∷ client)) l = b ∷ client

-- Puts the owner under a key that is not there, and reads the key otherwise.
unfoldable pub claim : (key owner : Bytes) → (lease : ℕ) → Request
claim key owner lease =
    txn (version_is key 0 ∷ []) (Etcd.put key owner (some lease) ∷ []) (range key none ∷ [])

-- Deletes the key when it holds the owner.
unfoldable pub disclaim : (key owner : Bytes) → Request
disclaim key owner = txn (value_is key owner ∷ []) (delete_range key none ∷ []) []

-- Whether the lock is the owner's by this response
unfoldable pub is_granted : (owner : Bytes) → Response → Bool
is_granted owner (decided true responses) = true
is_granted owner (decided false ((kv ∷ kvs) ∷ responses)) = beq kv.value owner
is_granted owner _ = false

-- `self._lock_keys.pop((lock_name, owner), None) or self._lock_key(lock_name)`
unfoldable pub or_key : Option Bytes → Bytes → Bytes
or_key (some (b ∷ key)) other = b ∷ key
or_key _ other = other

module _ (prefix name : Bytes) where
  unfoldable pub note_key : (owner : Bytes) → Local → Local
  note_key owner l = record l { lock_keys = put (name, owner) (lock_key prefix name) l.lock_keys }

  unfoldable pub answer : (owner : Bytes) → Response → Program Bool
  answer owner response =
      if is_granted owner response then write (note_key owner) (done true) else done false

  unfoldable pub acquire_as : (timeout : ℕ) → (owner : Bytes) → Program Bool
  acquire_as timeout owner = do
    lease ← ensure_lock_lease owner timeout
    response ← kv_call (claim (lock_key prefix name) owner lease)
    answer owner response

  unfoldable pub acquire_lock : (client : Option Bytes) → (timeout : ℕ) → Program Bool
  acquire_lock client timeout = read (λ l. acquire_as timeout (owner_of client l))

  unfoldable pub forget_key : (owner : Bytes) → Local → Local
  forget_key owner l = record l { lock_keys = remove (name, owner) l.lock_keys }

  unfoldable pub release_as : (owner : Bytes) → Program (Unit {0})
  release_as owner = read (λ l. write (forget_key owner) (
      kv_call (disclaim (or_key (get (name, owner) l.lock_keys) (lock_key prefix name)) owner)
      >> done tt))

  unfoldable pub release_lock : (client : Option Bytes) → Program (Unit {0})
  release_lock client = read (λ l. release_as (owner_of client l))
