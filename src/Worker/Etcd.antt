-- ===== src/Worker/Etcd.antt =====
-- worker/src/agentrl/worker/environment/state/etcd.py: the state that workers share in an etcd
-- service. Here: what is asked of the service and what it answers, and a method as the tree of its
-- requests, since other workers' requests come in between.
pub mod Keys
pub mod Numbers
pub mod Ranges
pub mod Calls
pub mod Service
pub mod Locks
pub mod Containers
pub mod Sessions
pub mod Counting
mod Tests
pub mod Memory
pub mod Sending
pub mod Locking
pub mod Held
use agent_rl.Common.{ℕ, Bool, Option, List}
use agent_rl.Common.Table.{Table}

abbrev pub Bytes : Type 0
Bytes = List ℕ

pub record KeyValue : Type 0 where
  pub key : Bytes
  pub value : Bytes
  pub version : ℕ
  pub mod_revision : ℕ
  pub lease : Option ℕ

-- `Compare` with the target VERSION, VALUE or MOD, and the result EQUAL
pub data Compare : Type 0 where
  version_is : (key : Bytes) → (version : ℕ) → Compare
  value_is : (key value : Bytes) → Compare
  mod_is : (key : Bytes) → (mod_revision : ℕ) → Compare

pub data RequestOp : Type 0 where
  range : (key : Bytes) → (range_end : Option Bytes) → RequestOp
  put : (key value : Bytes) → (lease : Option ℕ) → RequestOp
  delete_range : (key : Bytes) → (range_end : Option Bytes) → RequestOp

pub data Request : Type 0 where
  single : RequestOp → Request
  txn : (compare : List Compare) → (success failure : List RequestOp) → Request
  lease_grant : (ttl : ℕ) → Request
  lease_revoke : (lease : ℕ) → Request
  lease_keep_alive : (lease : ℕ) → Request

-- Of a transaction, whether it succeeded, and the pairs of each response
pub data Response : Type 0 where
  pairs : List KeyValue → Response
  written : Response
  decided : (succeeded : Bool) → (responses : List (List KeyValue)) → Response
  granted : (lease : ℕ) → Response
  lives : (ttl : ℕ) → Response

pub data Status : Type 0 where
  unavailable aborted deadline_exceeded internal other_status : Status

pub data Reply : Type 0 where
  answered : Response → Reply
  rpc_error : Status → Reply

pub data Error : Type 0 where
  rpc : Status → Error
  value_error runtime_error unexpected : Error

-- What the worker itself keeps
pub record Local : Type 0 where
  pub session_leases : Table Bytes ℕ
  pub lock_leases : Table Bytes ℕ
  pub lock_keys : Table (Bytes × Bytes) Bytes
  pub default_lock_client : Bytes

-- A method: it returns, raises, waits for the reply to a request, draws a UUID, or reads or changes
-- what the worker keeps.
pub data Program (A : Type 0) : Type 0 where
  done : A → Program A
  raise : Error → Program A
  send : Request → (Reply → Program A) → Program A
  draw : (Bytes → Program A) → Program A
  read : (Local → Program A) → Program A
  write : (Local → Local) → Program A → Program A

infixl 5 ◌>>=◌ ◌>>◌
unfoldable pub ◌>>=◌ : {A B : Type 0} → Program A → (A → Program B) → Program B
done a >>= f = f a
raise error >>= f = raise error
send r k >>= f = send r (λ reply. k reply >>= f)
draw g >>= f = draw (λ id. g id >>= f)
read g >>= f = read (λ l. g l >>= f)
write change p >>= f = write change (p >>= f)

abbrev pub ◌>>◌ : {A B : Type 0} → Program A → Program B → Program B
m >> k = m >>= λ _. k
