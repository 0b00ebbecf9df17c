-- ===== src/Worker/Etcd/Service.antt =====
-- The etcd service as etcd.py uses it, an interface, with what its documentation says of each request;
-- and a method that goes on by one step while others change the store.
use agent_rl.Common.{
  ℕ, ◌≤◌, ◌<◌, ◌≡◌, Bool, true, false, Option, none, some, List, [], ◌∷◌, ◌==◌, ◌&&◌, list_eq, beq,
  if◌then◌else◌,
}
use agent_rl.Worker.Etcd
use agent_rl.Worker.Etcd.{
  Bytes, KeyValue, Compare, version_is, value_is, mod_is, RequestOp, range, delete_range, Request,
  single, txn, lease_grant, lease_revoke, lease_keep_alive, Response, pairs, decided, Status, Reply,
  answered, rpc_error, Local, Program, done, raise, send, draw, read, write,
}
use agent_rl.Worker.Etcd.Keys.{in_range}

-- `serve` is what the service does with a request that reaches it.
pub record Service (E : Type 0) : Type 0 where
  pub serve : Request → E → Response × E
  pub expire : (lease : ℕ) → E → E

-- What becomes of a request: it is answered, it is not received, or its answer is lost.
pub data Transport : Type 0 where
  replies : Transport
  refuses : Status → Transport
  loses : Status → Transport

abbrev pub to_list : Option KeyValue → List KeyValue
to_list none = []
to_list (some kv) = kv ∷ []

abbrev pub version_of : Option KeyValue → ℕ
version_of none = 0
version_of (some kv) = kv.version

abbrev pub has_value : Bytes → Option KeyValue → Bool
has_value value none = false
has_value value (some kv) = beq kv.value value

abbrev pub mod_of : Option KeyValue → ℕ
mod_of none = 0
mod_of (some kv) = kv.mod_revision

abbrev pub is_on : ℕ → Option ℕ → Bool
is_on lease none = false
is_on lease (some l) = l == lease

abbrev pub off_lease : ℕ → Option KeyValue → Option KeyValue
off_lease lease none = none
off_lease lease (some kv) = if is_on lease kv.lease then none else some kv

abbrev pub pairs_of : Response → List KeyValue
pairs_of (pairs kvs) = kvs
pairs_of _ = []

abbrev pub meets : (Bytes → Option KeyValue) → List Compare → Bool
meets at [] = true
meets at (version_is key n ∷ compare) = version_of (at key) == n && meets at compare
meets at (value_is key value ∷ compare) = has_value value (at key) && meets at compare
meets at (mod_is key n ∷ compare) = mod_of (at key) == n && meets at compare

module _ {E : Type 0} (service : Service E) where
  abbrev pub each : List RequestOp → E → List (List KeyValue) × E
  each [] e = ([], e)
  each (op ∷ ops) e =
      let (response, next) = service.serve (single op) e in
      let (responses, last) = each ops next in (pairs_of response ∷ responses, last)

  abbrev pub decide : Bool → List RequestOp × List RequestOp → E → Response × E
  decide succeeded (success, failure) e =
      let (responses, next) = each (if succeeded then success else failure) e in
      (decided succeeded responses, next)

  pub record IsEtcd : Type 0 where
    pub holds : E → Bytes → Option KeyValue
    pub revision : E → ℕ
    pub stored : Bytes → Bytes → Option ℕ → E → KeyValue
    pub serve-txn :
        (compare : List Compare) (success failure : List RequestOp) (e : E)
        → service.serve (txn compare success failure) e
          ≡ decide (meets (holds e) compare) (success, failure) e
    pub serve-range :
        (key : Bytes) (e : E)
        → (service.serve (single (range key none)) e).0 ≡ pairs (to_list (holds e key))
    pub holds-range :
        (key : Bytes) (end : Option Bytes) (e : E) (k : Bytes)
        → holds (service.serve (single (range key end)) e).1 k ≡ holds e k
    pub holds-put :
        (key value : Bytes) (lease : Option ℕ) (e : E) (k : Bytes)
        → holds (service.serve (single (Etcd.put key value lease)) e).1 k
          ≡ (if beq key k then some (stored key value lease e) else holds e k)
    pub stored-value :
        (key value : Bytes) (lease : Option ℕ) (e : E) → (stored key value lease e).value ≡ value
    pub holds-delete :
        (key : Bytes) (e : E) (k : Bytes)
        → holds (service.serve (single (delete_range key none)) e).1 k
          ≡ (if beq key k then none else holds e k)
    pub holds-delete_range :
        (key end : Bytes) (e : E) (k : Bytes)
        → holds (service.serve (single (delete_range key (some end))) e).1 k
          ≡ (if in_range key end k then none else holds e k)
    pub holds-grant :
        (ttl : ℕ) (e : E) (k : Bytes) → holds (service.serve (lease_grant ttl) e).1 k ≡ holds e k
    pub holds-keep_alive :
        (lease : ℕ) (e : E) (k : Bytes)
        → holds (service.serve (lease_keep_alive lease) e).1 k ≡ holds e k
    pub holds-revoke :
        (lease : ℕ) (e : E) (k : Bytes)
        → holds (service.serve (lease_revoke lease) e).1 k ≡ off_lease lease (holds e k)
    pub holds-expire :
        (lease : ℕ) (e : E) (k : Bytes)
        → holds (service.expire lease e) k ≡ off_lease lease (holds e k)
    pub version-pos : (key : Bytes) (e : E) (kv : KeyValue) → holds e key ≡ some kv → 0 < kv.version
    pub mod-pos :
        (key : Bytes) (e : E) (kv : KeyValue) → holds e key ≡ some kv → 0 < kv.mod_revision
    pub mod-le :
        (key : Bytes) (e : E) (kv : KeyValue) → holds e key ≡ some kv → kv.mod_revision ≤ revision e
    pub stored-mod :
        (key value : Bytes) (lease : Option ℕ) (e : E)
        → revision e < (stored key value lease e).mod_revision
    pub revision-serve : (r : Request) (e : E) → revision e ≤ revision (service.serve r e).1

  -- One step of a method: a request with what becomes of it, or a step in the worker
  abbrev pub Going : Type 0 → Type 0
  Going A = Program A × (Local × E)

  abbrev pub sent : {A : Type 0} → Transport → Request → (Reply → Program A) → Local → E → Going A
  sent replies r k l e =
      let (response, next) = service.serve r e in (k (answered response), (l, next))
  sent (refuses status) r k l e = (k (rpc_error status), (l, e))
  sent (loses status) r k l e =
      let (response, next) = service.serve r e in (k (rpc_error status), (l, next))

  unfoldable pub advance :
      {A : Type 0} → Transport → (uuid : Bytes) → Program A → Local → E → Going A
  advance t uuid (done a) l e = (done a, (l, e))
  advance t uuid (raise error) l e = (raise error, (l, e))
  advance t uuid (send r k) l e = sent t r k l e
  advance t uuid (draw g) l e = (g uuid, (l, e))
  advance t uuid (read g) l e = (g l, (l, e))
  advance t uuid (write change p) l e = (p, (change l, e))
