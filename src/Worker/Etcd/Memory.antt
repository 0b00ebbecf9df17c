-- ===== src/Worker/Etcd/Memory.antt =====
-- A store in memory that does what is asked of the etcd service: the tests run on it.
pub mod Lawful
use agent_rl.Common.{
  ℕ, suc, ◌+◌, ◌<◌, ◌≤◌, ◌≡◌, refl, sym, ap, Bool, true, false, not, Bool-cases, inl, inr, Option,
  none, some, List, [], ◌∷◌, list_eq, beq, beq_iff, if◌then◌else◌, arith,
}
use agent_rl.Common.Table.{Table, get, put, remove, get-put, get-remove}
use agent_rl.Worker.Etcd.{
  Bytes, KeyValue, RequestOp, range, delete_range, Request, single, txn, lease_grant, lease_revoke,
  lease_keep_alive, Response, pairs, written, decided, granted, lives,
}
use agent_rl.Worker.Etcd.Keys.{in_range}
use agent_rl.Worker.Etcd.Service.{Service, IsEtcd, to_list, is_on, off_lease, pairs_of, meets, each}

-- A pair with one less than its version and its revision
pub record Entry : Type 0 where
  pub value : Bytes
  pub before : ℕ
  pub revision : ℕ
  pub lease : Option ℕ

pub record Memory : Type 0 where
  pub entries : Table Bytes Entry
  pub last : ℕ

abbrev pair : Bytes → Entry → KeyValue
pair key entry = record {
  key = key;
  value = entry.value;
  version = suc entry.before;
  mod_revision = suc entry.revision;
  lease = entry.lease;
}

abbrev pair_at : Bytes → Option Entry → Option KeyValue
pair_at key none = none
pair_at key (some entry) = some (pair key entry)

abbrev pub look : Memory → Bytes → Option KeyValue
look e key = pair_at key (get key e.entries)

abbrev versions : Option Entry → ℕ
versions none = 0
versions (some entry) = suc entry.before

abbrev tops : Table Bytes Entry → ℕ
tops [] = 0
tops ((k, entry) ∷ d) = suc entry.revision + tops d

-- A bound of all revisions so far
abbrev revision_of : Memory → ℕ
revision_of e = e.last + tops e.entries

abbrev entry_of : Bytes → Bytes → Option ℕ → Memory → Entry
entry_of key value lease e = record {
  value = value;
  before = versions (get key e.entries);
  revision = revision_of e;
  lease = lease;
}

-- The entries whose keys pass a test, and those that are not on a lease
unfoldable pub keep : (Bytes → Bool) → Table Bytes Entry → Table Bytes Entry
keep test [] = []
keep test ((k, entry) ∷ d) = let rest = keep test d in if test k then (k, entry) ∷ rest else rest

unfoldable pub drop_lease : ℕ → Table Bytes Entry → Table Bytes Entry
drop_lease lease [] = []
drop_lease lease ((k, entry) ∷ d) =
    let rest = drop_lease lease d in
    if is_on lease entry.lease then remove k rest else (k, entry) ∷ rest

abbrev pairs_in : Table Bytes Entry → List KeyValue
pairs_in [] = []
pairs_in ((k, entry) ∷ d) = pair k entry ∷ pairs_in d

abbrev perform : RequestOp → Memory → Response × Memory
perform (range key none) e = (pairs (to_list (look e key)), e)
perform (range key (some end)) e = (pairs (pairs_in (keep (in_range key end) e.entries)), e)
perform (RequestOp.put key value lease) e = (
  written,
  record { entries = put key (entry_of key value lease e) e.entries; last = suc (revision_of e) },
)
perform (delete_range key none) e =
    (written, record { entries = remove key e.entries; last = suc (revision_of e) })
perform (delete_range key (some end)) e = (
  written,
  record { entries = keep (λ k. not (in_range key end k)) e.entries; last = suc (revision_of e) },
)

abbrev all_of : List RequestOp → Memory → List (List KeyValue) × Memory
all_of [] e = ([], e)
all_of (op ∷ ops) e =
    let (response, next) = perform op e in
    let (responses, last) = all_of ops next in (pairs_of response ∷ responses, last)

abbrev expired_in : ℕ → Memory → Memory
expired_in lease e = record { entries = drop_lease lease e.entries; last = revision_of e }

abbrev serve_in : Request → Memory → Response × Memory
serve_in (single op) e = perform op e
serve_in (txn compare success failure) e =
    let succeeded = meets (look e) compare in
    let (responses, next) = all_of (if succeeded then success else failure) e in
    (decided succeeded responses, next)
serve_in (lease_grant ttl) e = (granted (suc e.last), record e { last = suc e.last })
serve_in (lease_revoke lease) e = (written, expired_in lease e)
serve_in (lease_keep_alive lease) e = (lives 1, e)

abbrev pub memory : Service Memory
memory = record { serve = serve_in; expire = expired_in }
