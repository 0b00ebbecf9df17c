-- ===== src/Worker/Etcd/Memory/Lawful.antt =====
-- The store in memory does what the documentation of etcd says.
use agent_rl.Common.{
  ℕ, suc, ◌<◌, ◌≤◌, ◌≡◌, refl, sym, ap, Bool, true, false, Bool-cases, inl, inr, Option, none, some,
  List, [], ◌∷◌, list_eq, beq, beq_iff, if◌then◌else◌, arith,
}
use agent_rl.Common.Table.{Table, get, get-put, get-remove}
use agent_rl.Worker.Etcd.{
  Bytes, KeyValue, RequestOp, range, delete_range, Request, single, txn, lease_grant, lease_revoke,
  lease_keep_alive,
}
use agent_rl.Worker.Etcd.Keys.{in_range}
use agent_rl.Worker.Etcd.Service.{IsEtcd, off_lease, meets, each}
use agent_rl.Worker.Etcd.Memory.{
  Entry, Memory, pair, pair_at, look, tops, revision_of, entry_of, keep, drop_lease, perform,
  all_of, serve_in, memory,
}

get-keep :
    (test : Bytes → Bool) (j : Bytes) (d : Table Bytes Entry)
    → get j (keep test d) ≡ (if test j then get j d else none)
unfolding get keep
get-keep test j [] = ground arith
get-keep test j ((k, entry) ∷ d) = elim (Bool-cases (beq k j)) [
  | inl q ↦ rw ((beq_iff k j).0 q) (ground (arith, get-keep test j d, beq_iff j j))
  | inr q ↦ ground (arith, q, get-keep test j d)
]

get-drop_lease :
    (lease : ℕ) (j : Bytes) (d : Table Bytes Entry)
    → pair_at j (get j (drop_lease lease d)) ≡ off_lease lease (pair_at j (get j d))
unfolding get drop_lease
get-drop_lease lease j [] = refl
get-drop_lease lease j ((k, entry) ∷ d) =
    ground (arith, get-drop_lease lease j d, get-remove k j (drop_lease lease d), beq_iff k j)

all_of-each : (ops : List RequestOp) (e : Memory) → all_of ops e ≡ each memory ops e
all_of-each [] e = refl
all_of-each (op ∷ ops) e = rw (all_of-each ops (perform op e).1) refl

range-look :
    (key : Bytes) (end : Option Bytes) (e : Memory) (k : Bytes)
    → look (perform (range key end) e).1 k ≡ look e k
range-look key none e k = refl
range-look key (some end) e k = refl

put-look :
    (key value : Bytes) (lease : Option ℕ) (e : Memory) (k : Bytes)
    → look (perform (RequestOp.put key value lease) e).1 k
      ≡ (if beq key k then some (pair key (entry_of key value lease e)) else look e k)
put-look key value lease e k = elim (Bool-cases (beq key k)) [
  | inl q ↦
      rw (get-put, q)
        (ap (λ j. some (pair j (entry_of key value lease e))) (sym ((beq_iff key k).0 q)))
  | inr q ↦ rw (get-put, q) refl
]

removed :
    (key : Bytes) (e : Memory) (k : Bytes) (b : Bool)
    → beq key k ≡ b
    → look (perform (delete_range key none) e).1 k ≡ (if b then none else look e k)
removed key e k true q = rw (get-remove, q) refl
removed key e k false q = rw (get-remove, q) refl

kept :
    (key end : Bytes) (e : Memory) (k : Bytes) (b : Bool)
    → in_range key end k ≡ b
    → look (perform (delete_range key (some end)) e).1 k ≡ (if b then none else look e k)
kept key end e k true q = rw (get-keep, q) refl
kept key end e k false q = rw (get-keep, q) refl

version_pos :
    (key : Bytes) (o : Option Entry) (kv : KeyValue) → pair_at key o ≡ some kv → 0 < kv.version
version_pos key none kv at = cc at
version_pos key (some entry) kv at = ground (arith, at)

get-tops :
    (key : Bytes) (d : Table Bytes Entry) (entry : Entry)
    → get key d ≡ some entry
    → suc entry.revision ≤ tops d
unfolding get
get-tops key [] entry e = cc e
get-tops key ((k, x) ∷ d) entry e = elim (Bool-cases (beq k key)) [
  | inl q ↦ ground (arith, e, q)
  | inr q ↦ omega (arith, get-tops key d entry (ground (arith, e, q)))
]

mod_le :
    (key : Bytes) (e : Memory) (o : Option Entry) (kv : KeyValue)
    → get key e.entries ≡ o
    → pair_at key o ≡ some kv
    → kv.mod_revision ≤ revision_of e
mod_le key e none kv q at = cc at
mod_le key e (some entry) kv q at = ground (arith, at, get-tops key e.entries entry q)

mod_pos :
    (key : Bytes) (o : Option Entry) (kv : KeyValue) → pair_at key o ≡ some kv → 0 < kv.mod_revision
mod_pos key none kv at = cc at
mod_pos key (some entry) kv at = ground (arith, at)

perform-grows : (op : RequestOp) (e : Memory) → revision_of e ≤ revision_of (perform op e).1
perform-grows (range key none) e = omega arith
perform-grows (range key (some end)) e = omega arith
perform-grows (RequestOp.put key value lease) e = omega arith
perform-grows (delete_range key none) e = omega arith
perform-grows (delete_range key (some end)) e = omega arith

all_of-grows : (ops : List RequestOp) (e : Memory) → revision_of e ≤ revision_of (all_of ops e).1
all_of-grows [] e = omega arith
all_of-grows (op ∷ ops) e = omega (arith, perform-grows op e, all_of-grows ops (perform op e).1)

serve-grows : (r : Request) (e : Memory) → revision_of e ≤ revision_of (serve_in r e).1
serve-grows (single op) e = perform-grows op e
serve-grows (txn compare success failure) e =
    all_of-grows (if meets (look e) compare then success else failure) e
serve-grows (lease_grant ttl) e = omega arith
serve-grows (lease_revoke lease) e = omega arith
serve-grows (lease_keep_alive lease) e = omega arith

pub memory-IsEtcd : IsEtcd memory
unfolding get
memory-IsEtcd = record {
  holds = look;
  revision = revision_of;
  stored = λ key value lease e. pair key (entry_of key value lease e);
  serve-txn = λ compare success failure e. rw all_of-each refl;
  serve-range = λ key e. refl;
  holds-range = range-look;
  holds-put = put-look;
  stored-value = λ key value lease e. refl;
  holds-delete = λ key e k. removed key e k (beq key k) refl;
  holds-delete_range = λ key end e k. kept key end e k (in_range key end k) refl;
  holds-grant = λ ttl e k. refl;
  holds-keep_alive = λ lease e k. refl;
  holds-revoke = λ lease e k. get-drop_lease lease k e.entries;
  holds-expire = λ lease e k. get-drop_lease lease k e.entries;
  mod-pos = λ key e kv at. mod_pos key (get key e.entries) kv at;
  mod-le = λ key e kv at. mod_le key e (get key e.entries) kv refl at;
  stored-mod = λ key value lease e. omega arith;
  revision-serve = serve-grows;
  version-pos = λ key e kv at. version_pos key (get key e.entries) kv at;
}

pub holds-look : (e : Memory) (key : Bytes) → memory-IsEtcd.holds e key ≡ look e key
unfolding memory-IsEtcd
holds-look e key = refl
