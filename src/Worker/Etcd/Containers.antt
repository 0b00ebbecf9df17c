-- ===== src/Worker/Etcd/Containers.antt =====
-- worker/src/agentrl/worker/environment/state/etcd.py: the uses of containers.
use agent_rl.Common.{
  ℕ, zero, suc, ◌+◌, Bool, false, Option, none, some, List, [], ◌∷◌, length, ltb, leb, ◌==◌,
  list_eq, if◌then◌else◌,
}
use agent_rl.Common.Table.{get}
use agent_rl.Worker.Etcd
use agent_rl.Worker.Etcd.{
  Bytes, KeyValue, Compare, version_is, mod_is, range, delete_range, Request, single, txn, Response,
  pairs, decided, value_error, unexpected, Program, done, raise, read, ◌>>=◌, ◌>>◌,
}
use agent_rl.Worker.Etcd.Keys.{
  ascii, container_key_prefix, container_allocation_prefix, container_allocation_key, uses_prefix,
  container_uses_key, range_end,
}
use agent_rl.Worker.Etcd.Numbers.{str, int_or_zero}
use agent_rl.Worker.Etcd.Calls.{kv_call}

-- The pairs of a response to a range
unfoldable pub found : Response → Program (List KeyValue)
found (pairs kvs) = done kvs
found _ = raise unexpected

unfoldable pub number : Option ℕ → Program ℕ
number (some n) = done n
number none = raise value_error

-- The comparison with what was read, and the uses with one more
unfoldable pub one_more : (key : Bytes) → List KeyValue → Program (Compare × Bytes)
one_more key [] = done (version_is key 0, ascii "1")
one_more key (kv ∷ kvs) = do
  current ← number (int_or_zero kv.value)
  done (mod_is key kv.mod_revision, str (current + 1))

unfoldable pub swap : (key : Bytes) → Compare × Bytes → Request
swap key (compare, value) = txn (compare ∷ []) (Etcd.put key value none ∷ []) []

abbrev pub has_succeeded : Response → Bool
has_succeeded (decided succeeded _) = succeeded
has_succeeded _ = false

-- One round of `_increment_uses`
unfoldable pub increment_once : (key : Bytes) → Program Bool
increment_once key = do
  response ← kv_call (single (range key none))
  kvs ← found response
  change ← one_more key kvs
  result ← kv_call (swap key change)
  done (has_succeeded result)

unfoldable pub increments : ℕ → (key : Bytes) → Program (Unit {0})
increments zero key = done tt
increments (suc n) key = do
  succeeded ← increment_once key
  let rest = increments n key in if succeeded then done tt else rest

-- `key.split(':')[-1]`, from the part before
unfoldable pub last_part : Bytes → Bytes → Bytes
last_part part [] = part
last_part part (b ∷ key) = if b == 58 then last_part key key else last_part part key

unfoldable pub total : List KeyValue → Program ℕ
total [] = done 0
total (kv ∷ kvs) = number (int_or_zero kv.value)

unfoldable pub with_uses : ℕ → List KeyValue → Program (List Bytes)
with_uses min_uses [] = done []
with_uses min_uses (kv ∷ kvs) = do
  uses ← number (int_or_zero kv.value)
  matches ← with_uses min_uses kvs
  done (if leb min_uses uses then last_part kv.key kv.key ∷ matches else matches)

module _ (prefix : Bytes) where
  unfoldable pub increment_uses : (container : Bytes) → Program (Unit {0})
  increment_uses container = increments 16 (container_uses_key prefix container)

  unfoldable pub allocate_on : (container session : Bytes) → Option ℕ → Program (Unit {0})
  allocate_on container session none = raise value_error
  allocate_on container session (some lease) =
      kv_call (
        single
          (Etcd.put (container_allocation_key prefix container session) (ascii "1") (some lease)))
      >> increment_uses container

  unfoldable pub allocate_container : (container session : Bytes) → Program (Unit {0})
  allocate_container container session =
      read (λ l. allocate_on container session (get session l.session_leases))

  abbrev pub renew_container : (container session : Bytes) → Program (Unit {0})
  renew_container container session = done tt

  -- All pairs under a prefix
  unfoldable pub all_under : Bytes → Program (List KeyValue)
  all_under key = kv_call (single (range key (some (range_end key)))) >>= found

  unfoldable pub container_current_uses : (container : Bytes) → Program ℕ
  container_current_uses container = do
    kvs ← all_under (container_allocation_prefix prefix container)
    done (length kvs)

  unfoldable pub container_is_allocated : (container : Bytes) → Program Bool
  container_is_allocated container = do uses ← container_current_uses container; done (ltb 0 uses)

  unfoldable pub container_total_uses : (container : Bytes) → Program ℕ
  container_total_uses container =
      kv_call (single (range (container_uses_key prefix container) none)) >>= found >>= total

  unfoldable pub containers_total_uses_gte : ℕ → Program (List Bytes)
  containers_total_uses_gte min_uses = all_under (uses_prefix prefix) >>= with_uses min_uses

  unfoldable pub release_container : (container session : Bytes) → Program (Unit {0})
  release_container container session =
      kv_call (single (delete_range (container_allocation_key prefix container session) none))
      >> done tt

  unfoldable pub remove_container : (container : Bytes) → Program (Unit {0})
  remove_container container =
      let key = container_key_prefix prefix container in
      kv_call (single (delete_range key (some (range_end key))))
      >> kv_call (single (delete_range (container_uses_key prefix container) none))
      >> done tt
