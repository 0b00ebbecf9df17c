-- ===== src/Worker/Etcd/Locking/Apart.antt =====
-- The keys of etcd.py that are not those of locks: worker/src/agentrl/worker/environment/state/etcd.py.
use agent_rl.Common.{
  ◌≡◌, refl, ◌∙◌, false, [], ◌∷◌, ◌++◌, append_assoc, list_eq, list_beq, beq, arith,
}
use agent_rl.Worker.Etcd.{Bytes}
use agent_rl.Worker.Etcd.Keys.{
  ascii, root, lock_key, container_key_prefix, container_allocation_prefix,
  container_allocation_key, uses_prefix, container_uses_key, session_key, range_end, in_range,
  starts_with,
}
use agent_rl.Worker.Etcd.Ranges.{IsBytes, in_range-range_end}

-- Keys that differ behind a common front
beq-front : (p a b : Bytes) → list_beq (p ++ a) (p ++ b) ≡ list_beq a b
beq-front [] a b = refl
beq-front (x ∷ p) a b = ground (arith, beq-front p a b)

starts_with-front : (p a b : Bytes) → starts_with (p ++ a) (p ++ b) ≡ starts_with a b
unfolding starts_with
starts_with-front [] a b = refl
starts_with-front (x ∷ p) a b = ground (arith, starts_with-front p a b)

module _ (prefix name : Bytes) where
  pub session_away : (s : Bytes) → beq (session_key prefix s) (lock_key prefix name) ≡ false
  unfolding session_key lock_key
  session_away s = beq-front (root prefix) (ascii "session:" ++ s) (ascii "lock:" ++ name)

  pub uses_away : (c : Bytes) → beq (container_uses_key prefix c) (lock_key prefix name) ≡ false
  unfolding container_uses_key uses_prefix lock_key
  uses_away c =
      rw append_assoc
        (beq-front (root prefix) (ascii "container-uses:" ++ c) (ascii "lock:" ++ name))

  pub allocation_away :
      (c s : Bytes) → beq (container_allocation_key prefix c s) (lock_key prefix name) ≡ false
  unfolding container_allocation_key container_allocation_prefix container_key_prefix lock_key
  allocation_away c s =
      rw (append_assoc, append_assoc, append_assoc)
        (beq-front (root prefix) (ascii "container:" ++ (c ++ (ascii ":allocation:" ++ s)))
          (ascii "lock:" ++ name))

  module _ (b : IsBytes (lock_key prefix name)) where
    pub container_away :
        (c : Bytes)
        → in_range
            (container_key_prefix prefix c)
            (range_end (container_key_prefix prefix c))
            (lock_key prefix name)
          ≡ false
    unfolding container_key_prefix lock_key starts_with
    container_away c =
        in_range-range_end (container_key_prefix prefix c) (lock_key prefix name) b
        ∙ starts_with-front (root prefix) (ascii "container:" ++ c) (ascii "lock:" ++ name)
