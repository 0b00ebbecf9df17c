-- ===== src/Worker/Etcd/Keys.antt =====
-- The keys under which etcd.py stores locks, containers and sessions, and the end of the range of the
-- keys with a prefix. A string is the list of its bytes.
use Prim.Native.Char.{code}
use agent_rl.Common.{
  ℕ, zero, ◌+◌, Bool, true, false, Option, none, some, [], ◌∷◌, ◌++◌, String, ◌==◌, ltb,
  if◌then◌else◌, ◌&&◌, ◌||◌, not,
}
use agent_rl.Worker.Etcd.{Bytes}

-- The bytes of a literal
abbrev pub ascii : String → Bytes
ascii String.[] = []
ascii (String.◌∷◌ c s) = code c ∷ ascii s

-- `self.prefix`
unfoldable pub root : Bytes → Bytes
root [] = []
root (b ∷ prefix) = (b ∷ prefix) ++ ascii ":"

module _ (prefix : Bytes) where
  unfoldable pub lock_key : Bytes → Bytes
  lock_key name = root prefix ++ (ascii "lock:" ++ name)

  unfoldable pub container_key_prefix : Bytes → Bytes
  container_key_prefix container = root prefix ++ (ascii "container:" ++ container)

  unfoldable pub container_allocation_prefix : Bytes → Bytes
  container_allocation_prefix container = container_key_prefix container ++ ascii ":allocation:"

  unfoldable pub container_allocation_key : (container session : Bytes) → Bytes
  container_allocation_key container session = container_allocation_prefix container ++ session

  unfoldable pub uses_prefix : Bytes
  uses_prefix = root prefix ++ ascii "container-uses:"

  unfoldable pub container_uses_key : Bytes → Bytes
  container_uses_key container = uses_prefix ++ container

  unfoldable pub session_key : Bytes → Bytes
  session_key session = root prefix ++ (ascii "session:" ++ session)

-- The loop of `_range_end`, from the last byte; `none` when every byte is 0xFF
unfoldable pub or_bump : ℕ → Option Bytes → Option Bytes
or_bump b (some rest) = some (b ∷ rest)
or_bump b none = if b == 255 then none else some ((b + 1) ∷ [])

unfoldable pub bumped : Bytes → Option Bytes
bumped [] = none
bumped (b ∷ prefix) = or_bump b (bumped prefix)

unfoldable pub or_zero : Option Bytes → Bytes
or_zero (some end) = end
or_zero none = 0 ∷ []

unfoldable pub range_end : Bytes → Bytes
range_end prefix = or_zero (bumped prefix)

-- The keys of a range, as etcd documents it: from `key` on and before `range_end`, all from `key` on
-- when that is a zero byte, and `key` alone when there is none.
unfoldable pub is_before : Bytes → Bytes → Bool
is_before xs [] = false
is_before [] (y ∷ ys) = true
is_before (x ∷ xs) (y ∷ ys) = let rest = is_before xs ys in ltb x y || (x == y && rest)

abbrev pub is_before_end : Bytes → Bytes → Bool
is_before_end key (zero ∷ []) = true
is_before_end key end = is_before key end

unfoldable pub starts_with : Bytes → Bytes → Bool
starts_with [] key = true
starts_with (b ∷ prefix) [] = false
starts_with (b ∷ prefix) (k ∷ key) = let rest = starts_with prefix key in b == k && rest

unfoldable pub in_range : Bytes → Bytes → Bytes → Bool
in_range first end key = not (is_before key first) && is_before_end key end
