-- ===== src/Worker/Config.antt =====
-- worker/src/agentrl/worker/config/loader.py: how configurations are merged, and what the keys
-- `default` and `overwrite` of a dictionary do to its other entries.
pub mod Merge
pub mod Precedence
pub mod Files
pub mod Restoring
pub mod Circles
mod Tests
use agent_rl.Common.{Bool, true, false, Option, none, some, String, string_eq, beq, if◌then◌else◌}

-- A value of YAML or JSON; a scalar is its text. The entries of a dictionary are in order.
mutual
  pub data Value : Type 0 where
    scalar : String → Value
    list_of : Values → Value
    dict : Entries → Value

  pub data Values : Type 0 where
    nil : Values
    cons : Value → Values → Values

  pub data Entries : Type 0 where
    done : Entries
    entry : String → Value → Entries → Entries

-- d.get(k)
unfoldable pub lookup : String → Entries → Option Value
lookup k done = none
lookup k (entry j v rest) = if beq j k then some v else lookup k rest

-- d[k] = v
unfoldable pub assign : String → Value → Entries → Entries
assign k v done = entry k v done
assign k v (entry j w rest) =
    let later = assign k v rest in if beq j k then entry j v rest else entry j w later

-- `deep_merge`
unfoldable mutual
  pub deep_merge : Value → Value → Value
  deep_merge (dict base) (dict new) = dict (merge_entries base new)
  deep_merge (dict base) (scalar s) = scalar s
  deep_merge (dict base) (list_of vs) = list_of vs
  deep_merge (scalar b) new = new
  deep_merge (list_of bs) new = new

  pub merge_entries : Entries → Entries → Entries
  merge_entries base done = base
  merge_entries base (entry k v rest) =
      merge_entries (assign k (elim (lookup k base) [ none ↦ v | some u ↦ deep_merge u v ]) base)
        rest

-- config.pop(k)
unfoldable pub without : String → Entries → Entries
without k done = done
without k (entry j v rest) =
    let later = without k rest in if beq j k then later else entry j v later

-- `deep_merge(parsed_v, overwrite)`, if there is something to overwrite with
abbrev pub overwritten : Option Value → Value → Value
overwritten none v = v
overwritten (some overwrite) v = deep_merge v overwrite

-- `deep_merge(default, parsed_v)`, if there is a default
abbrev pub defaulted : Option Value → Value → Value
defaulted none v = v
defaulted (some default) v = deep_merge default v

abbrev pub overlaid : Option Value → Option Value → Value → Value
overlaid overwrite default v = defaulted default (overwritten overwrite v)

unfoldable pub overlay_all : Option Value → Option Value → Entries → Entries
overlay_all overwrite default done = done
overlay_all overwrite default (entry k v rest) =
    entry k (overlaid overwrite default v) (overlay_all overwrite default rest)

-- The rest of `parse_default_and_overwrite`, once the entries are parsed
unfoldable pub overlay : Entries → Entries
overlay parsed =
    overlay_all (lookup "overwrite" parsed) (lookup "default" parsed)
      (without "default" (without "overwrite" parsed))

-- `parse_default_and_overwrite`; lists and scalars are left alone.
unfoldable mutual
  pub parse_default_and_overwrite : Value → Value
  parse_default_and_overwrite (scalar s) = scalar s
  parse_default_and_overwrite (list_of vs) = list_of vs
  parse_default_and_overwrite (dict entries) = dict (overlay (parse_entries entries))

  pub parse_entries : Entries → Entries
  parse_entries done = done
  parse_entries (entry k v rest) = entry k (parse_default_and_overwrite v) (parse_entries rest)
