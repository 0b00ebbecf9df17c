-- ===== src/Worker/Config/Tests.antt =====
-- A base configuration with an override, and a dictionary of tasks with a default and an overwrite.
use agent_rl.Common.{
  none, Option, true, false, List, [], ◌∷◌, beq, beq_iff, string_eq, contains, arith, if◌then◌else◌,
  ◌≡◌, ◌≢◌, refl, String, some,
}
use agent_rl.Worker.Config.{
  scalar, dict, Entries, done, entry, lookup, merge_entries, parse_default_and_overwrite,
  parse_entries, assign, deep_merge, overlay, overlay_all, without,
}
use agent_rl.Common.Table.{get, put}
use agent_rl.Worker.State.{discard}
use agent_rl.Worker.Config.{Value}
use agent_rl.Worker.Config.Files.{
  Outside, ok, raises, new_loader, load_config, load_file, parse_imports, parse_others, imported,
  import_all, ◌>>=◌, deep_override_from_env, override_entries,
}
use agent_rl.Worker.Config.Restoring.{is_waiting}
use agent_rl.Worker.Config.Circles.{load_config_ends}
use agent_rl.Worker.Config.Merge.{IsDistinct, merged, lookup-merge_entries, parsed}
use agent_rl.Worker.Config.Precedence.{first_of, overwrite_then_own_then_default}

abbrev base : Entries
base = entry "port" (scalar "80") (entry "task" (dict (entry "a" (scalar "1") done)) done)

abbrev new : Entries
new = entry "task" (dict (entry "b" (scalar "2") done)) done

new-IsDistinct : IsDistinct new
unfolding lookup
new-IsDistinct = (refl, tt)

lookup-merge_entries_example :
    lookup "task" (merge_entries base new) ≡ merged (lookup "task" base) (lookup "task" new)
lookup-merge_entries_example = lookup-merge_entries "task" base new new-IsDistinct

both_kept :
    lookup "task" (merge_entries base new)
    ≡ some (dict (entry "a" (scalar "1") (entry "b" (scalar "2") done)))
unfolding lookup merge_entries assign deep_merge
both_kept = refl

abbrev own : Entries
own = entry "y" (scalar "1") (entry "z" (scalar "1") done)

abbrev of_overwrite : Entries
of_overwrite = entry "z" (scalar "2") done

abbrev of_default : Entries
of_default = entry "x" (scalar "0") (entry "y" (scalar "0") (entry "z" (scalar "0") done))

abbrev tasks : Entries
tasks =
    entry "default" (dict of_default)
      (entry "overwrite" (dict of_overwrite) (entry "first" (dict own) done))

first_differs : ◌≢◌ {A = String} "first" "overwrite"
first_differs = λ e. cc e

first_no_default : ◌≢◌ {A = String} "first" "default"
first_no_default = λ e. cc e

overwrite_then_own_then_default_example :
    (rs : Entries) × (lookup "first" (parsed tasks) ≡ some (dict rs))
    × (lookup "z" rs
        ≡ first_of (lookup "z" of_overwrite) (first_of (lookup "z" own) (lookup "z" of_default)))
unfolding lookup parse_default_and_overwrite parse_entries overlay overlay_all without
overwrite_then_own_then_default_example =
    overwrite_then_own_then_default "first" "z" tasks own of_overwrite of_default (dict own)
      first_differs first_no_default refl refl refl refl (refl, (refl, tt)) (refl, tt) tt tt

-- The settings come from the default, the entry itself and the overwrite.
each_from_one :
    lookup "first" (parsed tasks)
    ≡ some (dict (entry "x" (scalar "0") (entry "y" (scalar "1") (entry "z" (scalar "2") done))))
unfolding lookup merge_entries assign deep_merge overlay overlay_all without parse_entries
    parse_default_and_overwrite
each_from_one = refl

-- Files that import each other, one that imports nothing, and an override that imports that one.
abbrev files : List String
files = "a.yaml" ∷ "b.yaml" ∷ "c.yaml" ∷ "override.yaml" ∷ []

abbrev contents : String → Option Value
contents p =
    if beq p "a.yaml"
    then some (dict (entry "import" (scalar "b.yaml") done))
    else if beq p "b.yaml"
    then some (dict (entry "import" (scalar "a.yaml") done))
    else if beq p "c.yaml"
    then some (dict (entry "port" (scalar "80") done))
    else if beq p "override.yaml"
    then some (dict (entry "import" (scalar "c.yaml") done))
    else none

abbrev with_files : Option String → Outside
with_files override = record {
  real_path = λ p. p;
  beside = λ p v. v;
  read = contents;
  override_path = override;
  variable = λ v. none;
  variable_of = λ p k. k;
  prefix_of = λ v. v;
  of_type = λ v t. scalar t;
  consul_config = λ n. none;
}

known : (p : String) (v : Value) → contents p ≡ some v → contains files p ≡ true
known p v e = ground (
  arith,
  e,
  beq_iff p "a.yaml",
  beq_iff "a.yaml" p,
  beq_iff p "b.yaml",
  beq_iff "b.yaml" p,
  beq_iff p "c.yaml",
  beq_iff "c.yaml" p,
  beq_iff p "override.yaml",
  beq_iff "override.yaml" p,
)

load_config_ends_example :
    is_waiting
      (load_config (with_files none) 5 none "a.yaml" (record { loading = []; loaded = [] })).0
    ≡ false
load_config_ends_example =
    load_config_ends (with_files none) files known 5 none "a.yaml" [] (omega arith)

circle_raises : (load_config (with_files none) 5 none "a.yaml" new_loader).0 ≡ raises
unfolding load_config load_file parse_imports imported import_all lookup get ◌>>=◌
circle_raises = refl

loads_plain :
    (load_config (with_files none) 5 none "c.yaml" new_loader).0
    ≡ ok (dict (entry "port" (scalar "80") done))
unfolding load_config load_file parse_imports imported import_all lookup get ◌>>=◌ parse_others
    parse_default_and_overwrite parse_entries overlay overlay_all without merge_entries assign
    deep_merge deep_override_from_env override_entries
loads_plain = refl

-- An override that imports a file is overridden by itself, which counts as a circle.
override_raises :
    (load_config (with_files (some "override.yaml")) 5 none "c.yaml" new_loader).0 ≡ raises
unfolding load_config load_file parse_imports imported import_all lookup get put ◌>>=◌ parse_others
    parse_default_and_overwrite parse_entries overlay overlay_all without merge_entries assign
    deep_merge discard
override_raises = refl

-- What Consul has is assigned into what the loader keeps of the file.
abbrev with_port : Outside
with_port = record (with_files none) { consul_config = λ n. some (scalar "81") }

consul_kept :
    get "c.yaml" (load_config with_port 5 (some "port") "c.yaml" new_loader).1.loaded
    ≡ some (dict (entry "port" (scalar "81") done))
unfolding load_config load_file parse_imports imported import_all lookup get put ◌>>=◌ parse_others
    parse_default_and_overwrite parse_entries overlay overlay_all without merge_entries assign
    deep_merge deep_override_from_env override_entries discard
consul_kept = refl
