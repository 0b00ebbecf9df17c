-- ===== src/Worker/Config/Files.antt =====
-- worker/src/agentrl/worker/config/loader.py: files, what they import, and overrides. The file system,
-- the environment and Consul are an interface.
use agent_rl.Common.{
  ℕ, zero, suc, Option, none, some, List, [], ◌∷◌, String, string_eq, beq, contains, if◌then◌else◌,
}
use agent_rl.Common.Table.{Table, get, put}
use agent_rl.Worker.State.{discard}
use agent_rl.Worker.Config.{
  Value, scalar, list_of, dict, Values, nil, cons, Entries, done, entry, lookup, assign, deep_merge,
  parse_default_and_overwrite,
}

-- A value, an exception, or nothing yet: the fuel is used up
pub data Answer (A : Type 0) : Type 0 where
  ok : A → Answer A
  raises : Answer A
  waits : Answer A

-- `read` gives what a file holds, `none` where it is missing or of no known type or format. `beside`
-- joins the directory of a file and the path of an import; `of_type` is `type(v)(text)` with its
-- exceptions.
pub record Outside : Type 0 where
  pub real_path : String → String
  pub beside : String → String → String
  pub read : String → Option Value
  pub override_path : Option String
  pub variable : String → Option String
  pub variable_of : (prefix key : String) → String
  pub prefix_of : (variable : String) → String
  pub of_type : Value → String → Value
  pub consul_config : String → Option Value

pub record Loader : Type 0 where
  pub loading : List String
  pub loaded : Table String Value

abbrev pub new_loader : Loader
new_loader = record { loading = []; loaded = [] }

abbrev pub Load : Type 0 → Type 0
Load A = Loader → Answer A × Loader

abbrev pub pure : {A : Type 0} → A → Load A
pure a st = (ok a, st)

abbrev pub fail : {A : Type 0} → Load A
fail st = (raises, st)

abbrev pub go_on : {A B : Type 0} → (A → Load B) → Answer A → Load B
go_on f (ok a) = f a
go_on f raises = fail
go_on f waits = λ st. (waits, st)

infixl 5 ◌>>=◌
unfoldable pub ◌>>=◌ : {A B : Type 0} → Load A → (A → Load B) → Load B
(m >>= f) st = go_on f (m st).0 (m st).1

module _ (outside : Outside) where
  -- `deep_override_from_env`
  unfoldable mutual
    pub deep_override_from_env : String → Value → Value
    deep_override_from_env prefix (scalar s) = scalar s
    deep_override_from_env prefix (list_of vs) = list_of vs
    deep_override_from_env prefix (dict entries) = dict (override_entries prefix entries)

    pub override_entries : String → Entries → Entries
    override_entries prefix done = done
    override_entries prefix (entry k v rest) =
        let key = outside.variable_of prefix k in
        let inner = deep_override_from_env (outside.prefix_of key) v in
        entry k (elim (outside.variable key) [ none ↦ inner | some t ↦ outside.of_type v t ])
          (override_entries prefix rest)

  -- The file of the override, merged into a configuration
  abbrev pub with_override : (String → Load Value) → Option String → Value → Load Value
  with_override load_file none config = pure config
  with_override load_file (some path) config = do
    override_config ← load_file path
    pure (deep_merge config override_config)

  -- The path under which the loader keeps the very value that `load_file` gives: that of a file which
  -- was not loaded before, if no override makes a new value of it.
  abbrev pub own_path : Option String → String → Loader → Option String
  own_path (some override) p st = none
  own_path none p st = elim (get p st.loaded) [ none ↦ some p | some v ↦ none ]

  -- An assignment in place, which changes what is kept
  abbrev pub assigned : Option String → Value → Load Value
  assigned none config = pure config
  assigned (some p) config = λ st. (ok config, record st { loaded = put p config st.loaded })

  -- What Consul has for a name, merged into the entry of the name; a falsy entry is an empty one.
  abbrev pub in_entry : Option String → String → Option Value → Value → Load Value
  in_entry own name none config = pure config
  in_entry own name (some new) (dict es) = assigned own (
      dict (
        assign name
          (elim (lookup name es) [ none ↦ deep_merge (dict done) new | some v ↦ deep_merge v new ])
          es))
  in_entry own name (some new) (scalar s) = fail
  in_entry own name (some new) (list_of vs) = fail

  abbrev pub with_consul : Option String → Option String → Value → Load Value
  with_consul own none config = pure config
  with_consul own (some name) config = in_entry own name (outside.consul_config name) config

  abbrev pub load_over : Option String → (String → Load Value) → Option String → String → Load Value
  load_over own load_file name path = do
    config ← load_file path
    config ← with_override load_file outside.override_path config
    config ← with_consul own name config
    pure (deep_override_from_env "" config)

  -- `load_from`
  abbrev pub load_from : (String → Load Value) → Option String → String → Load Value
  load_from load_file name path = λ st.
      load_over (own_path outside.override_path (outside.real_path path) st) load_file name path st

  module _ (load : String → Load Value) (path : String) where
    -- The imports of a list, merged into what there is
    unfoldable pub import_all : Value → Values → Load Value
    import_all ret nil = pure ret
    import_all ret (cons (scalar v) vs) = do
      config ← load (outside.beside path v)
      import_all (deep_merge ret config) vs
    import_all ret (cons (list_of us) vs) = fail
    import_all ret (cons (dict es) vs) = fail

    unfoldable pub imported : Option Value → Load Value
    imported none = pure (dict done)
    imported (some (scalar v)) = import_all (dict done) (cons (scalar v) nil)
    imported (some (list_of vs)) = import_all (dict done) vs
    imported (some (dict es)) = fail

    -- `parse_imports` of the file at the path; the entry `import` itself is not parsed.
    unfoldable mutual
      pub parse_imports : Value → Load Value
      parse_imports (scalar s) = pure (scalar s)
      parse_imports (list_of vs) = do us ← parse_values vs; pure (list_of us)
      parse_imports (dict entries) = do
        ret ← imported (lookup "import" entries)
        parsed ← parse_others entries
        pure (deep_merge ret (dict parsed))

      pub parse_values : Values → Load Values
      parse_values nil = pure nil
      parse_values (cons v vs) = do u ← parse_imports v; us ← parse_values vs; pure (cons u us)

      pub parse_others : Entries → Load Entries
      parse_others done = pure done
      parse_others (entry k v rest) =
          if beq k "import"
          then parse_others rest
          else do u ← parse_imports v; es ← parse_others rest; pure (entry k u es)

  -- The file is not loading any more; a value is kept.
  abbrev pub finish_file : String → Answer Value → Load Value
  finish_file p (ok config) st =
      let parsed = parse_default_and_overwrite config in
      (ok parsed, record { loading = discard p st.loading; loaded = put p parsed st.loaded })
  finish_file p raises st = (raises, record st { loading = discard p st.loading })
  finish_file p waits st = (waits, record st { loading = discard p st.loading })

  abbrev pub load_raw : (String → Load Value) → String → Option Value → Load Value
  load_raw load_file p none = fail
  load_raw load_file p (some raw) = λ st.
      let r =
        parse_imports (load_from load_file none) p raw (record st { loading = p ∷ st.loading }) in
      finish_file p r.0 r.1

  -- Not loading: what was loaded, or the file
  abbrev pub load_new : (String → Load Value) → String → Option Value → Load Value
  load_new load_file p (some v) = pure v
  load_new load_file p none = load_raw load_file p (outside.read p)

  -- `_load_file`, with fuel for imports in imports
  unfoldable pub load_file : ℕ → String → Load Value
  load_file zero path = λ st. (waits, st)
  load_file (suc fuel) path = λ st.
      let p = outside.real_path path in
      if contains st.loading p
      then (raises, st)
      else load_new (load_file fuel) p (get p st.loaded) st

  -- `load_from`, called from outside
  unfoldable pub load_config : ℕ → Option String → String → Load Value
  load_config fuel name path = load_from (load_file fuel) name path
