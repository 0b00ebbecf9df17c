-- ===== src/Worker/Config/Restoring.antt =====
-- Parts of the loader that end, and after which the same files are loading as before.
use agent_rl.Common.{
  ◌≡◌, refl, Bool, true, false, Option, none, some, String, string_eq, beq, contains, if◌then◌else◌,
  arith,
}
use agent_rl.Worker.Config.{
  Value, scalar, list_of, dict, Values, nil, cons, Entries, done, entry, lookup, deep_merge,
}
use agent_rl.Worker.Config.Files.{
  Answer, ok, raises, waits, Outside, Loader, Load, pure, fail, go_on, ◌>>=◌, with_override,
  own_path, assigned, in_entry, with_consul, load_over, load_from, import_all, imported,
  parse_imports, parse_values, parse_others,
}

abbrev pub is_waiting : {A : Type 0} → Answer A → Bool
is_waiting waits = true
is_waiting (ok a) = false
is_waiting raises = false

-- The files of `names` are loading.
abbrev pub IsLoading : (String → Bool) → Loader → Type 0
IsLoading names st = (q : String) → contains st.loading q ≡ names q

-- An action that ends, and with which the same files are loading afterwards
pub record Ends {A : Type 0} (names : String → Bool) (m : Load A) : Type 0 where
  pub answer : (st : Loader) → IsLoading names st → is_waiting (m st).0 ≡ false
  pub restored : (st : Loader) → IsLoading names st → IsLoading names (m st).1

module _ {names : String → Bool} where
  pub pure-Ends : {A : Type 0} (a : A) → Ends names (pure a)
  pure-Ends a = record { answer = λ st l. refl; restored = λ st l. l }

  pub fail-Ends : {A : Type 0} → Ends names (fail {A = A})
  fail-Ends = record { answer = λ st l. refl; restored = λ st l. l }

  go_on-Ends :
      {A B : Type 0} {f : A → Load B}
      → ((a : A) → Ends names (f a))
      → (r : Answer A) → is_waiting r ≡ false
      → Ends names (go_on f r)
  go_on-Ends h (ok a) e = h a
  go_on-Ends h raises e = fail-Ends
  go_on-Ends h waits e = absurd (ground (arith, e))

  bind-Ends :
      {A B : Type 0} {m : Load A} {f : A → Load B}
      → Ends names m
      → ((a : A) → Ends names (f a))
      → Ends names (m >>= f)
  unfolding ◌>>=◌
  bind-Ends {m = m} e h = record {
    answer = λ st l. (go_on-Ends h (m st).0 (e.answer st l)).answer (m st).1 (e.restored st l);
    restored = λ st l. (go_on-Ends h (m st).0 (e.answer st l)).restored (m st).1 (e.restored st l);
  }

  module _ (outside : Outside) where
    with_override-Ends :
        (load : String → Load Value) (path : Option String) (config : Value)
        → ((p : String) → Ends names (load p))
        → Ends names (with_override outside load path config)
    with_override-Ends load none config h = pure-Ends config
    with_override-Ends load (some p) config h =
        bind-Ends (h p) (λ new. pure-Ends (deep_merge config new))

    assigned-Ends :
        (own : Option String) (config : Value) → Ends names (assigned outside own config)
    assigned-Ends none config = pure-Ends config
    assigned-Ends (some p) config = record { answer = λ st l. refl; restored = λ st l. l }

    in_entry-Ends :
        (own : Option String) (name : String) (new : Option Value) (config : Value)
        → Ends names (in_entry outside own name new config)
    in_entry-Ends own name none config = pure-Ends config
    in_entry-Ends own name (some new) (dict es) = assigned-Ends own _
    in_entry-Ends own name (some new) (scalar s) = fail-Ends
    in_entry-Ends own name (some new) (list_of vs) = fail-Ends

    with_consul-Ends :
        (own name : Option String) (config : Value)
        → Ends names (with_consul outside own name config)
    with_consul-Ends own none config = pure-Ends config
    with_consul-Ends own (some name) config =
        in_entry-Ends own name (outside.consul_config name) config

    load_over-Ends :
        (own : Option String) (load : String → Load Value) (name : Option String) (path : String)
        → ((p : String) → Ends names (load p))
        → Ends names (load_over outside own load name path)
    load_over-Ends own load name path h = bind-Ends (h path) (λ config.
        bind-Ends (with_override-Ends load outside.override_path config h)
          (λ merged. bind-Ends (with_consul-Ends own name merged) (λ all_of. pure-Ends _)))

    pub load_from-Ends :
        (load : String → Load Value) (name : Option String) (path : String)
        → ((p : String) → Ends names (load p))
        → Ends names (load_from outside load name path)
    load_from-Ends load name path h =
        let over = λ (st : Loader).
          load_over-Ends (own_path outside outside.override_path (outside.real_path path) st) load
            name path h in
        record {
          answer = λ st l. (over st).answer st l;
          restored = λ st l. (over st).restored st l;
        }

    module _ (load : String → Load Value) (path : String)
        (h : (p : String) → Ends names (load p)) where
      import_all-Ends :
          (ret : Value) (vs : Values) → Ends names (import_all outside load path ret vs)
      unfolding import_all
      import_all-Ends ret nil = pure-Ends ret
      import_all-Ends ret (cons (scalar v) vs) =
          bind-Ends (h (outside.beside path v))
            (λ config. import_all-Ends (deep_merge ret config) vs)
      import_all-Ends ret (cons (list_of us) vs) = fail-Ends
      import_all-Ends ret (cons (dict es) vs) = fail-Ends

      imported-Ends : (v : Option Value) → Ends names (imported outside load path v)
      unfolding imported
      imported-Ends none = pure-Ends _
      imported-Ends (some (scalar v)) = import_all-Ends (dict done) (cons (scalar v) nil)
      imported-Ends (some (list_of vs)) = import_all-Ends (dict done) vs
      imported-Ends (some (dict es)) = fail-Ends

      if-Ends :
          {A : Type 0} {m n : Load A} (b : Bool)
          → Ends names m
          → Ends names n
          → Ends names (if b then m else n)
      if-Ends true e k = e
      if-Ends false e k = k

      mutual
        unfolding parse_imports parse_values parse_others

        pub parse_imports-Ends : (v : Value) → Ends names (parse_imports outside load path v)
        parse_imports-Ends (scalar s) = pure-Ends (scalar s)
        parse_imports-Ends (list_of vs) =
            bind-Ends (parse_values-Ends vs) (λ us. pure-Ends (list_of us))
        parse_imports-Ends (dict es) =
            bind-Ends (imported-Ends (lookup "import" es))
              (λ ret. bind-Ends (parse_others-Ends es) (λ parsed. pure-Ends _))

        parse_values-Ends : (vs : Values) → Ends names (parse_values outside load path vs)
        parse_values-Ends nil = pure-Ends nil
        parse_values-Ends (cons v vs) =
            bind-Ends (parse_imports-Ends v)
              (λ u. bind-Ends (parse_values-Ends vs) (λ us. pure-Ends (cons u us)))

        parse_others-Ends : (es : Entries) → Ends names (parse_others outside load path es)
        parse_others-Ends done = pure-Ends done
        parse_others-Ends (entry k v rest) = if-Ends (beq k "import") (parse_others-Ends rest) (
            bind-Ends (parse_imports-Ends v)
              (λ u. bind-Ends (parse_others-Ends rest) (λ es. pure-Ends (entry k u es))))
