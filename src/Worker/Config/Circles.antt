-- ===== src/Worker/Config/Circles.antt =====
-- The imports of files end: files that import each other in a circle are an exception.
use agent_rl.Common.{
  ℕ, zero, suc, ◌≤◌, ◌<◌, ◌≡◌, refl, sym, ◌∙◌, ap, Bool, true, false, not, Option, none, some, List,
  [], ◌∷◌, String, string_eq, beq, beq_iff, contains, length, count_if, if◌then◌else◌, Bool-cases,
  inl, inr, arith,
}
use agent_rl.Common.Table.{Table, get}
use agent_rl.Worker.State.{discard}
use agent_rl.Worker.State.History.{contains-discard}
use agent_rl.Worker.Config.{Value}
use agent_rl.Worker.Config.Files.{
  Answer, ok, raises, waits, Outside, Loader, Load, load_from, finish_file, load_raw, load_new,
  load_file, load_config,
}
use agent_rl.Worker.Config.Restoring.{
  is_waiting, IsLoading, Ends, pure-Ends, fail-Ends, load_from-Ends, parse_imports-Ends,
}

-- How many of the known files are not loading
abbrev left : List String → (String → Bool) → ℕ
left files names = count_if (λ f. not (names f)) files

abbrev add_name : String → (String → Bool) → String → Bool
add_name p names q = if beq p q then true else names q

left-at_most :
    (files : List String) (p : String) (names : String → Bool)
    → left files (add_name p names) ≤ left files names
left-at_most [] p names = omega arith
left-at_most (f ∷ files) p names = ground (arith, left-at_most files p names)

left-less :
    (files : List String) (p : String) (names : String → Bool)
    → contains files p ≡ true
    → names p ≡ false
    → left files (add_name p names) < left files names
left-less [] p names c n = ground (arith, c)
left-less (f ∷ files) p names c n = elim (Bool-cases (beq f p)) [
  | inl b ↦
      let e = (beq_iff f p).0 b in
      ground (arith, left-at_most files p names, ap names e, n, (beq_iff p f).1 (sym e))
  | inr b ↦ ground (arith, left-less files p names (ground (arith, b, c)) n)
]

left-length : (files : List String) → left files (λ q. false) ≤ length files
left-length [] = omega arith
left-length (f ∷ files) = ground (arith, left-length files)

module _ (outside : Outside) (files : List String)
    (known : (p : String) (v : Value) → outside.read p ≡ some v → contains files p ≡ true) where
  now_loading :
      (p : String) (names : String → Bool) (st : Loader)
      → IsLoading names st
      → IsLoading (add_name p names) (record st { loading = p ∷ st.loading })
  now_loading p names st l q = ground (arith, l q)

  not_loading :
      (p : String) (names : String → Bool) (loading : List String) (q : String)
      → names p ≡ false
      → contains loading q ≡ add_name p names q
      → contains (discard p loading) q ≡ names q
  not_loading p names loading q n e = elim (Bool-cases (beq p q)) [
    | inl b ↦ contains-discard p q loading ∙ rw b (sym n ∙ ap names ((beq_iff p q).0 b))
    | inr b ↦ contains-discard p q loading ∙ rw b (ground (arith, e, b))
  ]

  finish-answer :
      (p : String) (r : Answer Value) (st : Loader)
      → is_waiting r ≡ false
      → is_waiting (finish_file outside p r st).0 ≡ false
  finish-answer p (ok v) st e = refl
  finish-answer p raises st e = refl
  finish-answer p waits st e = e

  finish-loading :
      (p : String) (r : Answer Value) (st : Loader)
      → (finish_file outside p r st).1.loading ≡ discard p st.loading
  finish-loading p (ok v) st = refl
  finish-loading p raises st = refl
  finish-loading p waits st = refl

  load_raw-Ends :
      (load : String → Load Value) (p : String) (names : String → Bool) (raw : Option Value)
      → names p ≡ false
      → (contains files p ≡ true → (x : String) → Ends (add_name p names) (load x))
      → outside.read p ≡ raw
      → Ends names (load_raw outside load p raw)
  load_raw-Ends load p names none n h e = fail-Ends
  load_raw-Ends load p names (some raw) n h e =
      let inner =
        parse_imports-Ends outside (load_from outside load none) p
          (λ x. load_from-Ends outside load none x (h (known p raw e))) raw in
      record {
        answer = λ st l. finish-answer p _ _ (inner.answer _ (now_loading p names st l));
        restored = λ st l q.
            ap (λ xs. contains xs q) (finish-loading p _ _)
            ∙ not_loading p names _ q n (inner.restored _ (now_loading p names st l) q);
      }

  load_new-Ends :
      (load : String → Load Value) (p : String) (names : String → Bool) (cached : Option Value)
      → names p ≡ false
      → (contains files p ≡ true → (x : String) → Ends (add_name p names) (load x))
      → Ends names (load_new outside load p cached)
  load_new-Ends load p names (some v) n h = pure-Ends v
  load_new-Ends load p names none n h = load_raw-Ends load p names (outside.read p) n h refl

  load_file-Ends :
      (fuel : ℕ) (names : String → Bool) (path : String)
      → left files names < fuel
      → Ends names (load_file outside fuel path)
  unfolding load_file
  load_file-Ends zero names path l = absurd (ground (arith, l))
  load_file-Ends (suc fuel) names path l =
      let p = outside.real_path path in
      let new = λ (cached : Option Value) (n : names p ≡ false).
        load_new-Ends (load_file outside fuel) p names cached n (λ c x.
          load_file-Ends fuel (add_name p names) x
            (ground (arith, l, left-less files p names c n))) in
      record {
        answer = λ st k. elim (Bool-cases (contains st.loading p)) [
          | inl c ↦ rw c refl
          | inr c ↦ rw c ((new (get p st.loaded) (sym (k p) ∙ c)).answer st k)
        ];
        restored = λ st k. elim (Bool-cases (contains st.loading p)) [
          | inl c ↦ rw c k
          | inr c ↦ rw c ((new (get p st.loaded) (sym (k p) ∙ c)).restored st k)
        ];
      }

  -- If there are finitely many files, and the fuel is more than their number, a configuration is loaded
  -- or there is an exception, whatever the files import, also in circles, and whatever was loaded
  -- before.
  pub load_config_ends :
      (fuel : ℕ) (name : Option String) (path : String) (loaded : Table String Value)
      → length files < fuel
      → is_waiting (load_config outside fuel name path (record { loading = []; loaded = loaded })).0
        ≡ false
  unfolding load_config
  load_config_ends fuel name path loaded l =
      (load_from-Ends outside (load_file outside fuel) name path
          (λ p. load_file-Ends fuel (λ q. false) p (ground (arith, l, left-length files)))).answer
        (record { loading = []; loaded = loaded }) (λ q. refl)
