-- ===== src/Worker/Config/Precedence.antt =====
-- Which of `default`, `overwrite` and the entry itself a setting comes from, in
-- `parse_default_and_overwrite` of worker/src/agentrl/worker/config/loader.py.
use mathlib.Core.Path.{subst}
use agent_rl.Common.{
  ◌≡◌, ◌≢◌, refl, ap, ◌∙◌, sym, Option, none, some, String, string_eq, beq, beq_iff, Bool-cases,
  inl, inr, arith,
}
use agent_rl.Worker.Config.{
  Value, scalar, list_of, dict, Entries, done, entry, lookup, assign, deep_merge, merge_entries,
  overwritten, defaulted, overlaid, parse_default_and_overwrite,
}
use agent_rl.Worker.Config.Merge.{
  IsDistinct, merged, under, parsed, lookup-assign, lookup-merge_entries, lookup-parsed,
}

-- No dictionary, or nothing at all
abbrev pub IsLeaf : Option Value → Type 0
IsLeaf none = Unit {0}
IsLeaf (some (scalar s)) = Unit {0}
IsLeaf (some (list_of vs)) = Unit {0}
IsLeaf (some (dict es)) = ⊥

abbrev pub first_of : Option Value → Option Value → Option Value
first_of none v = v
first_of (some u) v = some u

-- The entries of what an entry of the configuration is parsed to, none if it is missing.
abbrev pub Gives : Option Value → Entries → Type 0
Gives none es = es ≡ done
Gives (some v) es = parse_default_and_overwrite v ≡ dict es

merged-first_of : (base new : Option Value) → IsLeaf new → merged base new ≡ first_of new base
unfolding deep_merge
merged-first_of base none l = refl
merged-first_of none (some v) l = refl
merged-first_of (some (scalar t)) (some v) l = refl
merged-first_of (some (list_of us)) (some v) l = refl
merged-first_of (some (dict es)) (some (scalar s)) l = refl
merged-first_of (some (dict es)) (some (list_of vs)) l = refl
merged-first_of (some (dict es)) (some (dict fs)) l = absurd l

IsLeaf-first_of : (u v : Option Value) → IsLeaf u → IsLeaf v → IsLeaf (first_of u v)
IsLeaf-first_of none v l m = m
IsLeaf-first_of (some u) v l m = l

assign-IsDistinct :
    (k : String) (v : Value) (es : Entries) → IsDistinct es → IsDistinct (assign k v es)
unfolding assign lookup
assign-IsDistinct k v done d = (refl, tt)
assign-IsDistinct k v (entry j w rest) d = elim (Bool-cases (beq j k)) [
  | inl q ↦ rw q d
  | inr q ↦ rw q (
    ground (arith, lookup-assign k j v rest, d.0, q, beq_iff k j, beq_iff j k),
    assign-IsDistinct k v rest d.1,
  )
]

merge_entries-IsDistinct :
    (base new : Entries) → IsDistinct base → IsDistinct (merge_entries base new)
unfolding merge_entries
merge_entries-IsDistinct base done d = d
merge_entries-IsDistinct base (entry k v rest) d =
    let x = elim (lookup k base) as (λ o. Value) [ none ↦ v | some u ↦ deep_merge u v ] in
    merge_entries-IsDistinct (assign k x base) rest (assign-IsDistinct k x base d)

lookup-merge_first :
    (j : String) (base new : Entries)
    → IsDistinct new
    → IsLeaf (lookup j new)
    → lookup j (merge_entries base new) ≡ first_of (lookup j new) (lookup j base)
lookup-merge_first j base new d l =
    lookup-merge_entries j base new d ∙ merged-first_of (lookup j base) (lookup j new) l

overwritten_first :
    (o : Option Value) (os vs : Entries) (j : String)
    → Gives o os
    → IsDistinct os
    → IsDistinct vs
    → IsLeaf (lookup j os)
    → (ws : Entries) × (overwritten (under parse_default_and_overwrite o) (dict vs) ≡ dict ws)
      × IsDistinct ws
      × (lookup j ws ≡ first_of (lookup j os) (lookup j vs))
unfolding lookup deep_merge
overwritten_first none os vs j g d e l = (vs, refl, e, rw g refl)
overwritten_first (some o) os vs j g d e l = (
  merge_entries vs os,
  ap (deep_merge (dict vs)) g,
  merge_entries-IsDistinct vs os e,
  lookup-merge_first j vs os d l,
)

defaulted_first :
    (o : Option Value) (ds ws : Entries) (j : String)
    → Gives o ds
    → IsDistinct ws
    → IsLeaf (lookup j ws)
    → (rs : Entries) × (defaulted (under parse_default_and_overwrite o) (dict ws) ≡ dict rs)
      × (lookup j rs ≡ first_of (lookup j ws) (lookup j ds))
unfolding lookup deep_merge
defaulted_first none ds ws j g e l = (ws, refl, rw g (or_nothing (lookup j ws)))
  where
    or_nothing : (u : Option Value) → u ≡ first_of u none
    or_nothing none = refl
    or_nothing (some u) = refl
defaulted_first (some o) ds ws j g e l =
    (merge_entries ds ws, ap (λ d. deep_merge d (dict ws)) g, lookup-merge_first j ds ws e l)

first_of_assoc : (u v w : Option Value) → first_of (first_of u v) w ≡ first_of u (first_of v w)
first_of_assoc none v w = refl
first_of_assoc (some u) v w = refl

-- Of a dictionary whose entry `k` is parsed to a dictionary `vs`, whose entry `overwrite`, if there is
-- one, is parsed to a dictionary `os`, and whose entry `default`, if there is one, to `ds`: the entry
-- `k` of the parsed dictionary is a dictionary in which under each key `j` stands what `os` has there,
-- if nothing what `vs` has there, and if nothing again what `ds` has there. In `os` and `vs` no key
-- stands twice and under `j` stands no dictionary, and `k` is neither `overwrite` nor `default`.
pub overwrite_then_own_then_default :
    (k j : String) (es vs os ds : Entries) (v : Value)
    → k ≢ "overwrite"
    → k ≢ "default"
    → lookup k es ≡ some v
    → Gives (some v) vs
    → Gives (lookup "overwrite" es) os
    → Gives (lookup "default" es) ds
    → IsDistinct vs
    → IsDistinct os
    → IsLeaf (lookup j vs)
    → IsLeaf (lookup j os)
    → (rs : Entries) × (lookup k (parsed es) ≡ some (dict rs))
      × (lookup j rs ≡ first_of (lookup j os) (first_of (lookup j vs) (lookup j ds)))
overwrite_then_own_then_default k j es vs os ds v p q e g go gd dv dn lv lo =
    let o = under parse_default_and_overwrite (lookup "overwrite" es) in
    let d = under parse_default_and_overwrite (lookup "default" es) in
    let (ws, is_ws, dw, w) = overwritten_first (lookup "overwrite" es) os vs j go dn dv lo in
    let leaf = subst IsLeaf (sym w) (IsLeaf-first_of (lookup j os) (lookup j vs) lo lv) in
    let (rs, is_rs, r) = defaulted_first (lookup "default" es) ds ws j gd dw leaf in
    (
      rs,
      lookup-parsed k es p q
          ∙ ap (under (λ u. overlaid o d (parse_default_and_overwrite u))) e
          ∙ ap (λ u. some (overlaid o d u)) g
          ∙ ap (λ u. some (defaulted d u)) is_ws
          ∙ ap some is_rs,
      r
          ∙ ap (λ u. first_of u (lookup j ds)) w
          ∙ first_of_assoc (lookup j os) (lookup j vs) (lookup j ds),
    )
