-- ===== src/Worker/Config/Merge.antt =====
-- What stands under a key of a merged configuration of worker/src/agentrl/worker/config/loader.py, and of a
-- parsed one.
use agent_rl.Common.{
  ◌≡◌, ◌≢◌, refl, sym, ap, ◌∙◌, false, Option, none, some, String, string_eq, beq, beq_iff,
  if◌then◌else◌, arith, Bool-cases, inl, inr,
}
use agent_rl.Worker.Config.{
  Value, Entries, done, entry, lookup, assign, deep_merge, merge_entries, without, overlaid,
  overlay_all, overlay, parse_default_and_overwrite, parse_entries,
}

-- No key stands twice.
abbrev pub IsDistinct : Entries → Type 0
IsDistinct done = Unit {0}
IsDistinct (entry k v rest) = (lookup k rest ≡ none) × IsDistinct rest

abbrev pub merged : Option Value → Option Value → Option Value
merged base none = base
merged none (some v) = some v
merged (some u) (some v) = some (deep_merge u v)

pub lookup-assign :
    (k j : String) (v : Value) (es : Entries)
    → lookup j (assign k v es) ≡ (if beq k j then some v else lookup j es)
unfolding lookup assign
lookup-assign k j v done = refl
lookup-assign k j v (entry i w rest) =
    ground (arith, lookup-assign k j v rest, beq_iff k j, beq_iff i j, beq_iff i k)

-- Under a key of two merged dictionaries stands what stands there in both, merged, or else what stands
-- there in the one that has it (no key stands twice in the second).
pub lookup-merge_entries :
    (k : String) (base new : Entries)
    → IsDistinct new
    → lookup k (merge_entries base new) ≡ merged (lookup k base) (lookup k new)
unfolding merge_entries lookup
lookup-merge_entries k base done d = ground arith
lookup-merge_entries k base (entry j v rest) d =
    let x = elim (lookup j base) as (λ o. Value) [ none ↦ v | some u ↦ deep_merge u v ] in
    lookup-merge_entries k (assign j x base) rest d.1
    ∙ ground (arith, lookup-assign j k x base, beq_iff j k, d.0)

lookup-without :
    (k j : String) (es : Entries)
    → lookup j (without k es) ≡ (if beq k j then none else lookup j es)
unfolding lookup without
lookup-without k j done = ground arith
lookup-without k j (entry i w rest) =
    ground (arith, lookup-without k j rest, beq_iff k j, beq_iff i j, beq_iff i k)

different : (j k : String) → k ≢ j → beq j k ≡ false
different j k n = elim (Bool-cases (beq j k)) [
  | inl e ↦ absurd (n (sym ((beq_iff j k).0 e)))
  | inr e ↦ e
]

abbrev pub under : (Value → Value) → Option Value → Option Value
under f none = none
under f (some v) = some (f v)

lookup-overlay_all :
    (k : String) (o d : Option Value) (es : Entries)
    → lookup k (overlay_all o d es) ≡ under (overlaid o d) (lookup k es)
unfolding lookup overlay_all
lookup-overlay_all k o d done = refl
lookup-overlay_all k o d (entry j v rest) = ground (arith, lookup-overlay_all k o d rest)

lookup-parse_entries :
    (k : String) (es : Entries)
    → lookup k (parse_entries es) ≡ under parse_default_and_overwrite (lookup k es)
unfolding lookup parse_entries
lookup-parse_entries k done = refl
lookup-parse_entries k (entry j v rest) = ground (arith, lookup-parse_entries k rest)

kept :
    (k : String) (es : Entries)
    → k ≢ "overwrite"
    → k ≢ "default"
    → lookup k (without "default" (without "overwrite" es)) ≡ lookup k es
kept k es p q =
    lookup-without "default" k (without "overwrite" es)
    ∙ rw (different "default" k q, lookup-without "overwrite" k es, different "overwrite" k p) refl

under_twice :
    (v : Option Value) (f g : Value → Value) → under f (under g v) ≡ under (λ u. f (g u)) v
under_twice none f g = refl
under_twice (some v) f g = refl

-- The entries of a parsed dictionary.
abbrev pub parsed : Entries → Entries
parsed es = overlay (parse_entries es)

pub lookup-parsed :
    (k : String) (es : Entries)
    → k ≢ "overwrite"
    → k ≢ "default"
    → lookup k (parsed es)
      ≡ under
          (λ v.
            overlaid
              (under parse_default_and_overwrite (lookup "overwrite" es))
              (under parse_default_and_overwrite (lookup "default" es))
              (parse_default_and_overwrite v))
          (lookup k es)
unfolding overlay
lookup-parsed k es p q =
    let ps = parse_entries es in
    lookup-overlay_all k (lookup "overwrite" ps) (lookup "default" ps)
      (without "default" (without "overwrite" ps))
    ∙ ap (under (overlaid (lookup "overwrite" ps) (lookup "default" ps))) (kept k ps p q)
    ∙ rw
        (
          lookup-parse_entries "overwrite" es,
          lookup-parse_entries "default" es,
          lookup-parse_entries k es,
        )
        (under_twice (lookup k es) _ _)
