-- ===== src/Options/Laws.antt =====
-- rules/options.go: what the options made from a list of them are.
use go_etcd_rules.Base.{
  ◌≡◌, refl, sym, ◌∙◌, inl, inr, List, [], ◌∷◌, ◌++◌, Option, none, some, Text, text_eq,
  text_eq_iff, Map, lookup, insert, keys, lookup-insert_hit, lookup-insert_miss, In, Bool-cases,
  arith,
}
use go_etcd_rules.Options.{
  Floats, EngineOptions, EngineOption, merge_expansion, combine_expansion, key_expansion,
  apply_options, make_engine_options,
}
use go_etcd_rules.Matcher.RoundTrip.{IsDistinct}

-- The first of two values that is there.
abbrev pub first_of : {A : Type 0} → Option A → Option A → Option A
first_of none later = later
first_of (some v) later = some v

-- A map's lookup, where there is a map.
abbrev pub lookup_in : Text → Option (Map (List Text)) → Option (List Text)
lookup_in k none = none
lookup_in k (some m) = lookup k m

lookup-absent : (k : Text) (m : Map (List Text)) → ¬ In k (keys m) → lookup k m ≡ none
unfolding lookup
lookup-absent k [] absent = refl
lookup-absent k ((j, v) ∷ m) absent = elim (Bool-cases (text_eq j k)) [
  | inl same ↦ absurd (absent (inl (sym ((text_eq_iff j k).0 same))))
  | inr other ↦ rw other (lookup-absent k m (λ i. absent (inr i)))
]

lookup-merge_expansion :
    (k : Text) (added old : Map (List Text))
    → IsDistinct (keys added)
    → lookup k (merge_expansion added old) ≡ first_of (lookup k added) (lookup k old)
unfolding merge_expansion lookup
lookup-merge_expansion k [] old d = refl
lookup-merge_expansion k ((j, v) ∷ rest) old d =
    lookup-merge_expansion k rest (insert j v old) d.1 ∙ elim (Bool-cases (text_eq j k)) [
      | inl same ↦
          let gone : ¬ In k (keys rest) = rw (sym ((text_eq_iff j k).0 same)) (d.0) in
          rw (lookup-absent k rest gone, same) (lookup-insert_hit j k v old same)
      | inr other ↦ rw (lookup-insert_miss j k v old other, other)
    ]

lookup-combine_expansion :
    (k : Text) (added : Map (List Text)) (old : Option (Map (List Text)))
    → IsDistinct (keys added)
    → lookup k (combine_expansion added old) ≡ first_of (lookup k added) (lookup_in k old)
lookup-combine_expansion k added none d = ground arith
lookup-combine_expansion k added (some old) d = lookup-merge_expansion k added old d

module _ {F Provider Metrics : Type 0} where
  apply_options-append :
      (before after : List (EngineOption F Provider Metrics))
      (opts : EngineOptions F Provider Metrics)
      → apply_options (before ++ after) opts ≡ apply_options after (apply_options before opts)
  unfolding apply_options
  apply_options-append [] after opts = refl
  apply_options-append (opt ∷ before) after opts = apply_options-append before after (opt opts)

  -- Of two expansions for one attribute the one given last wins, whatever options stand before it; the
  -- expansions of other attributes stay.
  make_engine_options-key_expansion :
      (fl : Floats F) (provider : Provider) (metrics : Metrics)
      (before : List (EngineOption F Provider Metrics)) (added : Map (List Text)) (k : Text)
      → IsDistinct (keys added)
      → lookup_in k
          (make_engine_options fl provider metrics
            (before ++ key_expansion added ∷ [])).key_expansion
        ≡ first_of
            (lookup k added)
            (lookup_in k (make_engine_options fl provider metrics before).key_expansion)
  unfolding make_engine_options key_expansion
  make_engine_options-key_expansion fl provider metrics before added k d =
      rw (apply_options-append before (key_expansion added ∷ []) _)
        (lookup-combine_expansion k added _ d)
