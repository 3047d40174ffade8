-- ===== src/Matcher/Names.antt =====
-- rules/matcher.go: the capture that each name of a pattern has in `fieldMap`.
use go_etcd_rules.Base.{
  ℕ, suc, ◌+◌, ◌≡◌, sym, ap, ◌∙◌, inl, inr, ◌⊎◌, List, [], ◌∷◌, some, Text, text_eq, text_eq_iff,
  text_eq_refl, arith, get_elem?, Bool-cases, In, Map, lookup, insert, lookup-insert_hit,
  lookup-insert_miss,
}
use go_etcd_rules.Matcher.Segments.{Segment, literal, param}
use go_etcd_rules.Matcher.Fields.{index_fields}
use go_etcd_rules.Matcher.Search.{params}

abbrev pub Position : List Segment → ℕ → Text → ℕ → Type 0
Position segs i name j = (k : ℕ) × (j ≡ i + k) × (get_elem? (params segs) k ≡ some name)

-- An index that a name has is the position of one of its occurrences.
pub index_fields-Position :
    (segs : List Segment) (i : ℕ) (fields : Map ℕ) (name : Text) (j : ℕ)
    → lookup name (index_fields segs i fields) ≡ some j
    → (lookup name fields ≡ some j) ⊎ Position segs i name j
unfolding index_fields
index_fields-Position [] i fields name j e = inl e
index_fields-Position (literal w ∷ segs) i fields name j e =
    index_fields-Position segs i fields name j e
index_fields-Position (param p ∷ segs) i fields name j e =
    elim (index_fields-Position segs (i + 1) (insert p i fields) name j e) [
      | inr (k, at, found) ↦ inr (suc k, omega arith, found)
      | inl old ↦ elim (Bool-cases (text_eq p name)) [
        | inl same ↦ inr (
          0,
          ground (arith, lookup-insert_hit p name i fields same),
          ap some ((text_eq_iff p name).0 same),
        )
        | inr other ↦ inl (sym (lookup-insert_miss p name i fields other) ∙ old)
      ]
    ]

total_insert :
    (ps : List Text) (p name : Text) (i : ℕ) (fields : Map ℕ)
    → In name (p ∷ ps) ⊎ ((j : ℕ) × (lookup name fields ≡ some j))
    → In name ps ⊎ ((j : ℕ) × (lookup name (insert p i fields) ≡ some j))
total_insert ps p name i fields (inl (inl e)) =
    inr (i, lookup-insert_hit p name i fields (rw e (text_eq_refl p)))
total_insert ps p name i fields (inl (inr h)) = inl h
total_insert ps p name i fields (inr (j, e)) = elim (Bool-cases (text_eq p name)) [
  | inl same ↦ inr (i, lookup-insert_hit p name i fields same)
  | inr other ↦ inr (j, lookup-insert_miss p name i fields other ∙ e)
]

-- Every name of the pattern has an index.
pub index_fields-total :
    (segs : List Segment) (i : ℕ) (fields : Map ℕ) (name : Text)
    → (In name (params segs)) ⊎ ((j : ℕ) × (lookup name fields ≡ some j))
    → (j : ℕ) × (lookup name (index_fields segs i fields) ≡ some j)
unfolding index_fields
index_fields-total [] i fields name (inl h) = absurd h
index_fields-total [] i fields name (inr h) = h
index_fields-total (literal w ∷ segs) i fields name h = index_fields-total segs i fields name h
index_fields-total (param p ∷ segs) i fields name h =
    index_fields-total segs (i + 1) (insert p i fields) name
      (total_insert (params segs) p name i fields h)
