-- ===== src/Etcd/Reads.antt =====
-- rules/etcd.go: what the cache of a transaction holds.
use go_etcd_rules.Base.{
  ◌≡◌, ◌≢◌, refl, sym, ap, ◌∙◌, ◌⊎◌, inl, inr, false, List, [], ◌∷◌, map, Option, none, some, Text,
  text_eq, text_eq_iff, Result, ok, err, Map, lookup, lookup-insert_hit, lookup-insert_miss, In,
  Bool-cases, arith,
}
use go_etcd_rules.StaticRule.{ReadApi}
use go_etcd_rules.StaticRule.Evaluation.{Store, Serves}
use go_etcd_rules.DynamicRule.{remove_duplicates}
use go_etcd_rules.DynamicRule.Essential.Assignments.{In-remove_duplicates}
use go_etcd_rules.Etcd.{
  EtcdKv, cache_get, put_all, put_responses, unique_keys, cached, get_cached_api,
}

-- The answer of a get: the pair of the key, if it has a value.
abbrev pub pairs_of : Text → Option Text → Map Text
pairs_of key none = []
pairs_of key (some v) = (key, v) ∷ []

abbrev pub point : Store → Text → Map Text
point store key = pairs_of key (store key)

-- What etcd documents: the gets of a transaction all read the contents at one moment.
abbrev pub ReadsAtOnce : {S : Type 0} → EtcdKv S → (S → Store) → Type 0
ReadsAtOnce {S} kv contents =
    (ks : List Text) (s s' : S) (responses : List (Map Text))
    → kv.txn ks s ≡ (ok responses, s')
    → responses ≡ map (point (contents s)) ks

differ : (j k : Text) → text_eq j k ≡ false → j ≢ k
differ j k other e = cc (sym other ∙ (text_eq_iff j k).1 e)

module _ (store : Store) where
  -- Nothing is cached for a key, or its value.
  abbrev Fits : Map Text → Text → Type 0
  Fits values k = (lookup k values ≡ none) ⊎ (lookup k values ≡ store k)

  put_point :
      (k j : Text) (values : Map Text) (o : Option Text)
      → store j ≡ o
      → Fits values k
      → Fits (put_all (pairs_of j o) values) k
        × (j ≡ k → lookup k (put_all (pairs_of j o) values) ≡ store k)
        × (lookup k values ≡ store k → lookup k (put_all (pairs_of j o) values) ≡ store k)
  unfolding put_all
  put_point k j values none missing h =
      (h, λ e. elim h [ inl n ↦ n ∙ sym missing ∙ ap store e | inr n ↦ n ], λ e. e)
  put_point k j values (some v) found h = elim (Bool-cases (text_eq j k)) [
    | inl same ↦
        let hit =
          lookup-insert_hit j k v values same ∙ sym found ∙ ap store ((text_eq_iff j k).0 same) in
        (inr hit, λ e. hit, λ e. hit)
    | inr other ↦
        let miss = lookup-insert_miss j k v values other in
        (
          elim h [ inl n ↦ inl (miss ∙ n) | inr n ↦ inr (miss ∙ n) ],
          λ e. absurd (differ j k other e),
          λ e. miss ∙ e,
        )
  ]

  put_points :
      (k : Text) (ks : List Text) (values : Map Text)
      → Fits values k
      → (In k ks → lookup k (put_responses (map (point store) ks) values) ≡ store k)
        × (lookup k values ≡ store k
            → lookup k (put_responses (map (point store) ks) values) ≡ store k)
  unfolding put_responses
  put_points k [] values h = (λ i. absurd i, λ e. e)
  put_points k (j ∷ ks) values h =
      let (fits, hit, keep) = put_point k j values (store j) refl h in
      let (later, kept) = put_points k ks (put_all (point store j) values) fits in
      (λ i. elim i [ inl e ↦ kept (hit (sym e)) | inr n ↦ later n ], λ e. kept (keep e))

  -- Every key that was asked for reads as the contents have it.
  put_responses-Serves :
      (asked ks : List Text)
      → ((k : Text) → In k asked → In k ks)
      → Serves (cache_get (put_responses (map (point store) ks) [])) store asked
  unfolding cache_get lookup
  put_responses-Serves [] ks h = tt
  put_responses-Serves (k ∷ asked) ks h = (
    ap ok ((put_points k ks [] (inl refl)).0 (h k (inl refl))),
    put_responses-Serves asked ks (λ j i. h j (inr i)),
  )

cached_inv :
    {S : Type 0} (r : Result (List (Map Text)) × S) {api : ReadApi} {s' : S}
    → cached r ≡ (ok api, s')
    → (responses : List (Map Text)) × (r ≡ (ok responses, s'))
      × (cache_get (put_responses responses []) ≡ api)
cached_inv (err e, s) h = cc
cached_inv (ok responses, s) h = (responses, ground arith, ground arith)

-- Where a transaction reads the contents at one moment, the cached reads of some keys are the contents
-- of these keys at the moment of the call, also for a key that is missing or asked for twice.
pub get_cached_api-Serves :
    {S : Type 0} (kv : EtcdKv S) (contents : S → Store) (ks : List Text) (s s' : S) (api : ReadApi)
    → ReadsAtOnce kv contents
    → get_cached_api kv ks s ≡ (ok api, s')
    → Serves api (contents s) ks
unfolding get_cached_api unique_keys remove_duplicates
get_cached_api-Serves kv contents ks s s' api reads e =
    let (responses, answered, is_api) = cached_inv (kv.txn (unique_keys ks) s) e in
    let same = reads (unique_keys ks) s s' responses answered in
    rw (sym is_api, same)
      (put_responses-Serves (contents s) ks (unique_keys ks) (λ k i. In-remove_duplicates k ks i))
