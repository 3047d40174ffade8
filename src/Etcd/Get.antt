-- ===== src/Etcd/Get.antt =====
-- rules/etcd.go: `get`, which reads one key, agrees with the cached reads.
use go_etcd_rules.Base.{
  ◌≡◌, refl, sym, ap, ◌∙◌, List, [], ◌∷◌, Option, none, some, Text, Result, ok, err, Map, In,
  All-In, arith,
}
use go_etcd_rules.StaticRule.{ReadApi}
use go_etcd_rules.StaticRule.Evaluation.{Store}
use go_etcd_rules.Etcd.{EtcdKv, get_cached_api}
use go_etcd_rules.Etcd.Reads.{pairs_of, ReadsAtOnce, get_cached_api-Serves}

-- `Get` of the client, which answers with the pairs of keys and values found.
pub record GetKv (S : Type 0) : Type 0 where
  pub get : Text → S → Result (Map Text) × S

-- The answer's count is the number of its pairs.
abbrev pub response_value : Map Text → Option Text
response_value [] = none
response_value ((key, val) ∷ kvs) = some val

abbrev pub answer_of : {S : Type 0} → Result (Map Text) × S → Result (Option Text) × S
answer_of (err e, s) = (err e, s)
answer_of (ok kvs, s) = (ok (response_value kvs), s)

-- `get` of etcdV3ReadAPI.
unfoldable pub get : {S : Type 0} → GetKv S → Text → S → Result (Option Text) × S
get kv key s = answer_of (kv.get key s)

-- A get answers with the key's value, if it has one.
abbrev pub GetsOne : {S : Type 0} → GetKv S → (S → Store) → Type 0
GetsOne {S} kv contents =
    (key : Text) (s s' : S) (kvs : Map Text)
    → kv.get key s ≡ (ok kvs, s')
    → kvs ≡ pairs_of key (contents s key)

response_value-pairs_of : (key : Text) (o : Option Text) → response_value (pairs_of key o) ≡ o
response_value-pairs_of key none = refl
response_value-pairs_of key (some value) = refl

answer_of_inv :
    {S : Type 0} (r : Result (Map Text) × S) {v : Option Text} {s : S}
    → answer_of r ≡ (ok v, s)
    → (kvs : Map Text) × (r ≡ (ok kvs, s)) × (response_value kvs ≡ v)
answer_of_inv (err e, s) h = cc
answer_of_inv (ok kvs, s) h = (kvs, ground arith, ground arith)

-- At one moment, `get` of a key and the cached reads of keys among which it is give the same.
pub get-get_cached_api :
    {S : Type 0} (one : GetKv S) (kv : EtcdKv S) (contents : S → Store) (key : Text)
    (ks : List Text) (s s1 s2 : S) (value : Option Text) (api : ReadApi)
    → GetsOne one contents
    → ReadsAtOnce kv contents
    → In key ks
    → get one key s ≡ (ok value, s1)
    → get_cached_api kv ks s ≡ (ok api, s2)
    → api key ≡ ok value
unfolding get
get-get_cached_api one kv contents key ks s s1 s2 value api gets reads i e c =
    let (kvs, answered, is_value) = answer_of_inv (one.get key s) e in
    let found : response_value kvs ≡ contents s key =
      ap response_value (gets key s s1 kvs answered)
      ∙ response_value-pairs_of key (contents s key) in
    let served = All-In _ ks key (get_cached_api-Serves kv contents ks s s2 api reads c) i in
    served ∙ ap ok (sym found ∙ is_value)
