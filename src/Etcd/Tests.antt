-- ===== src/Etcd/Tests.antt =====
-- rules/etcd.go: the theorems at a client whose etcd is a table.
use go_etcd_rules.Base.{
  inl, arith, some, Map, ◌≡◌, refl, List, [], ◌∷◌, Text, codes, text_eq, ok, lookup, insert,
}
use go_etcd_rules.StaticRule.{ReadApi}
use go_etcd_rules.DynamicRule.{unique_from}
use go_etcd_rules.Etcd.{cache_get, put_responses, unique_keys, get_cached_api}
use go_etcd_rules.Etcd.Samples.{table, table_kv, table_kv-ReadsAtOnce, one_pair}
use go_etcd_rules.Etcd.Reads.{pairs_of}
use go_etcd_rules.Etcd.Get.{GetKv, GetsOne, get, get-get_cached_api}

abbrev asked : List Text
asked = codes "/j/7/a" ∷ codes "/b" ∷ codes "/j/7/a" ∷ []

abbrev cache : ReadApi
cache = cache_get (put_responses (one_pair ∷ [] ∷ []) [])

-- One key is asked for twice, and one is missing.
reading : get_cached_api table_kv asked one_pair ≡ (ok cache, one_pair)
unfolding get_cached_api unique_keys unique_from lookup insert text_eq
reading = refl

abbrev table_get : GetKv (Map Text)
table_get = record { get = λ key t. (ok (pairs_of key (table t key)), t) }

table_get-GetsOne : GetsOne table_get table
table_get-GetsOne key s s' kvs e = ground arith

got : get table_get (codes "/j/7/a") one_pair ≡ (ok (some (codes "1")), one_pair)
unfolding get lookup text_eq
got = refl

get-get_cached_api_example : cache (codes "/j/7/a") ≡ ok (some (codes "1"))
get-get_cached_api_example =
    get-get_cached_api table_get table_kv table (codes "/j/7/a") asked one_pair one_pair one_pair
      (some (codes "1")) cache table_get-GetsOne table_kv-ReadsAtOnce (inl refl) got reading
