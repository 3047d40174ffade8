-- ===== src/Etcd.antt =====
-- rules/etcd.go and the cache of rules/int_crawler.go: the keys of some rules, read in one
-- transaction.
pub mod Reads
mod Get
pub mod Samples
mod Tests
use go_etcd_rules.Base.{
  Bool, true, List, [], ◌∷◌, Option, none, some, Text, Result, ok, err, Map, lookup, insert, keys,
}
use go_etcd_rules.StaticRule.{ReadApi}
use go_etcd_rules.DynamicRule.{unique_from}

-- The etcd client. A transaction of gets answers each with the pairs of keys and values found; a
-- get by prefix answers with the pairs below the prefix.
pub record EtcdKv (S : Type 0) : Type 0 where
  pub txn : List Text → S → Result (List (Map Text)) × S
  pub get_prefix : Text → S → Result (Map Text) × S

-- `get` of cacheReadAPI.
unfoldable pub cache_get : Map Text → ReadApi
cache_get values key = ok (lookup key values)

-- The loop over the pairs of one response.
unfoldable pub put_all : Map Text → Map Text → Map Text
put_all [] values = values
put_all ((key, val) ∷ kvs) values = put_all kvs (insert key val values)

-- The loop over the responses of a transaction.
unfoldable pub put_responses : List (Map Text) → Map Text → Map Text
unfolding put_all
put_responses [] values = values
put_responses (kvs ∷ responses) values = put_responses responses (put_all kvs values)

-- `uniqueKeys`: the keys without duplicates.
unfoldable pub unique_keys : List Text → List Text
unfolding unique_from
unique_keys ks = keys (unique_from ks [])

abbrev pub cached : {S : Type 0} → Result (List (Map Text)) × S → Result ReadApi × S
cached (err e, s) = (err e, s)
cached (ok responses, s) = (ok (cache_get (put_responses responses [])), s)

-- `getCachedAPI` of etcdV3ReadAPI.
unfoldable pub get_cached_api : {S : Type 0} → EtcdKv S → List Text → S → Result ReadApi × S
unfolding unique_keys
get_cached_api kv ks s = cached (kv.txn (unique_keys ks) s)
