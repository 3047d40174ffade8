-- ===== src/Etcd/Samples.antt =====
-- rules/etcd.go: a client whose etcd is a table.
use go_etcd_rules.Base.{[], ◌∷◌, map, Text, codes, ok, Map, lookup, has_prefix, if◌then◌else◌}
use go_etcd_rules.StaticRule.Evaluation.{Store}
use go_etcd_rules.Etcd.{EtcdKv}
use go_etcd_rules.Etcd.Reads.{point, ReadsAtOnce}

abbrev pub table : Map Text → Store
table t key = lookup key t

abbrev pub below : Text → Map Text → Map Text
below prefix [] = []
below prefix ((k, v) ∷ t) =
    let rest = below prefix t in if has_prefix prefix k then (k, v) ∷ rest else rest

abbrev pub table_kv : EtcdKv (Map Text)
table_kv = record {
  txn = λ ks t. (ok (map (point (table t)) ks), t);
  get_prefix = λ prefix t. (ok (below prefix t), t);
}

pub table_kv-ReadsAtOnce : ReadsAtOnce table_kv table
table_kv-ReadsAtOnce ks s s' responses e = cc

abbrev pub one_pair : Map Text
one_pair = (codes "/j/7/a", codes "1") ∷ []
