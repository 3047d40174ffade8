-- ===== src/KeyProcessor/Snapshot.antt =====
-- rules/key_processor.go with the reads of rules/etcd.go.
use go_etcd_rules.Base.{
  ◌≡◌, refl, ap, List, Option, some, [], arith, Text, Result, ok, err, Map, In,
}
use go_etcd_rules.StaticRule.{ReadApi}
use go_etcd_rules.StaticRule.Evaluation.{Store}
use go_etcd_rules.RuleManager.{get_static_rules}
use go_etcd_rules.Etcd.{EtcdKv, get_cached_api}
use go_etcd_rules.Etcd.Reads.{ReadsAtOnce, get_cached_api-Serves}
use go_etcd_rules.KeyProcessor.{KeyProcessor, Work, keys_of, process_key}
use go_etcd_rules.KeyProcessor.Dispatch.{IsDue, process_key-IsDue}

-- The processor reads in the world that `s` is.
abbrev pub reads_at : {S : Type 0} → EtcdKv S → S → List Text → Result ReadApi
reads_at kv s ks = (get_cached_api kv ks s).0

module _ {Callback Provider S : Type 0} (kp : KeyProcessor Callback Provider) (kv : EtcdKv S)
    (contents : S → Store) where
  process_key-IsDue_with :
      (metadata : Map Text) (key : Text) (value : Option Text) (s : S)
      (works : List (Work Callback Provider)) (w : Work Callback Provider) (r : Result ReadApi × S)
      → ReadsAtOnce kv contents
      → get_cached_api kv (keys_of (get_static_rules key value kp.rm)) s ≡ r
      → process_key kp (reads_at kv s) key value metadata ≡ some works
      → In w works
      → IsDue kp (contents s) (get_static_rules key value kp.rm) w
  unfolding process_key
  process_key-IsDue_with metadata key value s works w (ok api, s') reads read e i =
      process_key-IsDue kp api (contents s) metadata (reads_at kv s) key value works w
        (ap (λ (r : Result ReadApi × S). r.0) read)
        (get_cached_api-Serves kv contents _ s s' api reads read) e i
  process_key-IsDue_with metadata key value s works w (err x, s') reads read e i =
      let failed = ap (λ (r : Result ReadApi × S). r.0) read in
      let nothing : List (Work Callback Provider) = [] in
      let none_sent : some nothing ≡ some works = rw (process_key, failed) at e in
      let same : works ≡ nothing = ground arith in absurd (rw same at i)

  -- With the reads of etcd, where a transaction reads it at one moment, every item that `processKey`
  -- sends is for a rule found for the key that holds in etcd at the moment of the call, with the lock
  -- key that the rule's attributes give and the callback that was set for it.
  pub process_key-IsDue_at :
      (metadata : Map Text) (key : Text) (value : Option Text) (s : S)
      (works : List (Work Callback Provider)) (w : Work Callback Provider)
      → ReadsAtOnce kv contents
      → process_key kp (reads_at kv s) key value metadata ≡ some works
      → In w works
      → IsDue kp (contents s) (get_static_rules key value kp.rm) w
  process_key-IsDue_at metadata key value s works w reads e i =
      process_key-IsDue_with metadata key value s works w _ reads refl e i
