-- ===== src/Crawler.antt =====
-- rules/int_crawler.go: a crawl reads all keys below the prefixes, and hands each key for which some
-- rule is satisfied by what was read to the key processor.
mod Submissions
mod Loop
mod Tests
use go_etcd_rules.Base.{
  ℕ, ◌+◌, Bool, true, false, List, [], ◌∷◌, ◌++◌, Option, none, some, Text, codes, Result, ok, err,
  Map, insert, lookup, if◌then◌else◌,
}
use go_etcd_rules.StaticRule.{ReadApi}
use go_etcd_rules.Lock.{RuleLocker, Unlock}
use go_etcd_rules.Etcd.{EtcdKv, put_all, cache_get}

-- The fields of intCrawler. The key processor is a parameter: its `isWork`, and what its
-- `processKey` does to the world.
pub record IntCrawler (S : Type 0) : Type 0 where
  pub is_stopping : S → Bool × S
  pub kv : EtcdKv S
  pub locker : RuleLocker S
  pub mutex : Option Text
  pub prefixes : List Text
  pub is_work : Text → Option Text → ReadApi → Bool
  pub process_key : Text → Option Text → S → S

-- `incRuleProcessedCount`; a missing count is zero.
unfoldable pub inc_rule_processed_count : Text → Map ℕ → Map ℕ
inc_rule_processed_count rule_id counts =
    insert rule_id ((elim (lookup rule_id counts) [ none ↦ 0 | some n ↦ n ]) + 1) counts

module _ {S : Type 0} (ic : IntCrawler S) where
  -- The loop of `processData`: the keys that are submitted, in order.
  unfoldable pub process_data : Map Text → ReadApi → S → List Text × S
  process_data [] api s = ([], s)
  process_data ((k, v) ∷ rest) api s =
      let (stopping, s1) = ic.is_stopping s in
      let submit = ic.is_work k (some v) api in
      let (ks, s2) = process_data rest api (if submit then ic.process_key k (some v) s1 else s1) in
      let going : List Text × S = (if submit then k ∷ ks else ks, s2) in
      if stopping then ([], s1) else going

  -- The loop of `singleRun` over the prefixes; the first error ends the run.
  unfoldable pub collect : List Text → Map Text → S → Result (Map Text) × S
  collect [] values s = (ok values, s)
  collect (prefix ∷ prefixes) values s =
      let (answer, s') = ic.kv.get_prefix prefix s in
      elim answer [ err e ↦ (err e, s') | ok kvs ↦ collect prefixes (put_all kvs values) s' ]

  abbrev pub evaluate_all : Result (Map Text) × S → List Text × S
  evaluate_all (err e, s) = ([], s)
  evaluate_all (ok values, s) = process_data values (cache_get values) s

  abbrev pub run_unless : Bool × S → List Text × S
  run_unless (true, s) = ([], s)
  run_unless (false, s) = evaluate_all (collect ic.prefixes [] s)

  unfoldable pub single_run : S → List Text × S
  unfolding process_data collect
  single_run s = run_unless (ic.is_stopping s)

  abbrev pub run_locked : Result (Unlock S) × S → List Text × S
  run_locked (err e, s) = ([], s)
  run_locked (ok unlock, s) = let (ks, s') = single_run s in (ks, (unlock s').1)

  abbrev pub lock_key : Text → Text
  lock_key mutex = codes "/crawler/" ++ mutex

  -- The body of the loop of `run`, up to the pause.
  unfoldable pub crawl : S → List Text × S
  unfolding single_run
  crawl s = elim ic.mutex [
    | none ↦ single_run s
    | some mutex ↦ run_locked (ic.locker.lock (lock_key mutex) s)
  ]
