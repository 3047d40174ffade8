-- ===== src/Engine/Run.antt =====
-- rules/engine.go: `Run`, which makes the watchers, the crawler and the workers. Starting their
-- goroutines is left out.
use go_etcd_rules.Base.{ℕ, zero, suc, ◌+◌, Bool, List, [], ◌∷◌, Option, Text}
use go_etcd_rules.Lock.{RuleLocker}
use go_etcd_rules.Etcd.{EtcdKv}
use go_etcd_rules.KeyProcessor.{is_work}
use go_etcd_rules.Watcher.{KeyWatcher, new_etcd_v3_key_watcher}
use go_etcd_rules.Crawler.{IntCrawler}
use go_etcd_rules.Engine.{Engine}

-- A watcher with the prefix that its key watcher is for; the key processor is the engine's for all.
pub record PrefixWatcher : Type 0 where
  pub prefix : Text
  pub kw : KeyWatcher

-- What the engine keeps in its fields of these names. A worker is known by the number in its name.
pub record Fleet (S : Type 0) : Type 0 where
  pub watchers : List PrefixWatcher
  pub crawler : IntCrawler S
  pub workers : List ℕ

-- The loop over the prefixes.
unfoldable pub make_watchers : List Text → List PrefixWatcher
unfolding new_etcd_v3_key_watcher
make_watchers [] = []
make_watchers (p ∷ prefixes) =
    record { prefix = p; kw = new_etcd_v3_key_watcher } ∷ make_watchers prefixes

-- The loop that makes workers, from a number on.
unfoldable pub make_workers : ℕ → ℕ → List ℕ
make_workers i zero = []
make_workers i (suc n) = i ∷ make_workers (i + 1) n

module _ {F Provider Metrics Callback S : Type 0} (e : Engine F Provider Metrics Callback) where
  -- `newIntCrawler` with the engine's key processor, whose `processKey` does to the world what is given.
  unfoldable pub new_int_crawler :
      EtcdKv S
      → RuleLocker S
      → (S → Bool × S)
      → (Text → Option Text → S → S)
      → List Text
      → IntCrawler S
  new_int_crawler kv locker is_stopping process_key prefix_slice = record {
    is_stopping = is_stopping;
    kv = kv;
    locker = locker;
    mutex = e.options.crawl_mutex;
    prefixes = prefix_slice;
    is_work = is_work e.key_proc;
    process_key = process_key;
  }

  unfoldable pub run :
      EtcdKv S → RuleLocker S → (S → Bool × S) → (Text → Option Text → S → S) → Fleet S
  unfolding make_watchers make_workers new_int_crawler
  run kv locker is_stopping process_key = record {
    watchers = make_watchers e.rule_mgr.prefixes;
    crawler = new_int_crawler kv locker is_stopping process_key e.rule_mgr.prefixes;
    workers = make_workers 0 e.options.concurrency;
  }
