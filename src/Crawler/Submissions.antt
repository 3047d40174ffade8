-- ===== src/Crawler/Submissions.antt =====
-- rules/int_crawler.go: the keys that a crawl hands on.
use go_etcd_rules.Base.{ℕ, ◌≡◌, refl, true, Option, some, Text, Result, ok, err, Map, lookup, In}
use go_etcd_rules.StaticRule.{StaticRule, ReadApi}
use go_etcd_rules.StaticRule.Evaluation.{holds}
use go_etcd_rules.RuleManager.{get_static_rules}
use go_etcd_rules.Lock.{Unlock}
use go_etcd_rules.KeyProcessor.{KeyProcessor, is_work}
use go_etcd_rules.Crawler.{IntCrawler, single_run, run_locked, lock_key, crawl}

module _ {S : Type 0} (ic : IntCrawler S) (api : ReadApi) where
  -- A key that is handed on is one of the data, and is work.
  abbrev IsWork : Map Text → Text → Type 0
  IsWork values k = (v : Text) × In (k, v) values × (ic.is_work k (some v) api ≡ true)

-- The crawler works with a key processor.
abbrev pub WorksWith :
    {S Callback Provider : Type 0} → IntCrawler S → KeyProcessor Callback Provider → Type 0
WorksWith ic kp =
    (k : Text) (value : Option Text) (api : ReadApi)
    → ic.is_work k value api ≡ is_work kp k value api

-- A key of the data for whose value some rule was found that holds in the data.
abbrev pub HasRule :
    {Callback Provider : Type 0} → KeyProcessor Callback Provider → Map Text → Text → Type 0
HasRule kp values k =
    (v : Text) × In (k, v) values
    × ((rule : StaticRule) × (index : ℕ) × In (rule, index) (get_static_rules k (some v) kp.rm)
        × (holds rule (λ j. lookup j values) ≡ true))

module _ {S : Type 0} (ic : IntCrawler S) where
  locked_inv :
      (s : S) (mutex k : Text) (r : Result (Unlock S) × S)
      → ic.locker.lock (lock_key ic mutex) s ≡ r
      → In k (run_locked ic r).0
      → (unlock : Unlock S) × (s' : S) × (ic.locker.lock (lock_key ic mutex) s ≡ (ok unlock, s'))
        × ((run_locked ic r).1 ≡ (unlock (single_run ic s').1).1)
  locked_inv s mutex k (err e, s') l i = absurd i
  locked_inv s mutex k (ok unlock, s') l i = (unlock, s', l, refl)

  -- Where the crawler has a mutex, a crawl that hands on a key was granted the lock of the mutex before
  -- it read, and unlocks it after its run.
  pub crawl-locked :
      (s : S) (mutex k : Text)
      → ic.mutex ≡ some mutex
      → In k (crawl ic s).0
      → (unlock : Unlock S) × (s' : S) × (ic.locker.lock (lock_key ic mutex) s ≡ (ok unlock, s'))
        × ((crawl ic s).1 ≡ (unlock (single_run ic s').1).1)
  unfolding crawl
  crawl-locked s mutex k has i =
      rw (crawl, has)
        (locked_inv s mutex k (ic.locker.lock (lock_key ic mutex) s) refl (rw (crawl, has) at i))
