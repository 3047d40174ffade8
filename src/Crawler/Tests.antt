-- ===== src/Crawler/Tests.antt =====
-- rules/int_crawler.go: the theorems at one key and the rule that holds for it, and at a crawler
-- without a prefix whose flag comes up at the third look.
use go_etcd_rules.Base.{
  ℕ, zero, suc, ◌-◌, ◌≤◌, Bool, true, err, locked_locally, arith, ◌≡◌, refl, false, [], ◌∷◌, some,
  none, Text, codes, Map, ok,
}
use go_etcd_rules.Lock.{RuleLocker}
use go_etcd_rules.Etcd.{EtcdKv}
use go_etcd_rules.Etcd.Samples.{table_kv}
use go_etcd_rules.KeyProcessor.{is_work}
use go_etcd_rules.KeyProcessor.Samples.{processor}
use go_etcd_rules.Crawler.{IntCrawler, process_data, collect, single_run, crawl}
use go_etcd_rules.Crawler.Loop.{run_crawler, ComesUp, run_crawler-returns}

abbrev free_locker : RuleLocker (Map Text)
free_locker = record { lock = λ key s. (ok (λ s'. (none, s')), s) }

abbrev crawler : IntCrawler (Map Text)
crawler = record {
  is_stopping = λ s. (false, s);
  kv = table_kv;
  locker = free_locker;
  mutex = some (codes "m");
  prefixes = codes "/j/" ∷ [];
  is_work = is_work processor;
  process_key = λ key value s. s;
}

-- The state counts the looks at the flag that are left until it is up.
abbrev look : ℕ → Bool × ℕ
look zero = (true, zero)
look (suc n) = (false, n)

abbrev looks_kv : EtcdKv ℕ
looks_kv = record { txn = λ ks n. (ok [], n); get_prefix = λ prefix n. (ok [], n) }

abbrev looking : IntCrawler ℕ
looking = record {
  is_stopping = look;
  kv = looks_kv;
  locker = record { lock = λ key n. (err locked_locally, n) };
  mutex = none;
  prefixes = [];
  is_work = λ key value api. false;
  process_key = λ key value n. n;
}

look_moves_lem : (n : ℕ) → (look n).1 ≤ n - 1
look_moves_lem zero = omega arith
look_moves_lem (suc n) = omega arith

look_up : (n : ℕ) → n ≡ 0 → (look n).0 ≡ true
look_up zero h = refl
look_up (suc n) h = absurd (omega (arith, h))

looking_keeps : (n : ℕ) → (crawl looking n).1 ≤ n
unfolding crawl single_run collect process_data
looking_keeps zero = omega arith
looking_keeps (suc n) = omega arith

looking-ComesUp : ComesUp looking (λ n. n)
looking-ComesUp = record { look_moves = look_moves_lem; up = look_up; crawl_keeps = looking_keeps }

run_crawler-returns_example :
    (last : ℕ) × (run_crawler looking 3 (λ n. 1) 2 ≡ some (look last).1) × ((look last).0 ≡ true)
run_crawler-returns_example =
    run_crawler-returns looking (λ n. n) looking-ComesUp 2 (λ n. 1) 2 (omega arith)
