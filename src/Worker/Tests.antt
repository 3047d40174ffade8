-- ===== src/Worker/Tests.antt =====
-- rules/worker.go: the theorems at a worker whose world is the table of the local locks.
use go_etcd_rules.Base.{
  ◌≡◌, refl, inl, inr, Bool, true, false, [], ◌∷◌, Option, none, Text, text_eq, codes, In, Map, ok,
  insert, lookup,
}
use go_etcd_rules.Matcher.{map_attributes}
use go_etcd_rules.StaticRule.{StaticRule, compare_literal, satisfied, get_keys}
use go_etcd_rules.StaticRule.Evaluation.{holds}
use go_etcd_rules.DynamicRule.{unique_from}
use go_etcd_rules.Etcd.{get_cached_api, unique_keys, cache_get, put_responses, put_all}
use go_etcd_rules.Etcd.Samples.{table, table_kv, table_kv-ReadsAtOnce, one_pair}
use go_etcd_rules.KeyProcessor.Samples.{found}
use go_etcd_rules.Worker.Snapshot.{do_work-holds}
use go_etcd_rules.Lock.{RuleLocker, Unlock, map_locker}
use go_etcd_rules.Worker.{called, BaseWorker, check, do_work, new_v3_worker}
use go_etcd_rules.Worker.Locking.{IsGuarded, do_work-IsGuarded}

abbrev always : StaticRule
always = compare_literal (map_attributes []) (codes "/a") (λ value. true)

abbrev local_worker : BaseWorker (Map Bool)
local_worker = record {
  get_cached_api = λ keys s. (ok (λ key. ok Option.none), s);
  is_stopping = λ s. (false, s);
  locker = map_locker;
  callback = λ s. (true, s);
  has_listener = false;
}

abbrev a_locked : Map Bool
a_locked = (codes "a", true) ∷ []

was_called : In (called a_locked (true, a_locked)) (do_work local_worker always (codes "a") []).0
unfolding do_work map_locker insert lookup satisfied
was_called = inr (inl refl)

do_work-IsGuarded_example : IsGuarded local_worker always (codes "a") a_locked (true, a_locked)
do_work-IsGuarded_example =
    do_work-IsGuarded local_worker always (codes "a") [] a_locked (true, a_locked) was_called

-- A lock that is always free, in a world that is the table of keys.
abbrev free_locker : RuleLocker (Map Text)
free_locker = record { lock = λ key s. (ok (λ s'. (none, s')), s) }

abbrev returned : Bool × Map Text
returned = (true, one_pair)

is_called :
    In
      (called one_pair returned)
      (do_work
        (new_v3_worker table_kv free_locker (λ s. (false, s)) (λ s. (true, s)) false)
        found
        (codes "l")
        one_pair).0
unfolding do_work check get_keys new_v3_worker get_cached_api unique_keys unique_from lookup insert
    text_eq cache_get put_responses put_all satisfied
is_called = inr (inl refl)

do_work-holds_example :
    (before after_lock : Map Text) × (unlock : Unlock (Map Text)) × (free_locker.lock
        (codes "l")
        before
      ≡ (ok unlock, after_lock))
    × (holds found (table after_lock) ≡ true)
    × (returned ≡ returned)
do_work-holds_example =
    do_work-holds table_kv free_locker (λ s. (false, s)) (λ s. (true, s)) false found table
      (codes "l") one_pair one_pair returned table_kv-ReadsAtOnce is_called
