-- ===== src/Worker/Snapshot.antt =====
-- rules/worker.go with the reads of rules/etcd.go.
use go_etcd_rules.Base.{◌≡◌, refl, sym, ◌∙◌, Bool, true, Text, Result, ok, err, In, arith}
use go_etcd_rules.StaticRule.{StaticRule, ReadApi, satisfied, get_keys}
use go_etcd_rules.StaticRule.Evaluation.{Store, holds, satisfied-holds}
use go_etcd_rules.Lock.{RuleLocker, Unlock}
use go_etcd_rules.Etcd.{EtcdKv}
use go_etcd_rules.Etcd.Reads.{ReadsAtOnce, get_cached_api-Serves}
use go_etcd_rules.Worker.{called, BaseWorker, new_v3_worker, check_with, check, do_work}
use go_etcd_rules.Worker.Locking.{do_work-IsGuarded}

check_with_inv :
    {S : Type 0} (bw : BaseWorker S) (rule : StaticRule) (r : Result ReadApi × S) {s' : S}
    → check_with bw rule r ≡ (ok true, s')
    → (capi : ReadApi) × (s'' : S) × (r ≡ (ok capi, s'')) × (satisfied rule capi ≡ ok true)
check_with_inv bw rule (err e, s) h = cc
check_with_inv bw rule (ok capi, s) h = (capi, s, refl, ground arith)

ok_true : {b : Bool} → ok b ≡ ok true → b ≡ true
ok_true e = cc

module _ {S : Type 0} (kv : EtcdKv S) (locker : RuleLocker S) (is_stopping : S → Bool × S)
    (callback : S → Bool × S) (has_listener : Bool) (rule : StaticRule) (contents : S → Store) where
  -- Where a transaction reads etcd at one moment, a worker calls back only after the lock was granted,
  -- and the rule held in etcd at the moment that followed; what the call comes to is what the callback
  -- does.
  pub do_work-holds :
      (lock_key : Text) (s start : S) (outcome : Bool × S)
      → ReadsAtOnce kv contents
      → In
          (called start outcome)
          (do_work (new_v3_worker kv locker is_stopping callback has_listener) rule lock_key s).0
      → (before after_lock : S) × (unlock : Unlock S) × (locker.lock lock_key before
          ≡ (ok unlock, after_lock))
        × (holds rule (contents after_lock) ≡ true)
        × (outcome ≡ callback start)
  unfolding new_v3_worker check
  do_work-holds lock_key s start outcome reads i =
      let bw = new_v3_worker kv locker is_stopping callback has_listener in
      let g = do_work-IsGuarded bw rule lock_key s start outcome i in
      let (capi, s'', read, sat) = check_with_inv bw rule _ g.satisfied_again in
      let serves =
        get_cached_api-Serves kv contents (get_keys rule) g.after_lock s'' capi reads read in
      (
        g.before,
        g.after_lock,
        g.unlock,
        g.granted,
        ok_true (sym (satisfied-holds rule capi (contents g.after_lock) serves) ∙ sat),
        g.ran,
      )
