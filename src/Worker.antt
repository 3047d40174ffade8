-- ===== src/Worker.antt =====
-- rules/worker.go: `doWork`. It runs in a world that others change as well, so that each read of
-- etcd, each attempt at the lock and each look at the stopping flag gives a new world.
mod Locking
pub mod Snapshot
pub mod Single
mod Tests
use go_etcd_rules.Base.{
  Bool, true, false, ◌&&◌, List, [], ◌∷◌, ◌++◌, Text, Result, ok, err, if◌then◌else◌,
}
use go_etcd_rules.StaticRule.{StaticRule, ReadApi, satisfied, get_keys}
use go_etcd_rules.Lock.{RuleLocker, Unlock}
use go_etcd_rules.Etcd.{EtcdKv, get_cached_api}

-- What `doWork` is seen to do; a call of the callback with the world in which it starts and what comes of
-- it: whether it returned, and the world then.
pub data Event (S : Type 0) : Type 0 where
  locked : Event S
  called : S → Bool × S → Event S
  told_listener : Event S
  unlocked : Event S

-- The fields of baseWorker. `callback` is the caller's; it says whether it returned or panicked.
pub record BaseWorker (S : Type 0) : Type 0 where
  pub get_cached_api : List Text → S → Result ReadApi × S
  pub is_stopping : S → Bool × S
  pub locker : RuleLocker S
  pub callback : S → Bool × S
  pub has_listener : Bool

module _ {S : Type 0} (bw : BaseWorker S) (rule : StaticRule) where
  abbrev pub check_with : Result ReadApi × S → Result Bool × S
  check_with (err e, s) = (err e, s)
  check_with (ok capi, s) = (satisfied rule capi, s)

  -- `getCachedAPI` of the rule's keys, and `satisfied`.
  unfoldable pub check : S → Result Bool × S
  check s = check_with (bw.get_cached_api (get_keys rule) s)

  -- The attributes that are gathered for the log before the call are left out: a rule always has
  -- them, unless a compound rule is empty.
  abbrev pub call_unless : Bool × S → List (Event S) × S
  call_unless (true, s) = ([], s)
  call_unless (false, s) =
      let (returned, s') = bw.callback s in
      (
        called s (returned, s') ∷ (if returned && bw.has_listener then told_listener ∷ [] else []),
        s',
      )

  abbrev pub call_if : Result Bool × S → List (Event S) × S
  call_if (err e, s) = ([], s)
  call_if (ok false, s) = ([], s)
  call_if (ok true, s) = call_unless (bw.is_stopping s)

  -- From the lock on; the deferred function unlocks on every path, a panic included.
  abbrev pub with_lock : Result (Unlock S) × S → List (Event S) × S
  with_lock (err e, s) = ([], s)
  with_lock (ok unlock, s) =
      let (events, s') = call_if (check s) in (locked ∷ (events ++ unlocked ∷ []), (unlock s').1)

  abbrev pub lock_unless : Text → Bool × S → List (Event S) × S
  lock_unless lock_key (true, s) = ([], s)
  lock_unless lock_key (false, s) = with_lock (bw.locker.lock lock_key s)

  abbrev pub lock_if : Text → Result Bool × S → List (Event S) × S
  lock_if lock_key (err e, s) = ([], s)
  lock_if lock_key (ok false, s) = ([], s)
  lock_if lock_key (ok true, s) = lock_unless lock_key (bw.is_stopping s)

  unfoldable pub do_work : Text → S → List (Event S) × S
  unfolding check
  do_work lock_key s = lock_if lock_key (check s)

-- `newV3Worker`: the worker reads through etcd.
unfoldable pub new_v3_worker :
    {S : Type 0} → EtcdKv S → RuleLocker S → (S → Bool × S) → (S → Bool × S) → Bool → BaseWorker S
new_v3_worker kv locker is_stopping callback has_listener = record {
  get_cached_api = get_cached_api kv;
  is_stopping = is_stopping;
  locker = locker;
  callback = callback;
  has_listener = has_listener;
}
