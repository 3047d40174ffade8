-- ===== src/Pipeline/Called.antt =====
-- From a key that was submitted to the call of a callback.
use go_etcd_rules.Base.{
  ◌∙◌, refl, some, none, ℕ, ◌≡◌, Bool, true, false, List, In, ok, Text, Map, nat_lookup,
}
use go_etcd_rules.Matcher.{Attributes, format_with_attributes}
use go_etcd_rules.StaticRule.{get_attributes}
use go_etcd_rules.StaticRule.Evaluation.{Store, holds}
use go_etcd_rules.RuleManager.{get_static_rules}
use go_etcd_rules.Lock.{RuleLocker, Unlock}
use go_etcd_rules.Etcd.{EtcdKv}
use go_etcd_rules.Etcd.Reads.{ReadsAtOnce}
use go_etcd_rules.KeyProcessor.{KeyProcessor, Work}
use go_etcd_rules.Worker.{Event, called}
use go_etcd_rules.Worker.Single.{with_worker_id, call_task, work_unless, single_run}
use go_etcd_rules.Worker.Snapshot.{do_work-holds}
use go_etcd_rules.Pipeline.{KeyTask, Pipeline, Reach, new_pipeline}
use go_etcd_rules.Pipeline.Due.{Reach-IsDue}

work_unless_inv :
    {S : Type 0} (run : S → List (Event S) × S) (r : Bool × S) (e : Event S)
    → In e (work_unless run r).0
    → (s : S) × In e (run s).0
work_unless_inv run (true, s) e i = absurd i
work_unless_inv run (false, s) e i = (s, i)

module _ {Callback Provider S : Type 0} (perform : Callback → Attributes → Map Text → S → Bool × S)
    (worker_id : Text) (w : Work Callback Provider) where
  call_task-some :
      (callback : Callback) (s : S)
      → w.rule_task_callback ≡ some callback
      → call_task perform worker_id w s
        ≡ perform callback w.attr (with_worker_id worker_id w.metadata) s
  call_task-some callback s e = rw e refl

  call_task-none :
      (s : S) → w.rule_task_callback ≡ none → call_task perform worker_id w s ≡ (false, s)
  call_task-none s e = rw e refl

module _ {Callback Provider S : Type 0} (kp : KeyProcessor Callback Provider) (kv : EtcdKv S)
    (contents : S → Store) (locker : RuleLocker S) (is_stopping : S → Bool × S)
    (perform : Callback → Attributes → Map Text → S → Bool × S) (has_listener : Bool) where
  -- What stands behind a call of a callback, which starts in the world `start` and comes to `outcome`:
  -- whether it returned, and the world then. Where no callback was set, the call of nil panics.
  pub record IsCalled (submitted : List KeyTask) (w : Work Callback Provider) (worker_id : Text)
      (start : S) (outcome : Bool × S) : Type 0 where
    pub task : KeyTask
    pub was_submitted : In task submitted
    pub found : In (w.rule, w.rule_index) (get_static_rules task.key task.value kp.rm)
    pub its_pattern : nat_lookup w.rule_index kp.lock_key_patterns ≡ some w.key_pattern
    pub its_attributes : get_attributes w.rule ≡ some w.attr
    pub its_callback :
        (callback : Callback)
        → nat_lookup w.rule_index kp.callbacks ≡ some callback
        → outcome ≡ perform callback w.attr (with_worker_id worker_id w.metadata) start
    pub no_callback : nat_lookup w.rule_index kp.callbacks ≡ none → outcome ≡ (false, start)
    pub before : S
    pub after_lock : S
    pub unlock : Unlock S
    pub locked :
        locker.lock (format_with_attributes w.key_pattern w.attr) before ≡ (ok unlock, after_lock)
    pub true_under_lock : holds w.rule (contents after_lock) ≡ true

  -- From end to end: where a transaction reads etcd at one moment, a worker that runs an item which it
  -- started calls back only for a rule that was found for a submitted key, after the lock was granted of
  -- the key pattern set for the rule and the attributes of the rule, and the rule held in etcd at the
  -- moment that followed; what the call does is what the callback set for the rule does with those
  -- attributes and the item's metadata, to which the worker's name is added.
  pub single_run-IsCalled :
      (key_proc_buffer rule_work_buffer key_proc_concurrency concurrency : ℕ) (now : S)
      → ReadsAtOnce kv contents
      → (t : Pipeline Callback Provider S) (w : Work Callback Provider)
      → Reach kp kv key_proc_buffer rule_work_buffer
          (new_pipeline key_proc_concurrency concurrency now)
          t
      → In w t.started
      → (worker_id : Text) (s start : S) (outcome : Bool × S)
      → In
          (called start outcome)
          (single_run kv locker is_stopping perform has_listener worker_id w s).0
      → IsCalled t.submitted w worker_id start outcome
  unfolding single_run
  single_run-IsCalled kb rb kc c now reads t w r i worker_id s start outcome k =
      let (task, state, was_submitted, m, due) =
        Reach-IsDue kp kv kb rb contents kc c now reads t w r i in
      let (s', k') = work_unless_inv _ (is_stopping s) (called start outcome) k in
      let (before, after_lock, unlock, granted, holds_then, ran) =
        do_work-holds kv locker is_stopping (call_task perform worker_id w) has_listener w.rule
          contents w.lock_key s' start outcome reads k' in
      record {
        task = task;
        was_submitted = was_submitted;
        found = due.found;
        its_pattern = due.has_pattern;
        its_attributes = due.has_attributes;
        its_callback = λ callback set.
            ran ∙ call_task-some perform worker_id w callback start (due.calls ∙ set);
        no_callback = λ unset. ran ∙ call_task-none perform worker_id w start (due.calls ∙ unset);
        before = before;
        after_lock = after_lock;
        unlock = unlock;
        locked = rw due.locks at granted;
        true_under_lock = holds_then;
      }
