-- ===== src/Worker/Single.antt =====
-- rules/worker.go: `singleRun` of the worker, from the item of work that it received.
use go_etcd_rules.Base.{
  Bool, true, false, List, [], none, some, Text, codes, Map, insert, ◌≡◌, lookup, text_eq,
  lookup-insert_miss,
}
use go_etcd_rules.Matcher.{Attributes}
use go_etcd_rules.Lock.{RuleLocker}
use go_etcd_rules.Etcd.{EtcdKv}
use go_etcd_rules.KeyProcessor.{Work}
use go_etcd_rules.Worker.{Event, new_v3_worker, do_work}

-- The copy of the task's metadata with the name of the worker, from `addWorkerID`.
unfoldable pub with_worker_id : Text → Map Text → Map Text
with_worker_id worker_id metadata = insert (codes "rule_worker") worker_id metadata

module _ {S : Type 0} where
  abbrev pub work_unless : (S → List (Event S) × S) → Bool × S → List (Event S) × S
  work_unless run (true, s) = ([], s)
  work_unless run (false, s) = run s

module _ {Callback Provider S : Type 0} where
  -- The call of `ruleTaskCallback`, which says whether it returned. A nil function panics.
  abbrev pub call_task :
      (Callback → Attributes → Map Text → S → Bool × S)
      → Text
      → Work Callback Provider
      → S
      → Bool × S
  call_task perform worker_id work s = elim work.rule_task_callback [
    | none ↦ (false, s)
    | some callback ↦ perform callback work.attr (with_worker_id worker_id work.metadata) s
  ]

  -- What happens to an item after it was received: nothing where the worker is stopping, and otherwise
  -- `doWork`, whose panics are recovered. The context of the callback is left out.
  unfoldable pub single_run :
      EtcdKv S
      → RuleLocker S
      → (S → Bool × S)
      → (Callback → Attributes → Map Text → S → Bool × S)
      → Bool
      → Text
      → Work Callback Provider
      → S
      → List (Event S) × S
  unfolding new_v3_worker do_work with_worker_id
  single_run kv locker is_stopping perform has_listener worker_id work s =
      work_unless
        (do_work
          (new_v3_worker kv locker is_stopping (call_task perform worker_id work) has_listener)
          work.rule work.lock_key)
        (is_stopping s)

-- The task's metadata is what it was but for the worker's name.
with_worker_id_lem :
    (worker_id key : Text) (metadata : Map Text)
    → text_eq (codes "rule_worker") key ≡ false
    → lookup key (with_worker_id worker_id metadata) ≡ lookup key metadata
unfolding with_worker_id
with_worker_id_lem worker_id key metadata other =
    lookup-insert_miss (codes "rule_worker") key worker_id metadata other
