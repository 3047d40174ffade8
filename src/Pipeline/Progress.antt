-- ===== src/Pipeline/Progress.antt =====
-- The pipeline does not deadlock: while one worker runs, all that was submitted can be worked off.
use go_etcd_rules.Base.{
  ℕ, ◌≡◌, refl, sym, ap, ◌∙◌, true, false, List, [], ◌∷◌, ◌++◌, append-nil, All, All-middle,
  All-replace, Text, count,
}
use go_etcd_rules.Matcher.{slash}
use go_etcd_rules.RuleManager.{rules_at}
use go_etcd_rules.Etcd.{EtcdKv}
use go_etcd_rules.KeyProcessor.{KeyProcessor, Work}
use go_etcd_rules.KeyProcessor.Returns.{AllHaveLeaves, process_key-returns}
use go_etcd_rules.KeyProcessor.Snapshot.{reads_at}
use go_etcd_rules.Pipeline.{
  Slot, waiting, ended, PoolWorker, Pipeline, Step, change, submit_task, hand_task, take_task,
  send_work, hand_work, receive_work, tell, drop_work, start_work, end_work, leave, Reach, here,
  next, new_pipeline, Reach-trans,
}
use go_etcd_rules.Pipeline.Order.{Reach-IsOrdered}
use go_etcd_rules.Pipeline.Everywhere.{All-replicate}
use go_etcd_rules.Pipeline.Draining.{All-idle, drain_all}

-- A worker leaves its loop only after it was told to stop.
abbrev LeftTold : {W : Type 0} → PoolWorker W → Type 0
LeftTold worker = worker.slot ≡ ended → worker.told ≡ true

module _ {Callback Provider S : Type 0} (kp : KeyProcessor Callback Provider) (kv : EtcdKv S)
    (key_proc_buffer rule_work_buffer : ℕ) where
  Step-LeftTold :
      (s t : Pipeline Callback Provider S)
      → Step kp kv key_proc_buffer rule_work_buffer s t
      → All LeftTold s.workers
      → All LeftTold t.workers
  Step-LeftTold s t (change now e) h = rw e h
  Step-LeftTold s t (submit_task task room e) h = rw e h
  Step-LeftTold s t (hand_task task before after works c k r e) h = rw e h
  Step-LeftTold s t (take_task task rest before after works c k r e) h = rw e h
  Step-LeftTold s t (send_work before after w works k room e) h = rw e h
  Step-LeftTold s t (hand_work before after w works told first last c k p e) h =
      rw e (All-replace LeftTold first last _ _ (λ x. cc x) (rw p at h))
  Step-LeftTold s t (receive_work w rest told before after c p e) h =
      rw e (All-replace LeftTold before after _ _ (λ x. cc x) (rw p at h))
  Step-LeftTold s t (tell before after told slot p e) h =
      rw e (All-replace LeftTold before after _ _ (λ x. refl) (rw p at h))
  Step-LeftTold s t (drop_work w before after p e) h =
      rw e (All-replace LeftTold before after _ _ (λ x. refl) (rw p at h))
  Step-LeftTold s t (start_work w before after p e) h =
      rw e (All-replace LeftTold before after _ _ (λ x. cc x) (rw p at h))
  Step-LeftTold s t (end_work w told before after p e) h =
      rw e (All-replace LeftTold before after _ _ (λ x. cc x) (rw p at h))
  Step-LeftTold s t (leave before after p e) h =
      rw e (All-replace LeftTold before after _ _ (λ x. refl) (rw p at h))

  module _ (key_proc_concurrency concurrency : ℕ) (now : S) where
    Reach-LeftTold :
        (t : Pipeline Callback Provider S)
        → Reach kp kv key_proc_buffer rule_work_buffer
            (new_pipeline key_proc_concurrency concurrency now)
            t
        → All LeftTold t.workers
    unfolding new_pipeline
    Reach-LeftTold _ here =
        All-replicate LeftTold concurrency (record { told = false; slot = waiting }) (λ x. cc x)
    Reach-LeftTold u (next {t} r step) = Step-LeftTold t u step (Reach-LeftTold t r)

    -- Where no compound rule is without nested rules, every run from the start with a key worker and a
    -- worker that was not told to stop can go on, without anything more being submitted or dropped, until
    -- every task that was submitted has been taken, no key worker has anything to send and the channel of
    -- work is empty.
    pub Reach-drains :
        ((key : Text) → AllHaveLeaves (rules_at (count slash key) kp.rm.rules_by_slash_count))
        → (t : Pipeline Callback Provider S)
        → Reach kp kv key_proc_buffer rule_work_buffer
            (new_pipeline key_proc_concurrency concurrency now)
            t
        → (works : List (Work Callback Provider)) (others : List (List (Work Callback Provider)))
        → t.key_workers ≡ works ∷ others
        → (first last : List (PoolWorker (Work Callback Provider)))
          (slot : Slot (Work Callback Provider))
        → t.workers ≡ first ++ record { told = false; slot = slot } ∷ last
        → (u : Pipeline Callback Provider S) × Reach kp kv key_proc_buffer rule_work_buffer t u
          × (u.taken ≡ t.submitted)
          × (u.submitted ≡ t.submitted)
          × (u.dropped ≡ t.dropped)
          × All (λ (l : List (Work Callback Provider)). l ≡ []) u.key_workers
          × (u.work_channel ≡ [])
    Reach-drains leaves t r works others k first last slot p =
        let told = All-middle LeftTold first last _ (rw p at (Reach-LeftTold t r)) in
        let d =
          drain_all kp kv key_proc_buffer rule_work_buffer t first last
            (λ state task.
              process_key-returns kp task.metadata (reads_at kv state) task.key task.value
                (leaves task.key))
            works others slot t here p (λ x. cc (told x)) k in
        let (tasks, items, few, few') =
          Reach-IsOrdered kp kv key_proc_buffer rule_work_buffer key_proc_concurrency concurrency
            now d.end (Reach-trans r d.reached) in
        (
          d.end,
          d.reached,
          sym (tasks ∙ ap (λ l. d.end.taken ++ l) d.has_tasks ∙ append-nil d.end.taken)
              ∙ d.same_submitted,
          d.same_submitted,
          d.same_dropped,
          rw d.has_key_workers (refl, All-idle others),
          d.no_work,
        )
