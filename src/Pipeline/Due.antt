-- ===== src/Pipeline/Due.antt =====
-- What a worker starts: an item of a key that was submitted, due by etcd's contents at some moment.
use go_etcd_rules.Base.{
  ℕ, ◌≡◌, refl, inl, inr, List, [], ◌∷◌, ◌++◌, In, In-append_left, In-append_right, All, All-append,
  All-of, All-In, All-map, some,
}
use go_etcd_rules.StaticRule.Evaluation.{Store}
use go_etcd_rules.RuleManager.{get_static_rules}
use go_etcd_rules.Etcd.{EtcdKv}
use go_etcd_rules.Etcd.Reads.{ReadsAtOnce}
use go_etcd_rules.KeyProcessor.{KeyProcessor, Work}
use go_etcd_rules.KeyProcessor.Dispatch.{IsDue}
use go_etcd_rules.KeyProcessor.Snapshot.{process_key-IsDue_at}
use go_etcd_rules.Pipeline.{
  KeyTask, Pipeline, evaluate, Step, change, submit_task, hand_task, take_task, send_work,
  hand_work, receive_work, tell, drop_work, start_work, end_work, leave, Reach, here, next,
  new_pipeline,
}
use go_etcd_rules.Pipeline.Order.{Reach-IsOrdered}
use go_etcd_rules.Pipeline.Everywhere.{Reach-Everywhere}

module _ {Callback Provider S : Type 0} (kp : KeyProcessor Callback Provider) (kv : EtcdKv S)
    (key_proc_buffer rule_work_buffer : ℕ) (contents : S → Store) where
  -- The item is for a rule of a task among these, which held in one of these states of etcd.
  abbrev pub IsDueFor : List KeyTask → List S → Work Callback Provider → Type 0
  IsDueFor tasks states w =
      (task : KeyTask) × (state : S) × In task tasks
      × In state states
      × IsDue kp (contents state) (get_static_rules task.key task.value kp.rm) w

  IsDueFor-grows :
      (tasks tasks' : List KeyTask) (states states' : List S)
      → ((a : KeyTask) → In a tasks → In a tasks')
      → ((a : S) → In a states → In a states')
      → (works : List (Work Callback Provider)) → All (IsDueFor tasks states) works
      → All (IsDueFor tasks' states') works
  IsDueFor-grows tasks tasks' states states' f g works =
      All-map (IsDueFor tasks states) (IsDueFor tasks' states') works
        (λ w (task, state, i, j, due). (task, state, f task i, g state j, due))

  abbrev ProducedDue : Pipeline Callback Provider S → Type 0
  ProducedDue s = All (IsDueFor s.taken (s.now ∷ s.moments)) s.produced

  taken-ProducedDue :
      (s : Pipeline Callback Provider S) (task : KeyTask) (works : List (Work Callback Provider))
      → ReadsAtOnce kv contents
      → evaluate kp kv s.now task ≡ some works
      → ProducedDue s
      → All (IsDueFor (s.taken ++ task ∷ []) (s.now ∷ s.moments)) (s.produced ++ works)
  taken-ProducedDue s task works reads r d =
      All-append _ s.produced works
        (IsDueFor-grows s.taken (s.taken ++ task ∷ []) (s.now ∷ s.moments) (s.now ∷ s.moments)
          (λ a. In-append_left a s.taken (task ∷ [])) (λ a i. i) s.produced d)
        (All-of _ works (λ w i. (
          task,
          s.now,
          In-append_right task s.taken (task ∷ []) (inl refl),
          inl refl,
          process_key-IsDue_at kp kv contents task.metadata task.key task.value s.now works w reads
              r i,
        )))

  Step-ProducedDue :
      (s t : Pipeline Callback Provider S)
      → ReadsAtOnce kv contents
      → Step kp kv key_proc_buffer rule_work_buffer s t
      → ProducedDue s
      → ProducedDue t
  Step-ProducedDue s t reads (change now e) d = rw e (
      IsDueFor-grows s.taken s.taken (s.now ∷ s.moments) (now ∷ s.now ∷ s.moments) (λ a i. i)
        (λ a i. inr i) s.produced d)
  Step-ProducedDue s t reads (hand_task task before after works c k r e) d =
      rw e (taken-ProducedDue s task works reads r d)
  Step-ProducedDue s t reads (take_task task rest before after works c k r e) d =
      rw e (taken-ProducedDue s task works reads r d)
  Step-ProducedDue s t reads (submit_task task room e) d = rw e d
  Step-ProducedDue s t reads (send_work before after w works k room e) d = rw e d
  Step-ProducedDue s t reads (hand_work before after w works told first last c k p e) d = rw e d
  Step-ProducedDue s t reads (receive_work w rest told before after c p e) d = rw e d
  Step-ProducedDue s t reads (tell before after told slot p e) d = rw e d
  Step-ProducedDue s t reads (drop_work w before after p e) d = rw e d
  Step-ProducedDue s t reads (start_work w before after p e) d = rw e d
  Step-ProducedDue s t reads (end_work w told before after p e) d = rw e d
  Step-ProducedDue s t reads (leave before after p e) d = rw e d

  module _ (key_proc_concurrency concurrency : ℕ) (now : S) (reads : ReadsAtOnce kv contents) where
    Reach-ProducedDue :
        (t : Pipeline Callback Provider S)
        → Reach kp kv key_proc_buffer rule_work_buffer
            (new_pipeline key_proc_concurrency concurrency now)
            t
        → ProducedDue t
    unfolding new_pipeline
    Reach-ProducedDue _ here = tt
    Reach-ProducedDue u (next {t} r step) = Step-ProducedDue t u reads step (Reach-ProducedDue t r)

    -- An item that a worker starts is for a key that was submitted, and its rule held in one of the states
    -- that etcd was in: the rule is one found for the key, with the lock key that its attributes give and
    -- the callback that was set for it.
    pub Reach-IsDue :
        (t : Pipeline Callback Provider S) (w : Work Callback Provider)
        → Reach kp kv key_proc_buffer rule_work_buffer
            (new_pipeline key_proc_concurrency concurrency now)
            t
        → In w t.started
        → (task : KeyTask) × (state : S) × In task t.submitted
          × In state (t.now ∷ t.moments)
          × IsDue kp (contents state) (get_static_rules task.key task.value kp.rm) w
    Reach-IsDue t w r i =
        let due = IsDueFor t.taken (t.now ∷ t.moments) in
        let (a, b, d, f, was_started) =
          Reach-Everywhere due kp kv key_proc_buffer rule_work_buffer key_proc_concurrency
            concurrency now t r (Reach-ProducedDue t r) in
        let (task, state, j, m, is) = All-In due t.started w was_started i in
        let (tasks, items, few, few') =
          Reach-IsOrdered kp kv key_proc_buffer rule_work_buffer key_proc_concurrency concurrency
            now t r in
        let was_submitted : In task t.submitted =
          rw tasks (In-append_left task t.taken t.kp_channel j) in
        (task, state, was_submitted, m, is)
