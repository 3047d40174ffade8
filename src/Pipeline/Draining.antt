-- ===== src/Pipeline/Draining.antt =====
-- How one worker works off all that is in the pipeline.
use go_etcd_rules.Base.{
  ℕ, ◌≡◌, ◌≢◌, refl, sym, ◌∙◌, false, List, [], ◌∷◌, ◌++◌, map, append_assoc, All, some,
}
use go_etcd_rules.Etcd.{EtcdKv}
use go_etcd_rules.KeyProcessor.{KeyProcessor, Work}
use go_etcd_rules.Pipeline.{
  KeyTask, Slot, waiting, ended, received, doing, PoolWorker, Pipeline, evaluate, take, send,
  receive, move, take_task, hand_work, receive_work, start_work, end_work, Reach, next,
}

module _ {A : Type 0} where
  abbrev pub idle : List (List A) → List (List A)
  idle = map (λ (works : List A). [])

  pub All-idle : (others : List (List A)) → All (λ (l : List A). l ≡ []) (idle others)
  All-idle [] = tt
  All-idle (works ∷ others) = (refl, All-idle others)

module _ {Callback Provider S : Type 0} (kp : KeyProcessor Callback Provider) (kv : EtcdKv S)
    (key_proc_buffer rule_work_buffer : ℕ) (s : Pipeline Callback Provider S)
    (first last : List (PoolWorker (Work Callback Provider))) where
  abbrev pub Reached : Pipeline Callback Provider S → Type 0
  Reached = Reach kp kv key_proc_buffer rule_work_buffer s

  -- The worker between `first` and `last`, which was not told to stop.
  abbrev pub Has : Slot (Work Callback Provider) → Pipeline Callback Provider S → Type 0
  Has slot t = t.workers ≡ first ++ record { told = false; slot = slot } ∷ last

  -- A state that is reached with the worker waiting and the channel of work empty, no more submitted and
  -- no more dropped than in `t`.
  pub record Drained (tasks : List KeyTask) (key_workers : List (List (Work Callback Provider)))
      (t : Pipeline Callback Provider S) : Type 0 where
    pub end : Pipeline Callback Provider S
    pub reached : Reached end
    pub ready : Has waiting end
    pub no_work : end.work_channel ≡ []
    pub has_tasks : end.kp_channel ≡ tasks
    pub has_key_workers : end.key_workers ≡ key_workers
    pub same_submitted : end.submitted ≡ t.submitted
    pub same_dropped : end.dropped ≡ t.dropped

  -- The worker after an item was started and done.
  abbrev finish :
      Work Callback Provider → Pipeline Callback Provider S → Pipeline Callback Provider S
  finish w t = record (move first last (record { told = false; slot = waiting }) t) {
    started = t.started ++ w ∷ [];
  }

  Reach-finish :
      (w : Work Callback Provider) (t : Pipeline Callback Provider S)
      → Reached t
      → Has (received w) t
      → Reached (finish w t)
  Reach-finish w t r e =
      next (next r (start_work w first last e refl)) (end_work w false first last refl refl)

  stay :
      (t : Pipeline Callback Provider S)
      → Reached t
      → Has waiting t
      → t.work_channel ≡ []
      → Drained t.kp_channel t.key_workers t
  stay t r e c = record {
    end = t;
    reached = r;
    ready = e;
    no_work = c;
    has_tasks = refl;
    has_key_workers = refl;
    same_submitted = refl;
    same_dropped = refl;
  }

  -- What is drained from a later state is drained from an earlier one.
  since :
      {tasks tasks' : List KeyTask}
      {key_workers key_workers' : List (List (Work Callback Provider))}
      {t' : Pipeline Callback Provider S} (t : Pipeline Callback Provider S)
      → tasks' ≡ tasks
      → key_workers' ≡ key_workers
      → t'.submitted ≡ t.submitted
      → t'.dropped ≡ t.dropped
      → Drained tasks' key_workers' t'
      → Drained tasks key_workers t
  since t a b f g d = record {
    end = d.end;
    reached = d.reached;
    ready = d.ready;
    no_work = d.no_work;
    has_tasks = d.has_tasks ∙ a;
    has_key_workers = d.has_key_workers ∙ b;
    same_submitted = d.same_submitted ∙ f;
    same_dropped = d.same_dropped ∙ g;
  }

  drain_channel :
      (channel : List (Work Callback Provider)) (t : Pipeline Callback Provider S)
      → Reached t
      → Has waiting t
      → t.work_channel ≡ channel
      → Drained t.kp_channel t.key_workers t
  drain_channel [] t r e c = stay t r e c
  drain_channel (w ∷ rest) t r e c =
      let got = receive w rest first last false t in
      since t refl refl refl refl (
        drain_channel rest (finish w got)
          (Reach-finish w got (next r (receive_work w rest false first last c e refl)) refl) refl
          refl)

  drain_key_worker :
      (before after : List (List (Work Callback Provider))) (works : List (Work Callback Provider))
      (t : Pipeline Callback Provider S)
      → Reached t
      → Has waiting t
      → t.work_channel ≡ []
      → t.key_workers ≡ before ++ works ∷ after
      → Drained t.kp_channel (before ++ [] ∷ after) t
  drain_key_worker before after [] t r e c k = since t refl k refl refl (stay t r e c)
  drain_key_worker before after (w ∷ works) t r e c k =
      let got = receive w [] first last false (send before after w works t) in
      since t refl refl refl refl (
        drain_key_worker before after works (finish w got)
          (Reach-finish w got (next r (hand_work before after w works false first last c k e refl))
            refl)
          refl refl refl)

  drain_key_workers :
      (before others : List (List (Work Callback Provider))) (t : Pipeline Callback Provider S)
      → Reached t
      → Has waiting t
      → t.work_channel ≡ []
      → t.key_workers ≡ before ++ others
      → Drained t.kp_channel (before ++ idle others) t
  drain_key_workers before [] t r e c k = since t refl k refl refl (stay t r e c)
  drain_key_workers before (works ∷ others) t r e c k =
      let d = drain_key_worker before others works t r e c k in
      since t d.has_tasks (append_assoc before ([] ∷ []) (idle others)) d.same_submitted
        d.same_dropped
        (drain_key_workers (before ++ [] ∷ []) others d.end d.reached d.ready d.no_work
          (d.has_key_workers ∙ sym (append_assoc before ([] ∷ []) others)))

  module _
      (evaluates : (state : S) (task : KeyTask)
        → (works : List (Work Callback Provider)) × (evaluate kp kv state task ≡ some works)) where
    drain_tasks :
        (others : List (List (Work Callback Provider))) (tasks : List KeyTask)
        (t : Pipeline Callback Provider S)
        → Reached t
        → Has waiting t
        → t.work_channel ≡ []
        → t.key_workers ≡ [] ∷ others
        → t.kp_channel ≡ tasks
        → Drained [] ([] ∷ others) t
    drain_tasks others [] t r e c k q = since t q k refl refl (stay t r e c)
    drain_tasks others (task ∷ rest) t r e c k q =
        let (works, v) = evaluates t.now task in
        let d =
          drain_key_worker [] others works (take task rest [] others works t)
            (next r (take_task task rest [] others works q k v refl)) e c refl in
        since t refl refl d.same_submitted d.same_dropped
          (drain_tasks others rest d.end d.reached d.ready d.no_work d.has_key_workers d.has_tasks)

    drain_ready :
        (works : List (Work Callback Provider)) (others : List (List (Work Callback Provider)))
        (t : Pipeline Callback Provider S)
        → Reached t
        → Has waiting t
        → t.key_workers ≡ works ∷ others
        → Drained [] ([] ∷ idle others) t
    drain_ready works others t r e k =
        let d = drain_channel t.work_channel t r e refl in
        let d' =
          drain_key_workers [] (works ∷ others) d.end d.reached d.ready d.no_work
            (d.has_key_workers ∙ k) in
        since t refl refl (d'.same_submitted ∙ d.same_submitted) (d'.same_dropped ∙ d.same_dropped)
          (drain_tasks (idle others) d'.end.kp_channel d'.end d'.reached d'.ready d'.no_work
            d'.has_key_workers refl)

    pub drain_all :
        (works : List (Work Callback Provider)) (others : List (List (Work Callback Provider)))
        (slot : Slot (Work Callback Provider)) (t : Pipeline Callback Provider S)
        → Reached t
        → Has slot t
        → slot ≢ ended
        → t.key_workers ≡ works ∷ others
        → Drained [] ([] ∷ idle others) t
    drain_all works others waiting t r e up k = drain_ready works others t r e k
    drain_all works others ended t r e up k = absurd (up refl)
    drain_all works others (received w) t r e up k =
        since t refl refl refl refl
          (drain_ready works others (finish w t) (Reach-finish w t r e) refl k)
    drain_all works others (doing w) t r e up k =
        since t refl refl refl refl
          (drain_ready works others _ (next r (end_work w false first last e refl)) refl k)
