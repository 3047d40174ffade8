-- ===== src/Pipeline/Everywhere.antt =====
-- Where the items of the pipeline are: what all produced items have is had by all that are in it.
use go_etcd_rules.Base.{
  ℕ, zero, suc, false, [], ◌∷◌, All, All-append_left, All-append_right, All-middle, All-replace,
  All-one,
}
use go_etcd_rules.Etcd.{EtcdKv}
use go_etcd_rules.KeyProcessor.{KeyProcessor, Work}
use go_etcd_rules.Pipeline.{
  Slot, waiting, ended, received, doing, PoolWorker, Pipeline, Step, change, submit_task, hand_task,
  take_task, send_work, hand_work, receive_work, tell, drop_work, start_work, end_work, leave,
  Reach, here, next, replicate, new_pipeline,
}

module _ {A : Type 0} (P : A → Type 0) where
  pub All-replicate : (n : ℕ) (a : A) → P a → All P (replicate n a)
  All-replicate zero a p = tt
  All-replicate (suc n) a p = (p, All-replicate n a p)

  abbrev AllInSlot : Slot A → Type 0
  AllInSlot waiting = Unit
  AllInSlot ended = Unit
  AllInSlot (received w) = P w
  AllInSlot (doing w) = P w

  abbrev InHand : PoolWorker A → Type 0
  InHand worker = AllInSlot worker.slot

module _ {Callback Provider S : Type 0} (P : Work Callback Provider → Type 0) where
  -- Each item that is somewhere in the pipeline has a property.
  abbrev pub Everywhere : Pipeline Callback Provider S → Type 0
  Everywhere s =
      All (All P) s.key_workers
      × All P s.work_channel
      × All (InHand P) s.workers
      × All P s.dropped
      × All P s.started

  module _ (kp : KeyProcessor Callback Provider) (kv : EtcdKv S)
      (key_proc_buffer rule_work_buffer : ℕ) where
    Step-Everywhere :
        (s t : Pipeline Callback Provider S)
        → Step kp kv key_proc_buffer rule_work_buffer s t
        → All P t.produced
        → Everywhere s
        → Everywhere t
    Step-Everywhere s t (change now e) h v = rw e v
    Step-Everywhere s t (submit_task task room e) h v = rw e v
    Step-Everywhere s t (hand_task task before after works c k r e) h (a, b, d, f, g) =
        let new = All-append_right P s.produced works (rw e at h) in
        rw e (All-replace (All P) before after [] works new (rw k at a), b, d, f, g)
    Step-Everywhere s t (take_task task rest before after works c k r e) h (a, b, d, f, g) =
        let new = All-append_right P s.produced works (rw e at h) in
        rw e (All-replace (All P) before after [] works new (rw k at a), b, d, f, g)
    Step-Everywhere s t (send_work before after w works k room e) h (a, b, d, f, g) =
        let has = All-middle (All P) before after (w ∷ works) (rw k at a) in
        rw e (
          All-replace (All P) before after (w ∷ works) works has.1 (rw k at a),
          All-one P s.work_channel w b has.0,
          d,
          f,
          g,
        )
    Step-Everywhere s t (hand_work before after w works told first last c k p e) h (a, b, d, f, g) =
        let has = All-middle (All P) before after (w ∷ works) (rw k at a) in
        rw e (
          All-replace (All P) before after (w ∷ works) works has.1 (rw k at a),
          tt,
          All-replace (InHand P) first last _ _ has.0 (rw p at d),
          f,
          g,
        )
    Step-Everywhere s t (receive_work w rest told before after c p e) h (a, b, d, f, g) =
        let has : All P (w ∷ rest) = rw c at b in
        rw e (a, has.1, All-replace (InHand P) before after _ _ has.0 (rw p at d), f, g)
    Step-Everywhere s t (tell before after told slot p e) h (a, b, d, f, g) =
        let has = All-middle (InHand P) before after _ (rw p at d) in
        rw e (a, b, All-replace (InHand P) before after _ _ has (rw p at d), f, g)
    Step-Everywhere s t (drop_work w before after p e) h (a, b, d, f, g) =
        let has = All-middle (InHand P) before after _ (rw p at d) in
        rw e (
          a,
          b,
          All-replace (InHand P) before after _ _ tt (rw p at d),
          All-one P s.dropped w f has,
          g,
        )
    Step-Everywhere s t (start_work w before after p e) h (a, b, d, f, g) =
        let has = All-middle (InHand P) before after _ (rw p at d) in
        rw e (
          a,
          b,
          All-replace (InHand P) before after _ _ has (rw p at d),
          f,
          All-one P s.started w g has,
        )
    Step-Everywhere s t (end_work w told before after p e) h (a, b, d, f, g) =
        rw e (a, b, All-replace (InHand P) before after _ _ tt (rw p at d), f, g)
    Step-Everywhere s t (leave before after p e) h (a, b, d, f, g) =
        rw e (a, b, All-replace (InHand P) before after _ _ tt (rw p at d), f, g)

    Step-produced :
        (s t : Pipeline Callback Provider S)
        → Step kp kv key_proc_buffer rule_work_buffer s t
        → All P t.produced
        → All P s.produced
    Step-produced s t (change now e) h = rw e at h
    Step-produced s t (submit_task task room e) h = rw e at h
    Step-produced s t (hand_task task before after works c k r e) h =
        All-append_left P s.produced works (rw e at h)
    Step-produced s t (take_task task rest before after works c k r e) h =
        All-append_left P s.produced works (rw e at h)
    Step-produced s t (send_work before after w works k room e) h = rw e at h
    Step-produced s t (hand_work before after w works told first last c k p e) h = rw e at h
    Step-produced s t (receive_work w rest told before after c p e) h = rw e at h
    Step-produced s t (tell before after told slot p e) h = rw e at h
    Step-produced s t (drop_work w before after p e) h = rw e at h
    Step-produced s t (start_work w before after p e) h = rw e at h
    Step-produced s t (end_work w told before after p e) h = rw e at h
    Step-produced s t (leave before after p e) h = rw e at h

    pub Reach-Everywhere :
        (key_proc_concurrency concurrency : ℕ) (now : S) (t : Pipeline Callback Provider S)
        → Reach kp kv key_proc_buffer rule_work_buffer
            (new_pipeline key_proc_concurrency concurrency now)
            t
        → All P t.produced
        → Everywhere t
    unfolding new_pipeline
    Reach-Everywhere kc c now _ here h = (
      All-replicate (All P) kc [] tt,
      tt,
      All-replicate (InHand P) c (record { told = false; slot = waiting }) tt,
      tt,
      tt,
    )
    Reach-Everywhere kc c now u (next {t} r step) h =
        Step-Everywhere t u step h (Reach-Everywhere kc c now t r (Step-produced t u step h))
