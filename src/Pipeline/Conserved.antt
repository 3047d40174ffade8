-- ===== src/Pipeline/Conserved.antt =====
-- Every item that an evaluation gives is in one place of the pipeline.
use go_etcd_rules.Base.{ℕ, ◌+◌, ◌≡◌, refl, true, false, [], ◌∷◌, arith}
use go_etcd_rules.Etcd.{EtcdKv}
use go_etcd_rules.KeyProcessor.{KeyProcessor, Work}
use go_etcd_rules.Pipeline.{
  Pipeline, waiting, ended, received, doing, Step, change, submit_task, hand_task, take_task,
  send_work, hand_work, receive_work, tell, drop_work, start_work, end_work, leave, Reach, here,
  next, new_pipeline,
}
use go_etcd_rules.Pipeline.Counting.{sum_by, sum_by-append, sum_by-replicate, in_hand}

module _ {Callback Provider S : Type 0} (f : Work Callback Provider → ℕ) where
  abbrev pub to_send : Pipeline Callback Provider S → ℕ
  to_send s = sum_by (sum_by f) s.key_workers

  abbrev pub in_hands : Pipeline Callback Provider S → ℕ
  in_hands s = sum_by (in_hand f) s.workers

  -- The weights of the items that were produced and of those that each place holds now.
  abbrev pub IsConserved : Pipeline Callback Provider S → Type 0
  IsConserved s =
      sum_by f s.produced
      ≡ to_send s + sum_by f s.work_channel + in_hands s + sum_by f s.dropped + sum_by f s.started

  module _ (kp : KeyProcessor Callback Provider) (kv : EtcdKv S)
      (key_proc_buffer rule_work_buffer : ℕ) where
    Step-IsConserved :
        (s t : Pipeline Callback Provider S)
        → Step kp kv key_proc_buffer rule_work_buffer s t
        → IsConserved s
        → IsConserved t
    Step-IsConserved s t (change now e) h = rw e h
    Step-IsConserved s t (submit_task task room e) h = rw e h
    Step-IsConserved s t (hand_task task before after works c k v e) h = rw e (
        omega (
          arith,
          rw k at h,
          sum_by-append f s.produced works,
          sum_by-append (sum_by f) before ([] ∷ after),
          sum_by-append (sum_by f) before (works ∷ after),
        ))
    Step-IsConserved s t (take_task task rest before after works c k v e) h = rw e (
        omega (
          arith,
          rw k at h,
          sum_by-append f s.produced works,
          sum_by-append (sum_by f) before ([] ∷ after),
          sum_by-append (sum_by f) before (works ∷ after),
        ))
    Step-IsConserved s t (send_work before after w works k room e) h = rw e (
        omega (
          arith,
          rw k at h,
          sum_by-append f s.work_channel (w ∷ []),
          sum_by-append (sum_by f) before ((w ∷ works) ∷ after),
          sum_by-append (sum_by f) before (works ∷ after),
        ))
    Step-IsConserved s t (hand_work before after w works told first last c k p e) h = rw e (
        omega (
          arith,
          rw (c, k, p) at h,
          sum_by-append (sum_by f) before ((w ∷ works) ∷ after),
          sum_by-append (sum_by f) before (works ∷ after),
          sum_by-append (in_hand f) first (record { told = told; slot = waiting } ∷ last),
          sum_by-append (in_hand f) first (record { told = told; slot = received w } ∷ last),
        ))
    Step-IsConserved s t (receive_work w rest told before after c p e) h = rw e (
        omega (
          arith,
          rw (c, p) at h,
          sum_by-append (in_hand f) before (record { told = told; slot = waiting } ∷ after),
          sum_by-append (in_hand f) before (record { told = told; slot = received w } ∷ after),
        ))
    Step-IsConserved s t (tell before after told slot p e) h = rw e (
        omega (
          arith,
          rw p at h,
          sum_by-append (in_hand f) before (record { told = told; slot = slot } ∷ after),
          sum_by-append (in_hand f) before (record { told = true; slot = slot } ∷ after),
        ))
    Step-IsConserved s t (drop_work w before after p e) h = rw e (
        omega (
          arith,
          rw p at h,
          sum_by-append f s.dropped (w ∷ []),
          sum_by-append (in_hand f) before (record { told = true; slot = received w } ∷ after),
          sum_by-append (in_hand f) before (record { told = true; slot = waiting } ∷ after),
        ))
    Step-IsConserved s t (start_work w before after p e) h = rw e (
        omega (
          arith,
          rw p at h,
          sum_by-append f s.started (w ∷ []),
          sum_by-append (in_hand f) before (record { told = false; slot = received w } ∷ after),
          sum_by-append (in_hand f) before (record { told = false; slot = doing w } ∷ after),
        ))
    Step-IsConserved s t (end_work w told before after p e) h = rw e (
        omega (
          arith,
          rw p at h,
          sum_by-append (in_hand f) before (record { told = told; slot = doing w } ∷ after),
          sum_by-append (in_hand f) before (record { told = told; slot = waiting } ∷ after),
        ))
    Step-IsConserved s t (leave before after p e) h = rw e (
        omega (
          arith,
          rw p at h,
          sum_by-append (in_hand f) before (record { told = true; slot = waiting } ∷ after),
          sum_by-append (in_hand f) before (record { told = true; slot = ended } ∷ after),
        ))

  -- Nothing is lost and nothing is sent twice, for any weight of items: along every run from the start,
  -- the weights of the items that evaluations gave are those of the items that a key worker has yet to
  -- send, that the channel holds, that a worker has received, that were dropped, and that were started.
  pub Reach-IsConserved :
      (kp : KeyProcessor Callback Provider) (kv : EtcdKv S)
      (key_proc_buffer rule_work_buffer key_proc_concurrency concurrency : ℕ) (now : S)
      (t : Pipeline Callback Provider S)
      → Reach kp kv key_proc_buffer rule_work_buffer
          (new_pipeline key_proc_concurrency concurrency now)
          t
      → sum_by f t.produced
        ≡ to_send t + sum_by f t.work_channel + in_hands t + sum_by f t.dropped + sum_by f t.started
  unfolding new_pipeline
  Reach-IsConserved kp kv kb rb kc c now _ here = omega (
    arith,
    sum_by-replicate (sum_by f) kc [] refl,
    sum_by-replicate (in_hand f) c (record { told = false; slot = waiting }) refl,
  )
  Reach-IsConserved kp kv kb rb kc c now u (next {t} r step) =
      Step-IsConserved kp kv kb rb t u step (Reach-IsConserved kp kv kb rb kc c now t r)
