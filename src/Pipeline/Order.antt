-- ===== src/Pipeline/Order.antt =====
-- The two channels of the pipeline: first in, first out, and never more than they have room for.
use go_etcd_rules.Base.{
  ℕ, ◌≤◌, ◌≡◌, refl, sym, ap, ◌∙◌, List, [], ◌∷◌, ◌++◌, append_assoc, length, length-append, arith,
}
use go_etcd_rules.Etcd.{EtcdKv}
use go_etcd_rules.KeyProcessor.{KeyProcessor}
use go_etcd_rules.Pipeline.{
  Pipeline, Step, change, submit_task, hand_task, take_task, send_work, hand_work, receive_work,
  tell, drop_work, start_work, end_work, leave, Reach, here, next, new_pipeline,
}

-- A channel with its history: what entered it, what left it, and what is in it.
abbrev pub Queued : {A : Type 0} → List A → List A → List A → Type 0
Queued entered left channel = entered ≡ left ++ channel

module _ {A : Type 0} where
  Queued-send :
      (entered left channel : List A) (x : A)
      → Queued entered left channel
      → Queued (entered ++ x ∷ []) left (channel ++ x ∷ [])
  Queued-send entered left channel x q =
      ap (λ l. l ++ x ∷ []) q ∙ append_assoc left channel (x ∷ [])

  Queued-receive :
      (entered left rest : List A) (x : A)
      → Queued entered left (x ∷ rest)
      → Queued entered (left ++ x ∷ []) rest
  Queued-receive entered left rest x q = q ∙ sym (append_assoc left (x ∷ []) rest)

  Queued-hand :
      (entered left : List A) (x : A)
      → Queued entered left []
      → Queued (entered ++ x ∷ []) (left ++ x ∷ []) []
  Queued-hand entered left x q = Queued-receive _ left [] x (Queued-send entered left [] x q)

module _ {Callback Provider S : Type 0} (kp : KeyProcessor Callback Provider) (kv : EtcdKv S)
    (key_proc_buffer rule_work_buffer : ℕ) where
  abbrev pub IsOrdered : Pipeline Callback Provider S → Type 0
  IsOrdered s =
      Queued s.submitted s.taken s.kp_channel
      × Queued s.entered s.left s.work_channel
      × (length s.kp_channel ≤ key_proc_buffer)
      × (length s.work_channel ≤ rule_work_buffer)

  Step-IsOrdered :
      (s t : Pipeline Callback Provider S)
      → Step kp kv key_proc_buffer rule_work_buffer s t
      → IsOrdered s
      → IsOrdered t
  Step-IsOrdered s t (change now e) o = rw e o
  Step-IsOrdered s t (submit_task task room e) (tasks, items, few, few') = rw e (
    Queued-send s.submitted s.taken s.kp_channel task tasks,
    items,
    omega (arith, room, length-append s.kp_channel (task ∷ [])),
    few',
  )
  Step-IsOrdered s t (hand_task task before after works c k v e) (tasks, items, few, few') =
      rw e (Queued-hand s.submitted s.taken task (rw c at tasks), items, omega arith, few')
  Step-IsOrdered s t (take_task task rest before after works c k v e) (tasks, items, few, few') =
      rw e (
        Queued-receive s.submitted s.taken rest task (rw c at tasks),
        items,
        omega (arith, rw c at few),
        few',
      )
  Step-IsOrdered s t (send_work before after w works k room e) (tasks, items, few, few') = rw e (
    tasks,
    Queued-send s.entered s.left s.work_channel w items,
    few,
    omega (arith, room, length-append s.work_channel (w ∷ [])),
  )
  Step-IsOrdered s t (hand_work before after w works told first last c k p e)
        (ts, items, few, few') =
      rw e (ts, Queued-hand s.entered s.left w (rw c at items), few, omega arith)
  Step-IsOrdered s t (receive_work w rest told before after c p e) (tasks, items, few, few') =
      rw e (
        tasks,
        Queued-receive s.entered s.left rest w (rw c at items),
        few,
        omega (arith, rw c at few'),
      )
  Step-IsOrdered s t (tell before after told slot p e) o = rw e o
  Step-IsOrdered s t (drop_work w before after p e) o = rw e o
  Step-IsOrdered s t (start_work w before after p e) o = rw e o
  Step-IsOrdered s t (end_work w told before after p e) o = rw e o
  Step-IsOrdered s t (leave before after p e) o = rw e o

  -- Along every run from the start, the tasks that were taken and then those in their channel are those
  -- that were submitted, in their order, and the items that were received and then those in their
  -- channel are those that were sent, in their order; neither channel holds more than its buffer.
  pub Reach-IsOrdered :
      (key_proc_concurrency concurrency : ℕ) (now : S) (t : Pipeline Callback Provider S)
      → Reach kp kv key_proc_buffer rule_work_buffer
          (new_pipeline key_proc_concurrency concurrency now)
          t
      → Queued t.submitted t.taken t.kp_channel
        × Queued t.entered t.left t.work_channel
        × (length t.kp_channel ≤ key_proc_buffer)
        × (length t.work_channel ≤ rule_work_buffer)
  unfolding new_pipeline
  Reach-IsOrdered kc c now _ here = (refl, refl, omega arith, omega arith)
  Reach-IsOrdered kc c now u (next {t} r step) =
      Step-IsOrdered t u step (Reach-IsOrdered kc c now t r)
