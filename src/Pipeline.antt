-- ===== src/Pipeline.antt =====
-- rules/key_processor.go and rules/worker.go: the way of a changed key to a callback. Watchers and
-- crawlers submit keys to one channel, key workers evaluate the rules of a key and send the items of
-- work to a second channel, and workers receive them. All take turns in any order.
mod Counting
mod Order
mod Everywhere
mod Due
mod Called
mod Conserved
mod Draining
pub mod Progress
mod Samples
mod Tests
use go_etcd_rules.Base.{
  ℕ, zero, suc, ◌<◌, ◌≡◌, Bool, true, false, List, [], ◌∷◌, ◌++◌, length, Option, some, Text, Map,
}
use go_etcd_rules.Etcd.{EtcdKv}
use go_etcd_rules.KeyProcessor.{KeyProcessor, Work, process_key}
use go_etcd_rules.KeyProcessor.Snapshot.{reads_at}

-- What a key task says. Its reads go to etcd, and its logger and its counter are left out.
pub record KeyTask : Type 0 where
  pub key : Text
  pub value : Option Text
  pub metadata : Map Text

-- A worker waits at the test of its loop or at its select, has received an item, is in `doWork`, or has
-- left its loop. Shutdown.antt has the steps in between.
pub data Slot (W : Type 0) : Type 0 where
  waiting ended : Slot W
  received doing : W → Slot W

-- `told` is the flag that `stop` sets.
pub record PoolWorker (W : Type 0) : Type 0 where
  pub told : Bool
  pub slot : Slot W

module _ (Callback Provider S : Type 0) where
  -- The two channels, oldest value first; what each key worker has yet to send of its task, nothing where
  -- it waits for one; the workers; and etcd as it is now. The rest is history: the states that etcd was
  -- in, the tasks and items that entered a channel and those that left it, oldest first, the items that
  -- evaluations gave, and those that were dropped and started.
  pub record Pipeline : Type 0 where
    pub kp_channel : List KeyTask
    pub key_workers : List (List (Work Callback Provider))
    pub work_channel : List (Work Callback Provider)
    pub workers : List (PoolWorker (Work Callback Provider))
    pub now : S
    pub moments : List S
    pub submitted : List KeyTask
    pub taken : List KeyTask
    pub produced : List (Work Callback Provider)
    pub entered : List (Work Callback Provider)
    pub left : List (Work Callback Provider)
    pub dropped : List (Work Callback Provider)
    pub started : List (Work Callback Provider)

module _ {Callback Provider S : Type 0} (kp : KeyProcessor Callback Provider) (kv : EtcdKv S) where
  -- What the evaluation of a task sends, with the reads of etcd in the state `s`.
  abbrev pub evaluate : S → KeyTask → Option (List (Work Callback Provider))
  evaluate s task = process_key kp (reads_at kv s) task.key task.value task.metadata

module _ {Callback Provider S : Type 0} where
  -- The channel of keys and the key workers, of which the one between `before` and `after` moves.
  abbrev pub submit : KeyTask → Pipeline Callback Provider S → Pipeline Callback Provider S
  submit task s = record s {
    kp_channel = s.kp_channel ++ task ∷ [];
    submitted = s.submitted ++ task ∷ [];
  }

  abbrev pub take :
      KeyTask
      → List KeyTask
      → List (List (Work Callback Provider))
      → List (List (Work Callback Provider))
      → List (Work Callback Provider)
      → Pipeline Callback Provider S
      → Pipeline Callback Provider S
  take task rest before after works s = record s {
    kp_channel = rest;
    taken = s.taken ++ task ∷ [];
    key_workers = before ++ works ∷ after;
    produced = s.produced ++ works;
  }

  abbrev pub send :
      List (List (Work Callback Provider))
      → List (List (Work Callback Provider))
      → Work Callback Provider
      → List (Work Callback Provider)
      → Pipeline Callback Provider S
      → Pipeline Callback Provider S
  send before after w works s = record s {
    key_workers = before ++ works ∷ after;
    work_channel = s.work_channel ++ w ∷ [];
    entered = s.entered ++ w ∷ [];
  }

  -- The channel of work and the workers, of which the one between `before` and `after` moves.
  abbrev pub receive :
      Work Callback Provider
      → List (Work Callback Provider)
      → List (PoolWorker (Work Callback Provider))
      → List (PoolWorker (Work Callback Provider))
      → Bool
      → Pipeline Callback Provider S
      → Pipeline Callback Provider S
  receive w rest before after told s = record s {
    work_channel = rest;
    left = s.left ++ w ∷ [];
    workers = before ++ record { told = told; slot = received w } ∷ after;
  }

  abbrev pub move :
      List (PoolWorker (Work Callback Provider))
      → List (PoolWorker (Work Callback Provider))
      → PoolWorker (Work Callback Provider)
      → Pipeline Callback Provider S
      → Pipeline Callback Provider S
  move before after worker s = record s { workers = before ++ worker ∷ after }

module _ {Callback Provider S : Type 0} (kp : KeyProcessor Callback Provider) (kv : EtcdKv S)
    (key_proc_buffer rule_work_buffer : ℕ) where
  -- A channel without room is handed a value where its receiver waits: the value enters and leaves in one
  -- step.
  pub data Step (s t : Pipeline Callback Provider S) : Type 0 where
    -- Others change etcd.
    change : (now : S) → t ≡ record s { now = now; moments = s.now ∷ s.moments } → Step s t
    -- processKey of v3KeyProcessor
    submit_task :
        (task : KeyTask) → length s.kp_channel < key_proc_buffer → t ≡ submit task s → Step s t
    hand_task :
        (task : KeyTask) (before after : List (List (Work Callback Provider)))
        (works : List (Work Callback Provider))
        → s.kp_channel ≡ []
        → s.key_workers ≡ before ++ [] ∷ after
        → evaluate kp kv s.now task ≡ some works
        → t ≡ take task [] before after works (submit task s)
        → Step s t
    -- keyWorker, processKey of baseKeyProcessor and dispatchWork
    take_task :
        (task : KeyTask) (rest : List KeyTask) (before after : List (List (Work Callback Provider)))
        (works : List (Work Callback Provider))
        → s.kp_channel ≡ task ∷ rest
        → s.key_workers ≡ before ++ [] ∷ after
        → evaluate kp kv s.now task ≡ some works
        → t ≡ take task rest before after works s
        → Step s t
    send_work :
        (before after : List (List (Work Callback Provider))) (w : Work Callback Provider)
        (works : List (Work Callback Provider))
        → s.key_workers ≡ before ++ (w ∷ works) ∷ after
        → length s.work_channel < rule_work_buffer
        → t ≡ send before after w works s
        → Step s t
    hand_work :
        (before after : List (List (Work Callback Provider))) (w : Work Callback Provider)
        (works : List (Work Callback Provider)) (told : Bool)
        (first last : List (PoolWorker (Work Callback Provider)))
        → s.work_channel ≡ []
        → s.key_workers ≡ before ++ (w ∷ works) ∷ after
        → s.workers ≡ first ++ record { told = told; slot = waiting } ∷ last
        → t ≡ receive w [] first last told (send before after w works s)
        → Step s t
    -- run and singleRun of v3Worker, and stop
    receive_work :
        (w : Work Callback Provider) (rest : List (Work Callback Provider)) (told : Bool)
        (before after : List (PoolWorker (Work Callback Provider)))
        → s.work_channel ≡ w ∷ rest
        → s.workers ≡ before ++ record { told = told; slot = waiting } ∷ after
        → t ≡ receive w rest before after told s
        → Step s t
    tell :
        (before after : List (PoolWorker (Work Callback Provider))) (told : Bool)
        (slot : Slot (Work Callback Provider))
        → s.workers ≡ before ++ record { told = told; slot = slot } ∷ after
        → t ≡ move before after (record { told = true; slot = slot }) s
        → Step s t
    drop_work :
        (w : Work Callback Provider) (before after : List (PoolWorker (Work Callback Provider)))
        → s.workers ≡ before ++ record { told = true; slot = received w } ∷ after
        → t ≡ record (move before after (record { told = true; slot = waiting }) s) {
          dropped = s.dropped ++ w ∷ [];
        }
        → Step s t
    start_work :
        (w : Work Callback Provider) (before after : List (PoolWorker (Work Callback Provider)))
        → s.workers ≡ before ++ record { told = false; slot = received w } ∷ after
        → t ≡ record (move before after (record { told = false; slot = doing w }) s) {
          started = s.started ++ w ∷ [];
        }
        → Step s t
    end_work :
        (w : Work Callback Provider) (told : Bool)
        (before after : List (PoolWorker (Work Callback Provider)))
        → s.workers ≡ before ++ record { told = told; slot = doing w } ∷ after
        → t ≡ move before after (record { told = told; slot = waiting }) s
        → Step s t
    leave :
        (before after : List (PoolWorker (Work Callback Provider)))
        → s.workers ≡ before ++ record { told = true; slot = waiting } ∷ after
        → t ≡ move before after (record { told = true; slot = ended }) s
        → Step s t

  pub data Reach (s : Pipeline Callback Provider S) : Pipeline Callback Provider S → Type 0 where
    here : Reach s s
    next : {t u : Pipeline Callback Provider S} → Reach s t → Step t u → Reach s u

-- A list of `n` copies.
abbrev pub replicate : {A : Type 0} → ℕ → A → List A
replicate zero a = []
replicate (suc n) a = a ∷ replicate n a

-- `newV3KeyProcessor` starts its key workers, and `Run` of the engine the workers.
unfoldable pub new_pipeline :
    {Callback Provider S : Type 0} → ℕ → ℕ → S → Pipeline Callback Provider S
new_pipeline key_proc_concurrency concurrency now = record {
  kp_channel = [];
  key_workers = replicate key_proc_concurrency [];
  work_channel = [];
  workers = replicate concurrency (record { told = false; slot = waiting });
  now = now;
  moments = [];
  submitted = [];
  taken = [];
  produced = [];
  entered = [];
  left = [];
  dropped = [];
  started = [];
}

module _ {Callback Provider S : Type 0} {kp : KeyProcessor Callback Provider} {kv : EtcdKv S}
    {key_proc_buffer rule_work_buffer : ℕ} where
  -- A run that goes on.
  pub Reach-trans :
      {s t u : Pipeline Callback Provider S}
      → Reach kp kv key_proc_buffer rule_work_buffer s t
      → Reach kp kv key_proc_buffer rule_work_buffer t u
      → Reach kp kv key_proc_buffer rule_work_buffer s u
  Reach-trans r here = r
  Reach-trans r (next q step) = next (Reach-trans r q) step
