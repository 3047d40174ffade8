-- ===== src/Shutdown/Returning.antt =====
-- rules/engine.go and rules/worker.go: when `stop` of the engine can still come to its end.
use go_etcd_rules.Base.{◌+◌, ◌≡◌, ◌≢◌, ◌↔◌, ◌⊎◌, refl, sym, ◌∙◌, true, false, Bool-cases, inl, inr}
use go_etcd_rules.Shutdown.{
  Phase, testing, selecting, received, working, ended, Stopper, running, first_send, between,
  second_send, polling, finished, System, move, Step, go_on, leave, receive_done, receive_work,
  drop_work, start_work, end_work, call_stop, send_first, call_again, send_second, see_stopped,
  Reach, here, next, start,
}
use go_etcd_rules.Shutdown.Finishing.{
  CanFinish, IsOwed, IsDoomed, Reach-IsDoomed, first, ends_from, from_second, from_between,
  from_first, from_running,
}

-- What every run from the start keeps.
abbrev IsReadyAt : Stopper → System → Type 0
IsReadyAt running s = (s.stopping ≡ false) × (s.phase ≢ ended) × (s.done_full ≡ false)
IsReadyAt first_send s = (s.stopping ≡ true) × (s.done_full ≡ false)
IsReadyAt between s = s.stopping ≡ true
IsReadyAt second_send s = s.stopping ≡ true
IsReadyAt polling s = s.stopping ≡ true
IsReadyAt finished s = s.stopping ≡ true

worker-IsReadyAt :
    (o : Stopper) (s t : System)
    → t.stopping ≡ s.stopping
    → (s.stopping ≡ false → t.phase ≢ ended)
    → (s.done_full ≡ false → t.done_full ≡ false)
    → IsReadyAt o s
    → IsReadyAt o t
worker-IsReadyAt running s t a b c (f, p, d) = (a ∙ f, b f, c d)
worker-IsReadyAt first_send s t a b c (f, d) = (a ∙ f, c d)
worker-IsReadyAt between s t a b c f = a ∙ f
worker-IsReadyAt second_send s t a b c f = a ∙ f
worker-IsReadyAt polling s t a b c f = a ∙ f
worker-IsReadyAt finished s t a b c f = a ∙ f

abbrev IsReady : System → Type 0
IsReady s = IsReadyAt s.stopper s

-- A worker's step other than out of its loop.
stays-IsReady :
    (s : System) (phase : Phase) → phase ≢ ended → IsReady s → IsReadyAt s.stopper (move phase s)
stays-IsReady s phase up = worker-IsReadyAt s.stopper s (move phase s) refl (λ f. up) (λ d. d)

Step-IsReady : (s t : System) → Step s t → IsReady s → IsReady t
Step-IsReady s t (go_on p f e) h = rw e (stays-IsReady s selecting (λ x. cc x) h)
Step-IsReady s t (leave p f e) h =
    rw e
      (worker-IsReadyAt s.stopper s (move ended s) refl (λ g. absurd (cc (sym g ∙ f))) (λ d. d) h)
Step-IsReady s t (receive_done p f e) h = rw e (
    worker-IsReadyAt s.stopper s (record (move testing s) { done_full = false }) refl (λ g x. cc x)
      (λ d. refl) h)
Step-IsReady s t (receive_work p e) h = rw e (stays-IsReady s received (λ x. cc x) h)
Step-IsReady s t (drop_work p f e) h = rw e (stays-IsReady s testing (λ x. cc x) h)
Step-IsReady s t (start_work p f e) h = rw e (
    worker-IsReadyAt s.stopper s (record (move working s) { started = s.started + 1 }) refl
      (λ g x. cc x) (λ d. d) h)
Step-IsReady s t (end_work p e) h = rw e (stays-IsReady s testing (λ x. cc x) h)
Step-IsReady s t (call_stop p e) h =
    let (f, up, d) : IsReadyAt running s = rw p at h in rw e (refl, d)
Step-IsReady s t (send_first p f e) h = let (g, d) : IsReadyAt first_send s = rw p at h in rw e g
Step-IsReady s t (call_again p e) h = rw e refl
Step-IsReady s t (send_second p f e) h = let g : IsReadyAt second_send s = rw p at h in rw e g
Step-IsReady s t (see_stopped p f e) h = let g : IsReadyAt polling s = rw p at h in rw e g

Reach-IsReady : (s : System) → Reach start s → IsReady s
Reach-IsReady _ here = (refl, λ x. cc x, refl)
Reach-IsReady s (next {t} r step) = Step-IsReady t s step (Reach-IsReady t r)

select_cases : (phase : Phase) → (phase ≡ selecting) ⊎ (phase ≢ selecting)
select_cases testing = inr (λ x. cc x)
select_cases selecting = inl refl
select_cases received = inr (λ x. cc x)
select_cases working = inr (λ x. cc x)
select_cases ended = inr (λ x. cc x)

-- The worker is at its select, where something is owed and the engine is not doomed.
spared :
    (s : System)
    → s.stopping ≡ true
    → IsOwed s.stopper s.done_full
    → ¬ IsDoomed s
    → s.phase ≡ selecting
spared s f owed n = elim (select_cases s.phase) [
  | inl p ↦ p
  | inr away ↦ absurd (n (record { flag = f; away = away; owed = owed }))
]

ready_finishes :
    (o : Stopper) (s : System) → s.stopper ≡ o → IsReadyAt o s → ¬ IsDoomed s → CanFinish s
ready_finishes running s o (f, up, empty) n = from_running s.phase s refl o f empty up
ready_finishes first_send s o (f, empty) n = from_first s o empty (spared s f (rw o tt) n)
ready_finishes between s o f n = elim (Bool-cases s.done_full) [
  | inr empty ↦ from_between s o empty
  | inl full ↦
      let p = spared s f (rw o full) n in
      first (receive_done p full refl)
        (from_between (record (move testing s) { done_full = false }) o refl)
]
ready_finishes second_send s o f n = elim (Bool-cases s.done_full) [
  | inr empty ↦ from_second s o f empty
  | inl full ↦
      let p = spared s f (rw o full) n in
      first (receive_done p full refl)
        (from_second (record (move testing s) { done_full = false }) o f refl)
]
ready_finishes polling s o f n = ends_from s.phase s refl f o
ready_finishes finished s o f n = (s, here, o)

doomed_never : (s : System) → IsDoomed s → ¬ CanFinish s
doomed_never s d (t, r, e) = let owed = (Reach-IsDoomed r d).owed in absurd (rw e at owed)

-- At every point of a run from the start, `stop` of the engine can come to its end unless the worker's
-- flag is up, the worker is not at its select, and the engine is at its first send or the value that it
-- sent first was not received before its second send is done; from such a point no run brings it to its
-- end.
pub can_finish_iff : (s : System) → Reach start s → CanFinish s ↔ ¬ IsDoomed s
can_finish_iff s r =
    (λ c d. doomed_never s d c, λ n. ready_finishes s.stopper s refl (Reach-IsReady s r) n)
