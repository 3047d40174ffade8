-- ===== src/Shutdown/Bounds.antt =====
-- rules/worker.go: what a worker still does once it was told to stop.
use go_etcd_rules.Base.{ℕ, ◌+◌, ◌≤◌, ◌≡◌, refl, sym, ◌∙◌, true, arith}
use go_etcd_rules.Shutdown.{
  Phase, testing, selecting, received, working, ended, System, Step, go_on, leave, receive_done,
  receive_work, drop_work, start_work, end_work, call_stop, send_first, call_again, send_second,
  see_stopped, Reach, here, next,
}

-- The steps that a worker which was told to stop has at most before it.
abbrev pub steps_left : Phase → ℕ
steps_left testing = 1
steps_left selecting = 3
steps_left received = 2
steps_left working = 2
steps_left ended = 0

-- What one step keeps from `s` to `t`, where the flag is up in `s`.
record Keeps (s t : System) : Type 0 where
  up : t.stopping ≡ true
  no_start : t.started ≡ s.started
  shorter : t.steps + steps_left t.phase ≤ s.steps + steps_left s.phase

Step-Keeps : (s t : System) → Step s t → s.stopping ≡ true → Keeps s t
Step-Keeps s t (go_on p f e) h = absurd (cc (sym f ∙ h))
Step-Keeps s t (leave p f e) h =
    rw (e, p) (record { up = h; no_start = refl; shorter = omega arith })
Step-Keeps s t (receive_done p f e) h =
    rw e (record { up = h; no_start = refl; shorter = rw p (omega arith) })
Step-Keeps s t (receive_work p e) h =
    rw e (record { up = h; no_start = refl; shorter = rw p (omega arith) })
Step-Keeps s t (drop_work p f e) h =
    rw e (record { up = h; no_start = refl; shorter = rw p (omega arith) })
Step-Keeps s t (start_work p f e) h = absurd (cc (sym f ∙ h))
Step-Keeps s t (end_work p e) h =
    rw e (record { up = h; no_start = refl; shorter = rw p (omega arith) })
Step-Keeps s t (call_stop p e) h =
    rw e (record { up = refl; no_start = refl; shorter = omega arith })
Step-Keeps s t (send_first p f e) h =
    rw e (record { up = h; no_start = refl; shorter = omega arith })
Step-Keeps s t (call_again p e) h =
    rw e (record { up = refl; no_start = refl; shorter = omega arith })
Step-Keeps s t (send_second p f e) h =
    rw e (record { up = h; no_start = refl; shorter = omega arith })
Step-Keeps s t (see_stopped p f e) h =
    rw e (record { up = h; no_start = refl; shorter = omega arith })

Reach-Keeps : {s t : System} → Reach s t → s.stopping ≡ true → Keeps s t
Reach-Keeps here h = record { up = h; no_start = refl; shorter = omega arith }
Reach-Keeps (next {t} {u} r step) h =
    let before = Reach-Keeps r h in
    let last = Step-Keeps t u step before.up in
    record {
      up = last.up;
      no_start = last.no_start ∙ before.no_start;
      shorter = omega (arith, before.shorter, last.shorter);
    }

-- Once a worker was told to stop it starts no more work, and makes at most three more steps.
pub Reach-stopping :
    (s t : System)
    → Reach s t
    → s.stopping ≡ true
    → (t.started ≡ s.started) × (t.steps ≤ s.steps + 3)
Reach-stopping s t r h =
    let k = Reach-Keeps r h in (k.no_start, omega (arith, k.shorter, steps_left_le s.phase))
  where
    steps_left_le : (p : Phase) → steps_left p ≤ 3
    steps_left_le p = ground arith
