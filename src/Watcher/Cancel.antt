-- ===== src/Watcher/Cancel.antt =====
-- rules/watcher.go and rules/etcd.go: the send of `cancel`.
use go_etcd_rules.Base.{◌≡◌, ◌≢◌, refl, sym, ◌∙◌, true}
use go_etcd_rules.Watcher.Stopping.{
  Place, at_test, at_select, pausing, gone, not_called, at_send, waiting, finished, StopState,
  StopStep, leave, select_next, take_event, receive_events, receive_failure, end_key, end_pause,
  call_stop, send_stop, see_stopped, StopReach, here, next,
}

-- The flag is up, the send stands, and the watcher will not come to its select again.
record IsStuck (s : StopState) : Type 0 where
  up : s.stopping ≡ true
  sending : s.stop_place ≡ at_send
  away : s.place ≢ at_select

moved :
    (s : StopState) (place : Place)
    → IsStuck s
    → place ≢ at_select
    → IsStuck (record s { place = place })
moved s place k away = record { up = k.up; sending = k.sending; away = away }

Step-IsStuck : (s t : StopState) → StopStep s t → IsStuck s → IsStuck t
Step-IsStuck s t (leave p f e) k = rw e (moved s gone k (λ x. cc x))
Step-IsStuck s t (select_next p f n e) k = absurd (cc (sym f ∙ k.up))
Step-IsStuck s t (take_event n p f c e) k = absurd (cc (sym f ∙ k.up))
Step-IsStuck s t (receive_events n p e) k = absurd (k.away p)
Step-IsStuck s t (receive_failure p e) k = absurd (k.away p)
Step-IsStuck s t (end_key p e) k = rw e (moved s at_test k (λ x. cc x))
Step-IsStuck s t (end_pause p e) k = rw e (moved s at_test k (λ x. cc x))
Step-IsStuck s t (call_stop p e) k = absurd (cc (sym p ∙ k.sending))
Step-IsStuck s t (send_stop p q e) k = absurd (k.away q)
Step-IsStuck s t (see_stopped p q e) k = absurd (cc (sym p ∙ k.sending))

Reach-IsStuck : {s t : StopState} → StopReach s t → IsStuck s → IsStuck t
Reach-IsStuck here k = k
Reach-IsStuck (next {t} {u} r step) k = Step-IsStuck t u step (Reach-IsStuck r k)

-- Where `stop` is called while the watcher is at its select, a run gets to its end.
stop_ends :
    (s : StopState)
    → s.place ≡ at_select
    → s.stop_place ≡ not_called
    → (t : StopState) × StopReach s t × (t.stop_place ≡ finished)
stop_ends s p c =
    let told : StopState = record s { stop_place = at_send; stopping = true } in
    let sent : StopState = record told { place = pausing; stop_place = waiting } in
    let tested : StopState = record sent { place = at_test } in
    let left : StopState = record tested { place = gone } in
    (
      record left { stop_place = finished },
      next {u = record left { stop_place = finished }}
          (next {u = left}
            (next {u = tested}
              (next {u = sent} (next {u = told} here (call_stop c refl)) (send_stop refl p refl))
              (end_pause refl refl))
            (leave refl refl refl))
          (see_stopped refl refl refl),
      refl,
    )

-- Where `stop` is called while the watcher is anywhere but at its select, it never returns: in every run
-- from then on, the send of `cancel` stands.
pub stop_stuck :
    (s t u : StopState)
    → s.stop_place ≡ not_called
    → s.place ≢ at_select
    → t ≡ record s { stop_place = at_send; stopping = true }
    → StopReach t u
    → (u.stop_place ≡ at_send) × (u.place ≢ at_select)
stop_stuck s t u c away e r =
    let stuck : IsStuck t = rw e (record { up = refl; sending = refl; away = away }) in
    let still = Reach-IsStuck r stuck in (still.sending, still.away)
