-- ===== src/Shutdown/Blocking.antt =====
-- rules/engine.go: the second send of `stop` to a worker.
use go_etcd_rules.Base.{◌+◌, ◌≡◌, ◌≢◌, refl, sym, ◌∙◌, true, false}
use go_etcd_rules.Shutdown.{
  testing, working, ended, Stopper, running, first_send, between, second_send, polling, finished,
  System, move, Step, go_on, leave, receive_done, receive_work, drop_work, start_work, end_work,
  call_stop, send_first, call_again, send_second, see_stopped, Reach, here, next,
}

abbrev IsSending : Stopper → Type 0
IsSending running = ⊥
IsSending first_send = ⊥
IsSending between = Unit
IsSending second_send = Unit
IsSending polling = ⊥
IsSending finished = ⊥

-- The worker has left its loop, nobody receives, and the engine has a send before it.
record IsBlocked (s : System) : Type 0 where
  gone : s.phase ≡ ended
  full : s.done_full ≡ true
  sending : IsSending s.stopper

Step-IsBlocked : (s t : System) → Step s t → IsBlocked s → IsBlocked t
Step-IsBlocked s t (go_on p f e) b = absurd (cc (sym p ∙ b.gone))
Step-IsBlocked s t (leave p f e) b = absurd (cc (sym p ∙ b.gone))
Step-IsBlocked s t (receive_done p f e) b = absurd (cc (sym p ∙ b.gone))
Step-IsBlocked s t (receive_work p e) b = absurd (cc (sym p ∙ b.gone))
Step-IsBlocked s t (drop_work p f e) b = absurd (cc (sym p ∙ b.gone))
Step-IsBlocked s t (start_work p f e) b = absurd (cc (sym p ∙ b.gone))
Step-IsBlocked s t (end_work p e) b = absurd (cc (sym p ∙ b.gone))
Step-IsBlocked s t (call_stop p e) b = absurd (rw p at (b.sending))
Step-IsBlocked s t (send_first p f e) b = absurd (cc (sym f ∙ b.full))
Step-IsBlocked s t (call_again p e) b = rw e (record { gone = b.gone; full = b.full; sending = tt })
Step-IsBlocked s t (send_second p f e) b = absurd (cc (sym f ∙ b.full))
Step-IsBlocked s t (see_stopped p f e) b = absurd (rw p at (b.sending))

Reach-IsBlocked : {s t : System} → Reach s t → IsBlocked s → IsBlocked t
Reach-IsBlocked here b = b
Reach-IsBlocked (next {t} {u} r step) b = Step-IsBlocked t u step (Reach-IsBlocked r b)

IsBlocked-finished : (s : System) → IsBlocked s → s.stopper ≢ finished
IsBlocked-finished s b e = rw e at (b.sending)

-- The states that follow where the engine stops a worker that is at work: the flag goes up, the first
-- send fills the channel, and the worker ends its work and leaves.
abbrev blocked : System → System
blocked s = record s {
  phase = ended;
  stopper = between;
  stopping = true;
  done_full = true;
  steps = s.steps + 1 + 1;
}

-- Where the engine is yet to stop a worker that is at work, with an empty channel, a run can come to a
-- point from which no run gets the engine past its second send: it never finishes to stop.
pub stop_blocks :
    (s : System)
    → s.phase ≡ working
    → s.stopper ≡ running
    → s.done_full ≡ false
    → (t : System) × Reach s t × ((u : System) → Reach t u → u.stopper ≢ finished)
stop_blocks s at_work not_yet empty =
    let told : System = record s { stopper = first_send; stopping = true } in
    let sent : System = record told { stopper = between; done_full = true } in
    (
      blocked s,
      next
          (next {u = move testing sent}
            (next {u = sent} (next {u = told} here (call_stop not_yet refl))
              (send_first refl empty refl))
            (end_work at_work refl))
          (leave refl refl refl),
      λ u r.
          IsBlocked-finished u
            (Reach-IsBlocked r (record { gone = refl; full = refl; sending = tt })),
    )
