-- ===== src/Shutdown/Finishing.antt =====
-- rules/engine.go and rules/worker.go: the runs that bring `stop` of the engine to its end, and those that
-- never do.
use go_etcd_rules.Base.{◌+◌, ◌≡◌, ◌≢◌, refl, sym, ◌∙◌, Bool, true, false}
use go_etcd_rules.Shutdown.{
  Phase, testing, selecting, received, working, ended, Stopper, running, first_send, between,
  second_send, polling, finished, System, move, Step, go_on, leave, receive_done, receive_work,
  drop_work, start_work, end_work, call_stop, send_first, call_again, send_second, see_stopped,
  Reach, here, next,
}

-- Some run from here brings `stop` of the engine to its end.
abbrev pub CanFinish : System → Type 0
CanFinish s = (t : System) × Reach s t × (t.stopper ≡ finished)

Reach-first : {s t u : System} → Step s t → Reach t u → Reach s u
Reach-first step here = next here step
Reach-first step (next r last) = next (Reach-first step r) last

pub first : {s t : System} → Step s t → CanFinish t → CanFinish s
first step (u, r, e) = (u, Reach-first step r, e)

-- A value of `done`, sent or about to be, is still to be received before the engine can finish.
abbrev pub IsOwed : Stopper → Bool → Type 0
IsOwed running full = ⊥
IsOwed first_send full = Unit
IsOwed between full = full ≡ true
IsOwed second_send full = full ≡ true
IsOwed polling full = ⊥
IsOwed finished full = ⊥

-- The worker, which will see the flag, is not at its select, and so will never receive that value.
pub record IsDoomed (s : System) : Type 0 where
  pub flag : s.stopping ≡ true
  pub away : s.phase ≢ selecting
  pub owed : IsOwed s.stopper s.done_full

Step-IsDoomed : (s t : System) → Step s t → IsDoomed s → IsDoomed t
Step-IsDoomed s t (go_on p f e) d = absurd (cc (sym f ∙ d.flag))
Step-IsDoomed s t (leave p f e) d = rw e (record { flag = d.flag; away = λ x. cc x; owed = d.owed })
Step-IsDoomed s t (receive_done p f e) d = absurd (d.away p)
Step-IsDoomed s t (receive_work p e) d = absurd (d.away p)
Step-IsDoomed s t (drop_work p f e) d =
    rw e (record { flag = d.flag; away = λ x. cc x; owed = d.owed })
Step-IsDoomed s t (start_work p f e) d = absurd (cc (sym f ∙ d.flag))
Step-IsDoomed s t (end_work p e) d =
    rw e (record { flag = d.flag; away = λ x. cc x; owed = d.owed })
Step-IsDoomed s t (call_stop p e) d = absurd (rw p at (d.owed))
Step-IsDoomed s t (send_first p f e) d = rw e (record { flag = d.flag; away = d.away; owed = refl })
Step-IsDoomed s t (call_again p e) d =
    rw e (record { flag = refl; away = d.away; owed = rw p at (d.owed) })
Step-IsDoomed s t (send_second p f e) d = absurd (cc (sym f ∙ rw p at (d.owed)))
Step-IsDoomed s t (see_stopped p f e) d = absurd (rw p at (d.owed))

pub Reach-IsDoomed : {s t : System} → Reach s t → IsDoomed s → IsDoomed t
Reach-IsDoomed here d = d
Reach-IsDoomed (next {t} {u} r step) d = Step-IsDoomed t u step (Reach-IsDoomed r d)

-- The worker's own way out of its loop once the flag is up, work coming in where it waits.
pub ends_from :
    (phase : Phase) (s : System)
    → s.phase ≡ phase
    → s.stopping ≡ true
    → s.stopper ≡ polling
    → CanFinish s
ends_from phase s p f o = go phase s p f o
  where
    at_end : (s : System) → s.phase ≡ ended → s.stopper ≡ polling → CanFinish s
    at_end s p o = (record s { stopper = finished }, next here (see_stopped o p refl), refl)

    at_test :
        (s : System) → s.phase ≡ testing → s.stopping ≡ true → s.stopper ≡ polling → CanFinish s
    at_test s p f o = first (leave p f refl) (at_end (move ended s) refl o)

    holding :
        (s : System) → s.phase ≡ received → s.stopping ≡ true → s.stopper ≡ polling → CanFinish s
    holding s p f o = first (drop_work p f refl) (at_test (move testing s) refl f o)

    go :
        (phase : Phase) (s : System)
        → s.phase ≡ phase
        → s.stopping ≡ true
        → s.stopper ≡ polling
        → CanFinish s
    go testing s p f o = at_test s p f o
    go selecting s p f o = first (receive_work p refl) (holding (move received s) refl f o)
    go received s p f o = holding s p f o
    go working s p f o = first (end_work p refl) (at_test (move testing s) refl f o)
    go ended s p f o = at_end s p o

-- The engine's way on from its second call, with room for its value.
pub from_second :
    (s : System) → s.stopper ≡ second_send → s.stopping ≡ true → s.done_full ≡ false → CanFinish s
from_second s o f empty =
    first (send_second o empty refl)
      (ends_from s.phase (record s { stopper = polling; done_full = true }) refl f refl)

pub from_between : (s : System) → s.stopper ≡ between → s.done_full ≡ false → CanFinish s
from_between s o empty =
    first (call_again o refl)
      (from_second (record s { stopper = second_send; stopping = true }) refl refl empty)

-- The ways on where the worker is at its select.
pub from_first :
    (s : System) → s.stopper ≡ first_send → s.done_full ≡ false → s.phase ≡ selecting → CanFinish s
from_first s o empty p =
    let sent : System = record s { stopper = between; done_full = true } in
    first (send_first o empty refl) (
      first (receive_done p refl refl)
        (from_between (record (move testing sent) { done_full = false }) refl refl))

pub from_running :
    (phase : Phase) (s : System)
    → s.phase ≡ phase
    → s.stopper ≡ running
    → s.stopping ≡ false
    → s.done_full ≡ false
    → phase ≢ ended
    → CanFinish s
from_running phase s p o f empty up = go phase s p o f empty up
  where
    at_select :
        (s : System) → s.phase ≡ selecting → s.stopper ≡ running → s.done_full ≡ false → CanFinish s
    at_select s p o empty =
        first (call_stop o refl)
          (from_first (record s { stopper = first_send; stopping = true }) refl empty p)

    at_test :
        (s : System)
        → s.phase ≡ testing
        → s.stopper ≡ running
        → s.stopping ≡ false
        → s.done_full ≡ false
        → CanFinish s
    at_test s p o f empty = first (go_on p f refl) (at_select (move selecting s) refl o empty)

    at_work :
        (s : System)
        → s.phase ≡ working
        → s.stopper ≡ running
        → s.stopping ≡ false
        → s.done_full ≡ false
        → CanFinish s
    at_work s p o f empty = first (end_work p refl) (at_test (move testing s) refl o f empty)

    go :
        (phase : Phase) (s : System)
        → s.phase ≡ phase
        → s.stopper ≡ running
        → s.stopping ≡ false
        → s.done_full ≡ false
        → phase ≢ ended
        → CanFinish s
    go testing s p o f empty up = at_test s p o f empty
    go selecting s p o f empty up = at_select s p o empty
    go received s p o f empty up =
        first (start_work p f refl)
          (at_work (record (move working s) { started = s.started + 1 }) refl o f empty)
    go working s p o f empty up = at_work s p o f empty
    go ended s p o f empty up = absurd (up refl)
