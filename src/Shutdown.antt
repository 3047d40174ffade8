-- ===== src/Shutdown.antt =====
-- rules/worker.go and rules/engine.go: how the engine stops a worker. The worker's loop and the engine
-- take turns in any order; each step is one access to what they share.
mod Bounds
pub mod Stoppables
mod Waiting
mod StopTests
mod Blocking
mod Finishing
mod Returning
mod Tests
use go_etcd_rules.Base.{ℕ, ◌+◌, ◌≡◌, Bool, true, false}

-- Where a worker stands: at the test of the loop of `run`, at the select of `singleRun`, at the test
-- after it has received work, in `doWork`, or after the loop.
pub data Phase : Type 0 where
  testing selecting received working ended : Phase

-- Where `stop` of the engine stands with this worker: before it, at the send of its first call of the
-- worker's `stop`, after that, at the send of the second call, waiting for the worker, and after that.
pub data Stopper : Type 0 where
  running first_send between second_send polling finished : Stopper

-- What they share: the flag, and `done`, a channel with room for one value. Two counters are kept for
-- the theorems: the calls of `doWork`, and the steps of the worker.
pub record System : Type 0 where
  pub phase : Phase
  pub stopper : Stopper
  pub stopping : Bool
  pub done_full : Bool
  pub started : ℕ
  pub steps : ℕ

-- A step of the worker to another place.
abbrev pub move : Phase → System → System
move phase s = record s { phase = phase; steps = s.steps + 1 }

pub data Step (s t : System) : Type 0 where
  -- run and singleRun
  go_on : s.phase ≡ testing → s.stopping ≡ false → t ≡ move selecting s → Step s t
  leave : s.phase ≡ testing → s.stopping ≡ true → t ≡ move ended s → Step s t
  receive_done :
      s.phase ≡ selecting
      → s.done_full ≡ true
      → t ≡ record (move testing s) { done_full = false }
      → Step s t
  receive_work : s.phase ≡ selecting → t ≡ move received s → Step s t
  drop_work : s.phase ≡ received → s.stopping ≡ true → t ≡ move testing s → Step s t
  start_work :
      s.phase ≡ received
      → s.stopping ≡ false
      → t ≡ record (move working s) { started = s.started + 1 }
      → Step s t
  end_work : s.phase ≡ working → t ≡ move testing s → Step s t
  -- stop of the engine, with the worker's stop in it
  call_stop :
      s.stopper ≡ running → t ≡ record s { stopper = first_send; stopping = true } → Step s t
  send_first :
      s.stopper ≡ first_send
      → s.done_full ≡ false
      → t ≡ record s { stopper = between; done_full = true }
      → Step s t
  call_again :
      s.stopper ≡ between → t ≡ record s { stopper = second_send; stopping = true } → Step s t
  send_second :
      s.stopper ≡ second_send
      → s.done_full ≡ false
      → t ≡ record s { stopper = polling; done_full = true }
      → Step s t
  see_stopped :
      s.stopper ≡ polling → s.phase ≡ ended → t ≡ record s { stopper = finished } → Step s t

pub data Reach (s : System) : System → Type 0 where
  here : Reach s s
  next : {t u : System} → Reach s t → Step t u → Reach s u

abbrev pub start : System
start = record {
  phase = testing;
  stopper = running;
  stopping = false;
  done_full = false;
  started = 0;
  steps = 0;
}
