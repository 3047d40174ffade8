-- ===== src/Watcher/Stopping.antt =====
-- rules/watcher.go and rules/etcd.go: how a watcher is stopped. Its loop and `stop` take turns in any
-- order; each step is one access to what they share.
use go_etcd_rules.Base.{ℕ, ◌+◌, ◌≡◌, Bool, true, false}

-- Where the watcher stands: at the test of the loop of `run`, at the select of `next`, at a key that
-- `next` returned, in the pause after an error, or after the loop.
pub data Place : Type 0 where
  at_test at_select at_key pausing gone : Place

-- Where `stop` stands: before it, at the send of `cancel`, waiting for the watcher, and after that.
pub data StopPlace : Type 0 where
  not_called at_send waiting finished : StopPlace

-- `stopCh` is a channel without room. `events` counts the events of a response that are not handed on.
pub record StopState : Type 0 where
  pub place : Place
  pub stop_place : StopPlace
  pub stopping : Bool
  pub events : ℕ

pub data StopStep (s t : StopState) : Type 0 where
  -- run, singleRun and next
  leave : s.place ≡ at_test → s.stopping ≡ true → t ≡ record s { place = gone } → StopStep s t
  select_next :
      s.place ≡ at_test
      → s.stopping ≡ false
      → s.events ≡ 0
      → t ≡ record s { place = at_select }
      → StopStep s t
  take_event :
      (n : ℕ)
      → s.place ≡ at_test
      → s.stopping ≡ false
      → s.events ≡ n + 1
      → t ≡ record s { place = at_key; events = n }
      → StopStep s t
  receive_events :
      (n : ℕ) → s.place ≡ at_select → t ≡ record s { place = at_key; events = n } → StopStep s t
  receive_failure : s.place ≡ at_select → t ≡ record s { place = pausing } → StopStep s t
  end_key : s.place ≡ at_key → t ≡ record s { place = at_test } → StopStep s t
  end_pause : s.place ≡ pausing → t ≡ record s { place = at_test } → StopStep s t
  -- stop, with cancel in it, and the wait of `stopstoppables`
  call_stop :
      s.stop_place ≡ not_called
      → t ≡ record s { stop_place = at_send; stopping = true }
      → StopStep s t
  send_stop :
      s.stop_place ≡ at_send
      → s.place ≡ at_select
      → t ≡ record s { place = pausing; stop_place = waiting }
      → StopStep s t
  see_stopped :
      s.stop_place ≡ waiting
      → s.place ≡ gone
      → t ≡ record s { stop_place = finished }
      → StopStep s t

pub data StopReach (s : StopState) : StopState → Type 0 where
  here : StopReach s s
  next : {t u : StopState} → StopReach s t → StopStep t u → StopReach s u
