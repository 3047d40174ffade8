-- ===== src/Shutdown/StopTests.antt =====
-- rules/engine.go: `stop` of an engine with one worker, and the loop of `Shutdown`.
use go_etcd_rules.Base.{
  ◌≡◌, ◌↔◌, refl, Bool, true, false, List, [], ◌∷◌, ◌++◌, Option, some, none, All,
}
use go_etcd_rules.Shutdown.Stoppables.{
  StoppableEngine, stop_each, look_round, look_until, stopstoppables, Wake, ticked, stop_engine,
  shutdown_loop,
}
use go_etcd_rules.Shutdown.Waiting.{IsTick, SawStopped, GaveUp, shutdown_loop_iff}

-- A worker at its select, one that has left its loop, and one that has left it with a value in `done`.
data Life : Type 0 where
  selecting ended ended_full : Life

-- At its select the worker receives the value and leaves; later, one send finds room.
abbrev stop_worker : Life → Option Life
stop_worker selecting = some ended
stop_worker ended = some ended_full
stop_worker ended_full = none

abbrev look_worker : Life → Bool × Life
look_worker selecting = (false, selecting)
look_worker ended = (true, ended)
look_worker ended_full = (true, ended_full)

abbrev one_worker : StoppableEngine Life
one_worker = record {
  crawlers = [];
  watchers = [];
  workers = record { stop = stop_worker; is_stopped = look_worker } ∷ [];
  set_stopped = λ s. s;
}

-- The engine calls `stop` of the worker twice.
returns : stop_engine 1 one_worker selecting ≡ some ended_full
unfolding stop_engine stopstoppables stop_each look_until look_round
returns = refl

never_returns : stop_engine 1 one_worker ended ≡ none
unfolding stop_engine stopstoppables stop_each look_until look_round
never_returns = refl

abbrev rounds : List (Bool × Wake)
rounds = (false, ticked) ∷ (true, ticked) ∷ []

shutdown_loop_iff_example :
    ((shutdown_loop rounds ≡ some true) ↔ (
      (before : List (Bool × Wake)) × (last : Bool × Wake) × (after : List (Bool × Wake)) × (rounds
        ≡ before ++ last ∷ after)
      × All IsTick before
      × SawStopped last))
    × ((shutdown_loop rounds ≡ some false) ↔ (
        (before : List (Bool × Wake)) × (last : Bool × Wake) × (after : List (Bool × Wake))
        × (rounds ≡ before ++ last ∷ after)
        × All IsTick before
        × GaveUp last))
shutdown_loop_iff_example = shutdown_loop_iff rounds
