-- ===== src/Shutdown/Stoppables.antt =====
-- rules/engine.go: `stop` of the engine with `stopstoppables`, and `Shutdown`. What is stopped runs at
-- the same time, so that the world moves on at each look at it.
use go_etcd_rules.Base.{ℕ, zero, suc, Bool, true, false, List, [], ◌∷◌, Option, none, some, ◌>>=◌}

-- The interface stoppable: `stop`, which gives none where it waits for ever at its send (the modules
-- Shutdown and Watcher.Stopping have when), and `isStopped` with the world after it.
pub record Stoppable (S : Type 0) : Type 0 where
  pub stop : S → Option S
  pub is_stopped : S → Bool × S

module _ {S : Type 0} where
  -- The first loop of `stopstoppables`, and the loop of `stop` over the workers.
  unfoldable pub stop_each : List (Stoppable S) → S → Option S
  stop_each [] s = some s
  stop_each (x ∷ stoppables) s = do s' ← x.stop s; stop_each stoppables s'

  -- One round of the second loop. It does not look further once one is not stopped.
  unfoldable pub look_round : List (Stoppable S) → S → Bool × S
  look_round [] s = (true, s)
  look_round (x ∷ stoppables) s =
      let (stopped, s') = x.is_stopped s in
      elim stopped [ true ↦ look_round stoppables s' | false ↦ (false, s') ]

  -- The second loop, for as many rounds as there is fuel.
  unfoldable pub look_until : ℕ → List (Stoppable S) → S → Option S
  unfolding look_round
  look_until zero stoppables s = none
  look_until (suc fuel) stoppables s =
      let (stopped, s') = look_round stoppables s in
      elim stopped [ true ↦ some s' | false ↦ look_until fuel stoppables s' ]

  unfoldable pub stopstoppables : ℕ → List (Stoppable S) → S → Option S
  unfolding stop_each look_until
  stopstoppables fuel stoppables s = do s' ← stop_each stoppables s; look_until fuel stoppables s'

-- What `stop` of the engine uses of it; `set_stopped` raises its flag.
pub record StoppableEngine (S : Type 0) : Type 0 where
  pub crawlers : List (Stoppable S)
  pub watchers : List (Stoppable S)
  pub workers : List (Stoppable S)
  pub set_stopped : S → S

-- `stop`, which stops the workers twice.
unfoldable pub stop_engine : {S : Type 0} → ℕ → StoppableEngine S → S → Option S
unfolding stopstoppables
stop_engine fuel e s = do
  s1 ← stopstoppables fuel e.crawlers s
  s2 ← stopstoppables fuel e.watchers s1
  s3 ← stop_each e.workers s2
  s4 ← stopstoppables fuel e.workers s3
  some (e.set_stopped s4)

-- What a wait of `Shutdown` ends with: the context is done, or the ticker ticks.
pub data Wake : Type 0 where
  context_done ticked : Wake

-- The loop of `Shutdown`: what it sees of the flag, and what each wait ends with. It returns whether it
-- returns without an error, and `none` is that it still waits.
unfoldable pub shutdown_loop : List (Bool × Wake) → Option Bool
shutdown_loop [] = none
shutdown_loop ((stopped, wake) ∷ rest) = elim stopped [
  | true ↦ some true
  | false ↦ elim wake [ context_done ↦ some false | ticked ↦ shutdown_loop rest ]
]
