-- ===== src/Shutdown/Waiting.antt =====
-- rules/engine.go: what `Shutdown` returns.
use go_etcd_rules.Base.{
  ◌≡◌, ◌↔◌, refl, sym, subst, ap, ◌∙◌, Bool, true, false, List, [], ◌∷◌, ◌++◌, some, All, arith,
}
use go_etcd_rules.Shutdown.Stoppables.{Wake, context_done, ticked, shutdown_loop}

-- A round in which the engine was not stopped and the wait ended with a tick.
abbrev pub IsTick : Bool × Wake → Type 0
IsTick round = round ≡ (false, ticked)

ticks-loop :
    (before rest : List (Bool × Wake))
    → All IsTick before
    → shutdown_loop (before ++ rest) ≡ shutdown_loop rest
unfolding shutdown_loop
ticks-loop [] rest h = refl
ticks-loop (round ∷ before) rest h =
    subst (λ (r : Bool × Wake). shutdown_loop (r ∷ (before ++ rest)) ≡ shutdown_loop rest) (sym h.0)
      (ticks-loop before rest h.1)

abbrev EndsIn : (Bool × Wake → Type 0) → List (Bool × Wake) → Type 0
EndsIn P rounds =
    (before : List (Bool × Wake)) × (last : Bool × Wake) × (after : List (Bool × Wake)) × (rounds
      ≡ before ++ last ∷ after)
    × All IsTick before
    × P last

EndsIn-later :
    (P : Bool × Wake → Type 0) (rounds : List (Bool × Wake))
    → EndsIn P rounds
    → EndsIn P ((false, ticked) ∷ rounds)
EndsIn-later P rounds (before, last, after, is, ticks, h) =
    ((false, ticked) ∷ before, last, after, ap (λ l. (false, ticked) ∷ l) is, (refl, ticks), h)

abbrev pub SawStopped : Bool × Wake → Type 0
SawStopped round = round.0 ≡ true

abbrev pub GaveUp : Bool × Wake → Type 0
GaveUp round = round ≡ (false, context_done)

ended_by :
    (rounds : List (Bool × Wake))
    → (shutdown_loop rounds ≡ some true → EndsIn SawStopped rounds)
      × (shutdown_loop rounds ≡ some false → EndsIn GaveUp rounds)
unfolding shutdown_loop
ended_by [] = (λ e. cc, λ e. cc)
ended_by ((true, wake) ∷ rounds) =
    (λ e. ([], (true, wake), rounds, refl, tt, refl), λ e. ground arith)
ended_by ((false, context_done) ∷ rounds) =
    (λ e. ground arith, λ e. ([], (false, context_done), rounds, refl, tt, refl))
ended_by ((false, ticked) ∷ rounds) =
    let (ok_case, err_case) = ended_by rounds in
    (λ e. EndsIn-later SawStopped rounds (ok_case e), λ e. EndsIn-later GaveUp rounds (err_case e))

-- `Shutdown` returns without an error exactly if it sees the engine stopped at some look, and with the
-- error of the context exactly if the context is done while a look has not seen that; before that look
-- all waits ended with a tick.
pub shutdown_loop_iff :
    (rounds : List (Bool × Wake))
    → ((shutdown_loop rounds ≡ some true) ↔ (
        (before : List (Bool × Wake)) × (last : Bool × Wake) × (after : List (Bool × Wake))
        × (rounds ≡ before ++ last ∷ after)
        × All IsTick before
        × SawStopped last))
      × ((shutdown_loop rounds ≡ some false) ↔ (
          (before : List (Bool × Wake)) × (last : Bool × Wake) × (after : List (Bool × Wake))
          × (rounds ≡ before ++ last ∷ after)
          × All IsTick before
          × GaveUp last))
unfolding shutdown_loop
shutdown_loop_iff rounds = (
  (
    (ended_by rounds).0,
    λ (before, (stopped, wake), after, is, ticks, h).
        rw is (ticks-loop before _ ticks ∙ rw (shutdown_loop, h) refl),
  ),
  (
    (ended_by rounds).1,
    λ (before, last, after, is, ticks, h).
        rw (is, h) (ticks-loop before ((false, context_done) ∷ after) ticks),
  ),
)
