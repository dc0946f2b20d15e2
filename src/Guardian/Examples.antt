-- ===== src/Guardian/Examples.antt =====
-- A guardian that allows three failures, and the theorems about it.
use qmdsr.Prelude.{◌+◌, ◌-◌, ◌*◌, ◌≤◌, ◌≡◌, refl, true, false, List, [], ◌∷◌, arith}
use qmdsr.Prelude.Int.{pos}
use qmdsr.Guardian.{
  World, Event, new, to_cli, started, start_mcp, start, check, restart_begin, restart_mcp, step,
  run, tick, begin, finish, admin,
}
use qmdsr.Guardian.Soundness.{IsSound, run-IsSound, start-IsSound}
use qmdsr.Guardian.Escalation.{failures, failures_lem, failures_reach_cli}

program : Unit {0}
unfolding new to_cli started start_mcp start check restart_begin restart_mcp step run failures
program = tt

start-IsSound_example : IsSound (pos 3) (start true false false true 5 new).0
start-IsSound_example = start-IsSound (pos 3) true false false true 5

abbrev world : World
world = record { guardian = (start true true true true 5 new).0; spawned = 0; restarting = 0 }

abbrev story : List Event
story =
    tick false 10
    ∷ begin
    ∷ tick false 20
    ∷ finish true true 25
    ∷ admin false true 27
    ∷ tick false 30
    ∷ []

run-IsSound_example : IsSound (pos 3) (run (pos 3) world story).guardian
run-IsSound_example = run-IsSound (pos 3) world story (start-IsSound (pos 3) true true true true 5)

-- A restart that succeeds does not clear the count, so the third failure still counts as the third.
story_ends :
    ((run (pos 3) world story).guardian.cli_mode ≡ true)
    × ((run (pos 3) world story).guardian.restart_count ≡ 2)
unfolding program
story_ends = (refl, refl)

failures_lem_example :
    let (g', k) = failures (pos 3) (λ n. n) 7 new in
    (g'.fail_count + 3 * (7 - k) ≡ new.fail_count + 7) × (g'.fail_count ≤ 2) × (k ≤ 7)
unfolding new
failures_lem_example = failures_lem 2 (λ n. n) 7 new (omega arith)

failures_reach_cli_example : (failures (pos 3) (λ n. n) 4 new).0.cli_mode ≡ true
unfolding new
failures_reach_cli_example = failures_reach_cli 2 (λ n. n) 4 new (omega arith) (omega arith)
