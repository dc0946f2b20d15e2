-- ===== src/Guardian/Soundness.antt =====
-- guardian/guardian.go: what holds after any sequence of checks and restarts.
use qmdsr.Prelude.{ℕ, zero, suc, ◌+◌, ◌<◌, max, ◌≡◌, ◌≢◌, Bool, true, false, List, [], ◌∷◌, arith}
use qmdsr.Prelude.Int.{ℤ, pos_part}
use qmdsr.Types.{healthy, degraded, unhealthy, critical}
use qmdsr.Guardian.{
  Guardian, World, Event, new, to_cli, started, start_mcp, start, check, restart_begin, restart_mcp,
  step, run, tick, begin, finish, admin,
}

-- Fewer failures are counted than make the daemon count as lost; a healthy daemon is not bypassed,
-- the level is never critical, and a degraded level is that of the CLI mode.
pub record IsSound (max_retries : ℤ) (g : Guardian) : Type 0 where
  pub bounded : g.fail_count < max 1 (pos_part max_retries)
  pub served : g.health ≡ healthy → g.cli_mode ≡ false
  pub bypassed : g.health ≡ degraded → g.cli_mode ≡ true
  pub failing : g.health ≡ unhealthy → 0 < g.fail_count
  pub not_critical : g.health ≢ critical

check-IsSound :
    (m : ℤ) (ok : Bool) (now : ℕ) (g : Guardian) → IsSound m g → IsSound m (check m ok now g).0
unfolding check
check-IsSound m true now g h = ground arith
check-IsSound m false now g h = ground arith

start_mcp-IsSound :
    (m : ℤ) (a b : Bool) (now : ℕ) (g : Guardian) → IsSound m g → IsSound m (start_mcp a b now g).0
unfolding start_mcp started
start_mcp-IsSound m a b now g h = ground arith

restart_begin-IsSound : (m : ℤ) (g : Guardian) → IsSound m g → IsSound m (restart_begin g)
unfolding restart_begin
restart_begin-IsSound m g h = assumption

step-IsSound :
    (m : ℤ) (w : World) (e : Event) → IsSound m w.guardian → IsSound m (step m w e).guardian
unfolding step restart_mcp
step-IsSound m w (tick ok now) h = check-IsSound m ok now w.guardian h
step-IsSound m w begin h =
    elim w.spawned
      as (λ n.
        IsSound m
          (elim n as (λ _. World) [
            | zero ↦ w
            | suc n ↦ record w {
              guardian = restart_begin w.guardian;
              spawned = n;
              restarting = w.restarting + 1;
            }
          ]).guardian) [ zero ↦ h | suc n ↦ restart_begin-IsSound m w.guardian h ]
step-IsSound m w (finish a b now) h =
    elim w.restarting
      as (λ n.
        IsSound m
          (elim n as (λ _. World) [
            | zero ↦ w
            | suc n ↦ record w { guardian = (start_mcp a b now w.guardian).0; restarting = n }
          ]).guardian) [ zero ↦ h | suc n ↦ start_mcp-IsSound m a b now w.guardian h ]
step-IsSound m w (admin a b now) h =
    start_mcp-IsSound m a b now (restart_begin w.guardian) (restart_begin-IsSound m w.guardian h)

-- From a sound guardian, any interleaving of checks, restarts and their outcomes leaves a sound one.
pub run-IsSound :
    (m : ℤ) (w : World) (es : List Event) → IsSound m w.guardian → IsSound m (run m w es).guardian
unfolding run
run-IsSound m w [] h = h
run-IsSound m w (e ∷ es) h = run-IsSound m (step m w e) es (step-IsSound m w e h)

pub start-IsSound :
    (m : ℤ) (has_mcp initial_ok start_ok health_ok : Bool) (now : ℕ)
    → IsSound m (start has_mcp initial_ok start_ok health_ok now new).0
unfolding start new start_mcp started to_cli
start-IsSound m has_mcp initial_ok start_ok health_ok now = ground arith
