-- ===== src/Guardian.antt =====
-- guardian/guardian.go: the watcher of the MCP daemon. A health check, the start of a restart and the
-- end of one are the steps of a world that also counts the restart goroutines on their way; what the
-- executor answers is an argument, `none` for a call that returns no error.
pub mod Soundness
pub mod Escalation
mod Examples
use Prim.Native.String.{String}
use text.Mathlib.Text.{◌==◌ as str_eq}
use text.Mathlib.TextEquality.{eq_iff}
use qmdsr.Prelude.{
  ℕ, zero, suc, ◌+◌, ◌-◌, ◌*◌, ◌/◌, ◌%◌, ◌^◌, ◌≤◌, ◌<◌, min, max, ◌≡◌, refl, sym, ap, ◌∙◌, ◌≢◌, ◌↔◌,
  ◌⊎◌, inl, inr, Bool, true, false, not, ◌&&◌, ◌||◌, Option, none, some, List, [], ◌∷◌, ◌++◌, map,
  arith, ltb, leb, ◌==◌, if◌then◌else◌, ltb→lt, lt→ltb, leb→le, Bool-cases, Option-cases, length,
  take, replicate, select, exists, All, length-append, length-take, length-select-le, All-append,
  All-take,
}
use qmdsr.Prelude.Int.{
  ℤ, pos, negsuc, pos_part, neg_part, sub_ℕ, ◌≤ℤ◌, ltb_ℤ, leb_ℤ, is_zero, is_nonpos, is_pos,
}
use qmdsr.Types.{HealthLevel, healthy, degraded, unhealthy, critical}

pub record Guardian : Type 0 where
  pub health : HealthLevel
  pub last_check : ℕ
  pub last_healthy : ℕ
  pub fail_count : ℕ
  pub restart_count : ℕ
  pub cli_mode : Bool

-- `New`: the zero values.
unfoldable pub new : Guardian
new = record {
  health = healthy;
  last_check = 0;
  last_healthy = 0;
  fail_count = 0;
  restart_count = 0;
  cli_mode = false;
}

-- The guardian, the restarts spawned and not begun, and those between `MCPStop` and their outcome.
pub record World : Type 0 where
  pub guardian : Guardian
  pub spawned : ℕ
  pub restarting : ℕ

unfoldable pub to_cli : Guardian → Guardian
to_cli g = record g { cli_mode = true; health = degraded }

-- The locked part of `startMCP`, after the daemon answered.
unfoldable pub started : Guardian → ℕ → Guardian
started g now = record g { health = healthy; last_healthy = now; cli_mode = false }

-- `startMCP`: whether `MCPStart` and then `MCPHealth` succeed; the result tells success.
unfoldable pub start_mcp : Bool → Bool → ℕ → Guardian → Guardian × Bool
start_mcp start_ok health_ok now g =
    if start_ok && health_ok then (started g now, true) else (g, false)

-- `Start`: the guardian, and whether the check loop runs.
unfoldable pub start : Bool → Bool → Bool → Bool → ℕ → Guardian → Guardian × Bool
start has_mcp initial_ok start_ok health_ok now g =
    if has_mcp
    then (
      if initial_ok
          then g
          else (let (g', fine) = start_mcp start_ok health_ok now g in
              if fine then g' else to_cli g'),
      true,
    )
    else (to_cli g, false)

-- `check`: the guardian, and whether a restart is spawned. `max_retries` is `RestartMaxRetries`.
unfoldable pub check : ℤ → Bool → ℕ → Guardian → Guardian × Bool
check max_retries true now g = (
  record g {
    last_check = now;
    health = healthy;
    last_healthy = now;
    fail_count = 0;
    cli_mode = false;
  },
  false,
)
check max_retries false now g =
    let g' = record g { last_check = now; fail_count = g.fail_count + 1 } in
    if leb_ℤ max_retries (pos (g.fail_count + 1))
    then (record g' { health = degraded; cli_mode = true; fail_count = 0 }, false)
    else (record g' { health = unhealthy }, true)

-- `restartMCP` up to the outcome of `startMCP`.
unfoldable pub restart_begin : Guardian → Guardian
restart_begin g = record g { restart_count = g.restart_count + 1 }

-- `RestartMCP`, which an administrator calls.
unfoldable pub restart_mcp : Bool → Bool → ℕ → Guardian → Guardian × Bool
restart_mcp start_ok health_ok now g = start_mcp start_ok health_ok now (restart_begin g)

-- `Health`: the level, and the count that its message names, if checks have failed.
unfoldable pub health_of : Guardian → HealthLevel × Bool × ℕ
health_of g = (g.health, g.cli_mode, g.fail_count)

-- What can happen after `Start` with the check loop: a tick of the loop, a spawned goroutine that
-- begins, one that ends, and a restart by an administrator, in any order.
pub data Event : Type 0 where
  tick : Bool → ℕ → Event
  begin : Event
  finish : Bool → Bool → ℕ → Event
  admin : Bool → Bool → ℕ → Event

unfoldable pub step : ℤ → World → Event → World
step max_retries w (tick ok now) =
    let (g, spawn) = check max_retries ok now w.guardian in
    record w { guardian = g; spawned = if spawn then w.spawned + 1 else w.spawned }
step max_retries w begin = elim w.spawned [
  | zero ↦ w
  | suc n ↦ record w {
    guardian = restart_begin w.guardian;
    spawned = n;
    restarting = w.restarting + 1;
  }
]
step max_retries w (finish start_ok health_ok now) = elim w.restarting [
  | zero ↦ w
  | suc n ↦ record w { guardian = (start_mcp start_ok health_ok now w.guardian).0; restarting = n }
]
step max_retries w (admin start_ok health_ok now) = record w {
  guardian = (restart_mcp start_ok health_ok now w.guardian).0;
}

unfoldable pub run : ℤ → World → List Event → World
run max_retries w [] = w
run max_retries w (e ∷ es) = run max_retries (step max_retries w e) es
