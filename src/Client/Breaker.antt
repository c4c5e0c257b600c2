-- ===== src/Client/Breaker.antt =====
-- internal/client/breaker.go: the circuit breaker. A method that locks `cb.mu` is one step; the
-- clock `cb.nowFn()` is the argument `now`, in nanoseconds. A nil receiver is no value here: its
-- methods return at once, as those of a disabled breaker do.
pub mod Invariant
pub mod Calls
pub mod Recovery
use xktmcp.Prelude.{
  ℕ, zero, suc, ◌+◌, ◌-◌, Bool, true, false, Option, none, some, List, [], ◌∷◌, ltb, leb, ◌==◌,
  nat_eq, if◌then◌else◌,
}
use xktmcp.Prelude.Int.{ℤ, positive_or}
use xktmcp.Prelude.Text.{Text, codes}

pub data CircuitState : Type 0 where
  state_closed state_open state_half_open : CircuitState

-- circuitState.String
unfoldable pub state_string : CircuitState → Text
state_string state_closed = codes "closed"
state_string state_open = codes "open"
state_string state_half_open = codes "half-open"

-- cb.state == to
unfoldable pub same_state : CircuitState → CircuitState → Bool
same_state state_closed state_closed = true
same_state state_open state_open = true
same_state state_half_open state_half_open = true
same_state _ _ = false

abbrev pub default_failure_threshold : ℕ
default_failure_threshold = 5

-- 10 * time.Second
abbrev pub default_cooldown : ℕ
default_cooldown = 10_000_000_000

abbrev pub default_half_open_probes : ℕ
default_half_open_probes = 1

-- `observed` lists what `metrics.ObserveCircuitBreakerTransition` was told, the latest first.
pub record CircuitBreaker : Type 0 where
  pub name : Text
  pub enabled : Bool
  pub failure_threshold : ℕ
  pub cooldown : ℕ
  pub half_open_probes : ℕ
  pub state : CircuitState
  pub consecutive_failures : ℕ
  pub opened_at : ℕ
  pub probes_in_flight : ℕ
  pub probe_successes : ℕ
  pub observed : List CircuitState

unfoldable pub new_circuit_breaker : Text → ℤ → ℤ → ℤ → CircuitBreaker
new_circuit_breaker name failure_threshold cooldown half_open_probes = record {
  name = name;
  enabled = true;
  failure_threshold = positive_or failure_threshold default_failure_threshold;
  cooldown = positive_or cooldown default_cooldown;
  half_open_probes = positive_or half_open_probes default_half_open_probes;
  state = state_closed;
  consecutive_failures = 0;
  opened_at = 0;
  probes_in_flight = 0;
  probe_successes = 0;
  observed = [];
}

unfoldable pub transition_locked : CircuitState → CircuitBreaker → CircuitBreaker
unfolding same_state
transition_locked to cb =
    if same_state cb.state to then cb else record cb { state = to; observed = to ∷ cb.observed }

-- `none` is nil, and `some err_circuit_open` the refusal.
pub data Refusal : Type 0 where
  err_circuit_open : Refusal

-- The `switch` of `Allow`.
allow_in : CircuitState → ℕ → CircuitBreaker → CircuitBreaker × Option Refusal
unfolding transition_locked
allow_in state_closed now cb = (cb, none)
allow_in state_open now cb =
    if ltb now (cb.opened_at + cb.cooldown) then (cb, some err_circuit_open) else (
      record (transition_locked state_half_open cb) { probes_in_flight = 1; probe_successes = 0 },
      none,
    )
allow_in state_half_open now cb =
    if ltb cb.probes_in_flight cb.half_open_probes
    then (record cb { probes_in_flight = cb.probes_in_flight + 1 }, none)
    else (cb, some err_circuit_open)

unfoldable pub allow : ℕ → CircuitBreaker → CircuitBreaker × Option Refusal
unfolding allow_in
allow now cb = if cb.enabled then allow_in cb.state now cb else (cb, none)

-- The end of a half-open success: enough of them close the breaker.
close_after : CircuitBreaker → CircuitBreaker
unfolding transition_locked
close_after cb =
    if leb cb.half_open_probes cb.probe_successes
    then record (transition_locked state_closed cb) {
      consecutive_failures = 0;
      probes_in_flight = 0;
      probe_successes = 0;
    }
    else cb

-- The `switch` of `RecordSuccess`; `probesInFlight--` runs only above 0, as truncated `-` does.
record_success_in : CircuitState → CircuitBreaker → CircuitBreaker
unfolding close_after
record_success_in state_closed cb = record cb { consecutive_failures = 0 }
record_success_in state_open cb = cb
record_success_in state_half_open cb = close_after (record cb {
  probes_in_flight = cb.probes_in_flight - 1;
  probe_successes = cb.probe_successes + 1;
})

unfoldable pub record_success : CircuitBreaker → CircuitBreaker
unfolding record_success_in
record_success cb = if cb.enabled then record_success_in cb.state cb else cb

-- The end of a closed failure: enough of them in a row open the breaker.
open_after : ℕ → CircuitBreaker → CircuitBreaker
unfolding transition_locked
open_after now cb =
    if leb cb.failure_threshold cb.consecutive_failures
    then record (transition_locked state_open cb) { opened_at = now }
    else cb

record_failure_in : CircuitState → ℕ → CircuitBreaker → CircuitBreaker
unfolding open_after transition_locked
record_failure_in state_closed now cb =
    open_after now (record cb { consecutive_failures = cb.consecutive_failures + 1 })
record_failure_in state_open now cb = cb
record_failure_in state_half_open now cb = record (transition_locked state_open cb) {
  opened_at = now;
  probes_in_flight = 0;
  probe_successes = 0;
}

unfoldable pub record_failure : ℕ → CircuitBreaker → CircuitBreaker
unfolding record_failure_in
record_failure now cb = if cb.enabled then record_failure_in cb.state now cb else cb

unfoldable pub reset : CircuitBreaker → CircuitBreaker
reset cb = record cb {
  state = state_closed;
  consecutive_failures = 0;
  probes_in_flight = 0;
  probe_successes = 0;
  opened_at = 0;
}
