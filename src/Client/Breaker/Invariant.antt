-- ===== src/Client/Breaker/Invariant.antt =====
-- What holds of a circuit breaker between two calls.
use xktmcp.Prelude.{◌∷◌, ◌⊎◌, ℕ, ◌≤◌, ◌<◌, ◌≡◌, ◌≢◌, true, arith}
use xktmcp.Prelude.Int.{ℤ}
use xktmcp.Prelude.Text.{Text}
use xktmcp.Client.Breaker
use xktmcp.Client.Breaker.{
  CircuitState, state_closed, state_open, state_half_open, CircuitBreaker, Refusal,
  err_circuit_open, new_circuit_breaker, record_success, record_failure, reset,
}

pub record Inv (cb : CircuitBreaker) : Type 0 where
  pub on : cb.enabled ≡ true
  pub threshold_positive : 0 < cb.failure_threshold
  pub probes_positive : 0 < cb.half_open_probes
  pub cooldown_positive : 0 < cb.cooldown
  pub closed_below : cb.state ≡ state_closed → cb.consecutive_failures < cb.failure_threshold
  pub open_at : cb.state ≢ state_closed → cb.consecutive_failures ≡ cb.failure_threshold
  pub idle : cb.state ≢ state_half_open → (cb.probes_in_flight ≡ 0) × (cb.probe_successes ≡ 0)
  pub probing :
      cb.state ≡ state_half_open
      → (cb.probes_in_flight ≤ cb.half_open_probes) × (cb.probe_successes < cb.half_open_probes)

-- Whatever the parameters, a new breaker is closed and satisfies the invariant.
pub new-Inv :
    (name : Text) (threshold cooldown probes : ℤ)
    → Inv (new_circuit_breaker name threshold cooldown probes)
unfolding new_circuit_breaker
new-Inv name threshold cooldown probes = ground arith

-- A call from outside: `Allow`, or the report of a request's end, at a time.
pub data Call : Type 0 where
  allow success failure : ℕ → Call

unfoldable pub step : Call → CircuitBreaker → CircuitBreaker
step (Call.allow now) cb = (Breaker.allow now cb).0
step (success now) cb = record_success cb
step (failure now) cb = record_failure now cb

-- Every call keeps the invariant.
pub step-Inv : (call : Call) (cb : CircuitBreaker) → Inv cb → Inv (step call cb)
unfolding step Breaker.allow record_success record_failure
step-Inv (Call.allow now) cb h = ground arith
step-Inv (success now) cb h = ground arith
step-Inv (failure now) cb h = ground arith

-- The diagram of the states.
pub data Edge : CircuitState → CircuitState → Type 0 where
  trip : Edge state_closed state_open
  probe : Edge state_open state_half_open
  relapse : Edge state_half_open state_open
  recover : Edge state_half_open state_closed

-- A call either keeps the state and reports nothing, or follows an edge of the diagram and reports
-- the new state to the metrics once.
pub step-Edge :
    (call : Call) (cb : CircuitBreaker)
    → ((step call cb).state ≡ cb.state) × ((step call cb).observed ≡ cb.observed)
      ⊎ Edge cb.state (step call cb).state
        × ((step call cb).observed ≡ (step call cb).state ∷ cb.observed)
unfolding step Breaker.allow record_success record_failure
step-Edge (Call.allow now) cb = grind (arith, trip, probe, relapse, recover)
step-Edge (success now) cb = grind (arith, trip, probe, relapse, recover)
step-Edge (failure now) cb = grind (arith, trip, probe, relapse, recover)

-- The parameters never change.
pub record SameLimits (a b : CircuitBreaker) : Type 0 where
  pub enabled : a.enabled ≡ b.enabled
  pub threshold : a.failure_threshold ≡ b.failure_threshold
  pub cooldown : a.cooldown ≡ b.cooldown
  pub probes : a.half_open_probes ≡ b.half_open_probes

pub step-SameLimits : (call : Call) (cb : CircuitBreaker) → SameLimits (step call cb) cb
unfolding step Breaker.allow record_success record_failure
step-SameLimits (Call.allow now) cb = ground arith
step-SameLimits (success now) cb = ground arith
step-SameLimits (failure now) cb = ground arith
