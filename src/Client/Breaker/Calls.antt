-- ===== src/Client/Breaker/Calls.antt =====
-- Sequences of calls on a circuit breaker, in the order in which they lock it.
use xktmcp.Prelude.{
  ℕ, ◌+◌, ◌≤◌, ◌<◌, ◌≡◌, ◌∙◌, refl, true, Option, none, some, List, [], ◌∷◌, arith, if◌then◌else◌,
  All, leb,
}
use xktmcp.Client.Breaker
use xktmcp.Client.Breaker.{
  CircuitState, state_closed, state_open, state_half_open, CircuitBreaker, Refusal,
  err_circuit_open, record_success, record_failure,
}
use xktmcp.Client.Breaker.Invariant.{Inv, Call, success, failure, step, step-Inv, step-SameLimits}

unfoldable pub run : List Call → CircuitBreaker → CircuitBreaker
run [] cb = cb
run (call ∷ calls) cb = run calls (step call cb)

pub run-Inv : (calls : List Call) (cb : CircuitBreaker) → Inv cb → Inv (run calls cb)
unfolding run
run-Inv [] cb h = h
run-Inv (call ∷ calls) cb h = run-Inv calls (step call cb) (step-Inv call cb h)

-- The requests that a call lets through: one for an `Allow` without refusal.
abbrev pub admits : Call → CircuitBreaker → ℕ
admits (Call.allow now) cb = elim (Breaker.allow now cb).1 [ none ↦ 1 | some _ ↦ 0 ]
admits (success now) cb = 0
admits (failure now) cb = 0

pub admitted : List Call → CircuitBreaker → ℕ
admitted [] cb = 0
admitted (call ∷ calls) cb = admits call cb + admitted calls (step call cb)

abbrev pub time_of : Call → ℕ
time_of (Call.allow now) = now
time_of (success now) = now
time_of (failure now) = now

step_cooling :
    (call : Call) (cb : CircuitBreaker)
    → cb.enabled ≡ true
    → cb.state ≡ state_open
    → time_of call < cb.opened_at + cb.cooldown
    → (step call cb ≡ cb) × (admits call cb ≡ 0)
unfolding step Breaker.allow record_success record_failure
step_cooling (Call.allow now) cb on st t = ground arith
step_cooling (success now) cb on st t = ground arith
step_cooling (failure now) cb on st t = ground arith

-- While an open breaker cools down, no sequence of calls lets a request through or changes it.
pub cooling_refuses :
    (calls : List Call) (cb : CircuitBreaker)
    → cb.enabled ≡ true
    → cb.state ≡ state_open
    → All (λ call. time_of call < cb.opened_at + cb.cooldown) calls
    → (admitted calls cb ≡ 0) × (run calls cb ≡ cb)
unfolding run admitted
cooling_refuses [] cb on st all = (refl, refl)
cooling_refuses (call ∷ calls) cb on st all =
    let (same, blocked) = step_cooling call cb on st all.0 in
    let (none_later, still) = cooling_refuses calls cb on st all.1 in
    rw same (omega (arith, blocked, none_later), still)

-- The `Allow` calls of a sequence of times.
abbrev pub allows : List ℕ → List Call
allows [] = []
allows (now ∷ times) = Call.allow now ∷ allows times

allow_probing :
    (now : ℕ) (cb : CircuitBreaker)
    → cb.enabled ≡ true
    → cb.state ≡ state_half_open
    → cb.probes_in_flight ≤ cb.half_open_probes
    → (admits (Call.allow now) cb + cb.probes_in_flight
        ≡ (step (Call.allow now) cb).probes_in_flight)
      × ((step (Call.allow now) cb).probes_in_flight ≤ cb.half_open_probes)
      × ((step (Call.allow now) cb).state ≡ state_half_open)
unfolding step Breaker.allow
allow_probing now cb on st h = ground arith

half_open_admits :
    (times : List ℕ) (cb : CircuitBreaker)
    → cb.enabled ≡ true
    → cb.state ≡ state_half_open
    → cb.probes_in_flight ≤ cb.half_open_probes
    → admitted (allows times) cb + cb.probes_in_flight ≤ cb.half_open_probes
unfolding admitted
half_open_admits [] cb on st h = omega arith
half_open_admits (now ∷ times) cb on st h =
    let (count, bound, still) = allow_probing now cb on st h in
    let same = step-SameLimits (Call.allow now) cb in
    omega (
      arith,
      count,
      same.probes,
      half_open_admits times (step (Call.allow now) cb) (same.enabled ∙ on) still
          (omega (arith, bound, same.probes)),
    )

-- What a half-open breaker lets through before any request reports back, at any times: never more
-- than the probes that are left.
pub half_open_bounded :
    (times : List ℕ) (cb : CircuitBreaker)
    → Inv cb
    → cb.state ≡ state_half_open
    → admitted (allows times) cb + cb.probes_in_flight ≤ cb.half_open_probes
half_open_bounded times cb h st = half_open_admits times cb h.on st (h.probing st).0

-- The time at which a closed breaker opens: at the failure that makes `threshold` in a row,
-- `streak` of them already counted.
unfoldable pub trip_time : ℕ → ℕ → List Call → Option ℕ
trip_time threshold streak [] = none
trip_time threshold streak (Call.allow now ∷ calls) = trip_time threshold streak calls
trip_time threshold streak (success now ∷ calls) = trip_time threshold 0 calls
trip_time threshold streak (failure now ∷ calls) =
    let later = trip_time threshold (streak + 1) calls in
    if leb threshold (streak + 1) then some now else later

-- The opening time of the first open state of a run.
pub first_open : List Call → CircuitBreaker → Option ℕ
first_open [] cb = none
first_open (call ∷ calls) cb = elim (step call cb).state [
  | state_open ↦ some (step call cb).opened_at
  | _ ↦ first_open calls (step call cb)
]

-- A closed breaker opens exactly at the failure that completes `failure_threshold` failures with
-- no success between them, and not before.
pub first_open-trip_time :
    (calls : List Call) (cb : CircuitBreaker)
    → cb.enabled ≡ true
    → cb.state ≡ state_closed
    → first_open calls cb ≡ trip_time cb.failure_threshold cb.consecutive_failures calls
unfolding first_open trip_time step Breaker.allow record_success record_failure
first_open-trip_time [] cb on st = refl
first_open-trip_time (Call.allow now ∷ calls) cb on st =
    ground (arith, first_open-trip_time calls cb)
first_open-trip_time (success now ∷ calls) cb on st =
    ground (arith, first_open-trip_time calls (record cb { consecutive_failures = 0 }))
first_open-trip_time (failure now ∷ calls) cb on st = ground (
  arith,
  first_open-trip_time calls (record cb { consecutive_failures = cb.consecutive_failures + 1 }),
)
