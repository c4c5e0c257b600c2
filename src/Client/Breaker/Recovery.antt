-- ===== src/Client/Breaker/Recovery.antt =====
-- What a trial of a half-open breaker leads to: recovery, or another cooldown.
use mathlib.Core.Path.{sym, subst₂}
use xktmcp.Prelude.{sym, ℕ, suc, ◌+◌, ◌≤◌, ◌<◌, ◌≡◌, ◌∙◌, true, List, [], ◌∷◌, arith, All}
use xktmcp.Client.Breaker
use xktmcp.Client.Breaker.{
  CircuitState, state_closed, state_open, state_half_open, CircuitBreaker, Refusal,
  err_circuit_open, record_success, record_failure,
}
use xktmcp.Client.Breaker.Invariant.{Inv, Call, success, failure, step, step-SameLimits}
use xktmcp.Client.Breaker.Calls.{run, admits, admitted, time_of, cooling_refuses}

-- The successes that a sequence of calls reports.
unfoldable pub successes : List Call → ℕ
successes [] = 0
successes (Call.allow now ∷ calls) = successes calls
successes (success now ∷ calls) = suc (successes calls)
successes (failure now ∷ calls) = successes calls

-- A request that asks, or the report of a success.
abbrev pub IsHopeful : Call → Type 0
IsHopeful (Call.allow now) = Unit
IsHopeful (success now) = Unit
IsHopeful (failure now) = ⊥

success_probing :
    (now : ℕ) (cb : CircuitBreaker)
    → cb.enabled ≡ true
    → cb.state ≡ state_half_open
    → ((cb.probe_successes + 1 < cb.half_open_probes)
        → ((step (success now) cb).state ≡ state_half_open)
          × ((step (success now) cb).probe_successes ≡ cb.probe_successes + 1))
      × (cb.half_open_probes ≤ cb.probe_successes + 1
          → ((step (success now) cb).state ≡ state_closed)
            × ((step (success now) cb).consecutive_failures ≡ 0))
unfolding step record_success
success_probing now cb on st = (ground arith, ground arith)

-- A request that asks a half-open breaker leaves the count of successes alone.
allow_trial :
    (now : ℕ) (cb : CircuitBreaker)
    → cb.enabled ≡ true
    → cb.state ≡ state_half_open
    → ((step (Call.allow now) cb).state ≡ state_half_open)
      × ((step (Call.allow now) cb).probe_successes ≡ cb.probe_successes)
unfolding step Breaker.allow
allow_trial now cb on st = ground arith

-- Below `half_open_probes` successes a half-open breaker stays half open and counts them; the next
-- success closes it.
half_open_recovers :
    (calls : List Call) (last : ℕ) (cb : CircuitBreaker)
    → cb.enabled ≡ true
    → cb.state ≡ state_half_open
    → All IsHopeful calls
    → cb.probe_successes + suc (successes calls) ≡ cb.half_open_probes
    → ((run calls cb).state ≡ state_half_open)
      × ((step (success last) (run calls cb)).state ≡ state_closed)
      × ((step (success last) (run calls cb)).consecutive_failures ≡ 0)
unfolding run successes
half_open_recovers [] last cb on st all h =
    let (closed, clean) = (success_probing last cb on st).1 (omega arith) in (st, closed, clean)
half_open_recovers (Call.allow now ∷ calls) last cb on st all h =
    let (still, count) = allow_trial now cb on st in
    let same = step-SameLimits (Call.allow now) cb in
    half_open_recovers calls last (step (Call.allow now) cb) (same.enabled ∙ on) still all.1
      (omega (arith, count, same.probes))
half_open_recovers (success now ∷ calls) last cb on st all h =
    let (still, count) = (success_probing now cb on st).0 (omega arith) in
    let same = step-SameLimits (success now) cb in
    half_open_recovers calls last (step (success now) cb) (same.enabled ∙ on) still all.1
      (omega (arith, count, same.probes))
half_open_recovers (failure now ∷ calls) last cb on st all h = absurd all.0

allow_cooled :
    (now : ℕ) (cb : CircuitBreaker)
    → cb.enabled ≡ true
    → cb.state ≡ state_open
    → cb.opened_at + cb.cooldown ≤ now
    → (admits (Call.allow now) cb ≡ 1)
      × ((step (Call.allow now) cb).state ≡ state_half_open)
      × ((step (Call.allow now) cb).probe_successes ≡ 0)
unfolding step Breaker.allow
allow_cooled now cb on st h = ground arith

-- After its cooldown an open breaker lets a request through and is half open. Whatever mixture of
-- requests that ask and reported successes follows, at any times and with no failure in it, the
-- breaker is still half open one success short of `half_open_probes`, and the next success closes it
-- with no failure counted.
pub open_recovers :
    (now last : ℕ) (calls : List Call) (cb : CircuitBreaker)
    → Inv cb
    → cb.state ≡ state_open
    → cb.opened_at + cb.cooldown ≤ now
    → All IsHopeful calls
    → suc (successes calls) ≡ cb.half_open_probes
    → let trial = run (Call.allow now ∷ calls) cb in
      (admits (Call.allow now) cb ≡ 1)
      × (trial.state ≡ state_half_open)
      × ((step (success last) trial).state ≡ state_closed)
      × ((step (success last) trial).consecutive_failures ≡ 0)
unfolding run
open_recovers now last calls cb h st cooled all enough =
    let (one, half, none_yet) = allow_cooled now cb h.on st cooled in
    let same = step-SameLimits (Call.allow now) cb in
    let (still, closed, clean) =
      half_open_recovers calls last (step (Call.allow now) cb) (same.enabled ∙ h.on) half all
        (omega (arith, none_yet, same.probes, enough)) in
    (one, still, closed, clean)

relapse_opens :
    (now : ℕ) (cb : CircuitBreaker)
    → Inv cb
    → cb.state ≡ state_half_open
    → ((step (failure now) cb).state ≡ state_open) × ((step (failure now) cb).opened_at ≡ now)
unfolding step record_failure
relapse_opens now cb h st = ground (arith, h.on)

-- A failed probe restarts the cooldown: until it is over, no sequence of calls lets a request
-- through.
pub relapse_refuses :
    (now : ℕ) (calls : List Call) (cb : CircuitBreaker)
    → Inv cb
    → cb.state ≡ state_half_open
    → All (λ call. time_of call < now + cb.cooldown) calls
    → admitted calls (step (failure now) cb) ≡ 0
relapse_refuses now calls cb h st all =
    let (opened, at) = relapse_opens now cb h st in
    let same = step-SameLimits (failure now) cb in
    (cooling_refuses calls (step (failure now) cb) (same.enabled ∙ h.on) opened (
      subst₂ (λ (t d : ℕ). All (λ call. time_of call < t + d) calls) (sym at) (sym same.cooldown)
        all)).0
