-- ===== src/Client/Tests.antt =====
-- The breaker and the retries on small examples.
use xktmcp.Prelude.{
  ℕ, zero, suc, ◌+◌, ◌≤◌, ◌<◌, ◌≡◌, ◌⊎◌, if◌then◌else◌, ◌==◌, nat_eq, refl, none, some, true, List,
  [], ◌∷◌, All, arith, length,
}
use xktmcp.Prelude.Int.{pos}
use xktmcp.Prelude.Text.{codes, trim_space}
use xktmcp.Client.Breaker
use xktmcp.Client.Breaker.{
  CircuitBreaker, state_closed, state_half_open, new_circuit_breaker, transition_locked,
  record_success, record_failure,
}
use xktmcp.Client.Breaker.Invariant.{
  Edge, step-Edge, Inv, Call, success, failure, step, new-Inv, step-Inv,
}
use xktmcp.Client.Breaker.Calls.{
  run, run-Inv, admitted, admits, allows, first_open, first_open-trip_time, trip_time,
  cooling_refuses, half_open_bounded,
}
use xktmcp.Client.Breaker.Recovery.{open_recovers, relapse_refuses, successes}
use xktmcp.Client.Retry.{
  failed, network, canceled, circuit_open, ok, err, Request, Attempt, Reply, response, World, ended,
  do_request_with_retry, do_request_with_retry_inner, retryable_request, max_attempts,
  request_for_attempt, attempts, is_caller_canceled,
}
use xktmcp.Client.Retry.Attempts.{is_transient, Tries, do_request_with_retry_inner-Tries}
use xktmcp.Client.Retry.Settles.{retry-Settles}
use xktmcp.Client.Retry.Outage.{Overlap}
use xktmcp.Client.Retry.Guarded.{
  Job, serve, outcomes, canceled_probe_blocks, server_error_counts_as_success,
}

abbrev breaker : CircuitBreaker
breaker = new_circuit_breaker (codes "api") (pos 2) (pos 100) (pos 1)

abbrev failures : List Call
failures = failure 5 ∷ failure 7 ∷ []

abbrev opened : CircuitBreaker
opened = run failures breaker

abbrev trial : CircuitBreaker
trial = step (Call.allow 200) opened

breaker-Inv : Inv breaker
breaker-Inv = new-Inv (codes "api") (pos 2) (pos 100) (pos 1)

opened-Inv : Inv opened
opened-Inv = run-Inv failures breaker breaker-Inv

trial-Inv : Inv trial
trial-Inv = step-Inv (Call.allow 200) opened opened-Inv

step-Inv_example : Inv (step (failure 210) trial)
step-Inv_example = step-Inv (failure 210) trial trial-Inv

cooling_refuses_example :
    (admitted (Call.allow 50 ∷ failure 60 ∷ Call.allow 106 ∷ []) opened ≡ 0)
    × (run (Call.allow 50 ∷ failure 60 ∷ Call.allow 106 ∷ []) opened ≡ opened)
unfolding run step new_circuit_breaker record_failure
cooling_refuses_example =
    cooling_refuses (Call.allow 50 ∷ failure 60 ∷ Call.allow 106 ∷ []) opened refl refl
      (omega arith, (omega arith, (omega arith, tt)))

half_open_bounded_example :
    admitted (allows (201 ∷ 202 ∷ [])) trial + trial.probes_in_flight ≤ trial.half_open_probes
unfolding run step new_circuit_breaker Breaker.allow record_failure transition_locked
half_open_bounded_example = half_open_bounded (201 ∷ 202 ∷ []) trial trial-Inv refl

first_open-trip_time_example :
    first_open (failure 1 ∷ success 2 ∷ failure 3 ∷ Call.allow 4 ∷ failure 5 ∷ []) breaker ≡ some 5
unfolding trip_time new_circuit_breaker
first_open-trip_time_example =
    first_open-trip_time (failure 1 ∷ success 2 ∷ failure 3 ∷ Call.allow 4 ∷ failure 5 ∷ []) breaker
      refl refl

step-Edge_example :
    ((step (failure 210) trial).state ≡ trial.state)
      × ((step (failure 210) trial).observed ≡ trial.observed)
    ⊎ Edge trial.state (step (failure 210) trial).state
      × ((step (failure 210) trial).observed ≡ (step (failure 210) trial).state ∷ trial.observed)
step-Edge_example = step-Edge (failure 210) trial

-- A breaker with two probes, whose second request asks after the success of the first.
abbrev careful : CircuitBreaker
careful = run failures (new_circuit_breaker (codes "api") (pos 2) (pos 100) (pos 2))

abbrev trials : List Call
trials = success 205 ∷ Call.allow 210 ∷ []

open_recovers_example :
    let trial = run (Call.allow 200 ∷ trials) careful in
    (admits (Call.allow 200) careful ≡ 1)
    × (trial.state ≡ state_half_open)
    × ((step (success 220) trial).state ≡ state_closed)
    × ((step (success 220) trial).consecutive_failures ≡ 0)
unfolding run step new_circuit_breaker record_failure successes
open_recovers_example =
    open_recovers 200 220 trials careful
      (run-Inv failures (new_circuit_breaker (codes "api") (pos 2) (pos 100) (pos 2))
        (new-Inv (codes "api") (pos 2) (pos 100) (pos 2)))
      refl (omega arith) (tt, (tt, tt)) refl

relapse_refuses_example :
    admitted (Call.allow 250 ∷ success 260 ∷ []) (step (failure 210) trial) ≡ 0
unfolding run step new_circuit_breaker Breaker.allow record_failure
relapse_refuses_example =
    relapse_refuses 210 (Call.allow 250 ∷ success 260 ∷ []) trial trial-Inv refl
      (omega arith, (omega arith, tt))

abbrev fetch : Request
fetch = record { method = codes "GET"; idempotency_key = []; body = none; get_body = none }

abbrev fetching : Attempt
fetching = record { method = codes "GET"; body = none }

abbrev post : Request
post = record {
  method = codes "POST";
  idempotency_key = [];
  body = some (ok (codes "x"));
  get_body = none;
}

abbrev posting : Attempt
posting = record { method = codes "POST"; body = some (codes "x") }

-- The second attempt succeeds.
abbrev flaky : ℕ → Reply
flaky n = if n == 2 then response 200 else response 503

abbrev calm : World
calm = record {
  ctx_err = λ n. none;
  wait_err = λ n. none;
  random = λ n. 70_000_000;
  reply = λ n a. flaky n;
}

-- The caller has gone.
abbrev gone : World
gone = record {
  ctx_err = λ n. some canceled;
  wait_err = λ n. none;
  random = λ n. 0;
  reply = λ n a. flaky n;
}

do_request_with_retry_inner-Tries_example :
    Tries calm true fetching 3 1 300_000_000 (do_request_with_retry_inner calm (some fetch))
unfolding retryable_request max_attempts request_for_attempt trim_space
do_request_with_retry_inner-Tries_example =
    do_request_with_retry_inner-Tries calm (some fetch) fetching fetch refl

retry-Settles_example :
    ((do_request_with_retry_inner calm (some fetch)).result ≡ ok 200)
    × (length (do_request_with_retry_inner calm (some fetch)).sent ≡ 2)
unfolding retryable_request request_for_attempt trim_space
retry-Settles_example =
    retry-Settles calm (some fetch) fetching fetch 1 200
      (record { no_ctx_err = λ n. refl; no_wait_err = λ n. refl }) refl refl (omega arith)
      (refl, refl) earlier
  where
    earlier : (j : ℕ) → j < 1 → is_transient (flaky (1 + j)) ≡ true
    earlier zero h = refl
    earlier (suc j) h = absurd (omega arith)

abbrev jobs : List Job
jobs = record { world = calm; start = 900; stop = 901; request = some fetch } ∷ []

canceled_probe_blocks_example :
    let after = (do_request_with_retry gone 200 201 (some fetch) opened).0 in
    (serve jobs after ≡ after) × All (λ r. r ≡ ended (err circuit_open)) (outcomes jobs after)
unfolding run step new_circuit_breaker record_failure do_request_with_retry_inner max_attempts
    retryable_request attempts is_caller_canceled trim_space
canceled_probe_blocks_example =
    canceled_probe_blocks gone 200 201 (some fetch) opened canceled opened-Inv refl refl
      (omega arith) refl refl jobs

-- No connection comes about.
abbrev dead : World
dead = record {
  ctx_err = λ n. none;
  wait_err = λ n. none;
  random = λ n. 0;
  reply = λ n a. failed network;
}

-- Another request asks at 3, while this one runs.
abbrev failing : ℕ → Overlap
failing now = (record { world = dead; start = now; stop = now + 4; request = some post }, 3 ∷ [])

abbrev soon : List Job
soon = record { world = calm; start = 50; stop = 51; request = some fetch } ∷ []

server_error_counts_as_success_example :
    ((do_request_with_retry calm 1 2 (some post) breaker).1.result ≡ ok 503)
    × ((do_request_with_retry calm 1 2 (some post) breaker).0
        ≡ record breaker { consecutive_failures = 0 })
unfolding new_circuit_breaker retryable_request request_for_attempt trim_space
server_error_counts_as_success_example =
    server_error_counts_as_success calm 1 2 503 (some post) posting
      (record {
        method = codes "POST";
        idempotency_key = [];
        body = some (ok (codes "x"));
        get_body = some (ok (codes "x"));
      })
      breaker refl refl refl refl refl refl
