-- ===== src/Client/Retry/Guarded.antt =====
-- Requests behind the circuit breaker: what each result does to it, and how a canceled probe
-- leaves it.
use xktmcp.Prelude.{
  false, refl, none, ◌≤◌, ◌+◌, some, true, All, arith, Option, ◌≡◌, if◌then◌else◌, [], ◌∷◌, List, ℕ,
}
use xktmcp.Client.Breaker
use xktmcp.Client.Breaker.{
  err_circuit_open, Refusal, CircuitBreaker, state_closed, state_half_open, state_open,
  record_success, record_failure,
}
use xktmcp.Client.Breaker.Invariant.{Inv, Call, success, failure, step}
use xktmcp.Client.Breaker.Calls.{run}
use xktmcp.Client.Retry.{
  do_request_with_retry_amid, response, request_for_attempt, receive, false, send,
  retryable_request, attempts, Attempt, max_attempts, true, some, Option, [], List, ℕ, World,
  Request, Run, Err, circuit_open, Result, ok, err, ended, is_caller_canceled,
  do_request_with_retry, do_request_with_retry_inner,
}

-- What a request reports to the breaker at its end: a response is a success, whatever its status,
-- a request that its caller canceled reports nothing, and any other error is a failure.
pub report_of : Result ℕ → ℕ → List Call
report_of (ok status) now = success now ∷ []
report_of (err e) now = if is_caller_canceled e then [] else failure now ∷ []

-- A request that the breaker refuses sends nothing and leaves the breaker as it was. Any other
-- asks the breaker once, runs the loop of attempts, and reports its result once; `calls` are those of
-- other requests in between, in the order in which they lock the breaker.
pub do_request_with_retry_amid_lem :
    (w : World) (start stop : ℕ) (calls : List Call) (req : Option Request) (cb : CircuitBreaker)
    → do_request_with_retry_amid w start stop (run calls) req cb
      ≡ elim (Breaker.allow start cb).1 as (λ x. CircuitBreaker × Run) [
        | some _ ↦ (cb, ended (err circuit_open))
        | none ↦ (
          run
              (report_of (do_request_with_retry_inner w req).result stop)
              (run calls (step (Call.allow start) cb)),
          do_request_with_retry_inner w req,
        )
      ]
unfolding do_request_with_retry_amid run report_of step Breaker.allow
do_request_with_retry_amid_lem w start stop calls req cb = ground arith

-- One request after another on one breaker.
pub record Job : Type 0 where
  pub world : World
  pub start : ℕ
  pub stop : ℕ
  pub request : Option Request

abbrev pub serve_one : Job → CircuitBreaker → CircuitBreaker × Run
serve_one j = do_request_with_retry j.world j.start j.stop j.request

unfoldable pub serve : List Job → CircuitBreaker → CircuitBreaker
serve [] cb = cb
serve (j ∷ jobs) cb = serve jobs (serve_one j cb).0

unfoldable pub outcomes : List Job → CircuitBreaker → List Run
outcomes [] cb = []
outcomes (j ∷ jobs) cb = (serve_one j cb).1 ∷ outcomes jobs (serve_one j cb).0

-- Half open, with every probe handed out.
pub record IsExhausted (cb : CircuitBreaker) : Type 0 where
  pub on : cb.enabled ≡ true
  pub half_open : cb.state ≡ state_half_open
  pub all_out : cb.half_open_probes ≤ cb.probes_in_flight

allow_exhausted :
    (now : ℕ) (cb : CircuitBreaker)
    → IsExhausted cb
    → (Breaker.allow now cb).1 ≡ some err_circuit_open
unfolding Breaker.allow
allow_exhausted now cb h = ground (arith, h.on, h.half_open)

serve_one_exhausted :
    (j : Job) (cb : CircuitBreaker)
    → IsExhausted cb
    → serve_one j cb ≡ (cb, ended (err circuit_open))
unfolding do_request_with_retry run
serve_one_exhausted j cb h = ground (
  arith,
  do_request_with_retry_amid_lem j.world j.start j.stop [] j.request cb,
  allow_exhausted j.start cb h,
)

exhausted_refuses :
    (jobs : List Job) (cb : CircuitBreaker)
    → IsExhausted cb
    → (serve jobs cb ≡ cb) × All (λ r. r ≡ ended (err circuit_open)) (outcomes jobs cb)
unfolding serve outcomes
exhausted_refuses [] cb h = (refl, tt)
exhausted_refuses (j ∷ jobs) cb h =
    let (still, refused) = exhausted_refuses jobs cb h in
    rw (serve_one_exhausted j cb h) (still, (refl, refused))

canceled_probe_exhausts :
    (w : World) (start stop : ℕ) (req : Option Request) (cb : CircuitBreaker) (e : Err)
    → Inv cb
    → cb.state ≡ state_open
    → cb.half_open_probes ≡ 1
    → cb.opened_at + cb.cooldown ≤ start
    → (do_request_with_retry_inner w req).result ≡ err e
    → is_caller_canceled e ≡ true
    → IsExhausted (do_request_with_retry w start stop req cb).0
unfolding do_request_with_retry do_request_with_retry_amid Breaker.allow
canceled_probe_exhausts w start stop req cb e h st one cooled failed_with gone = record {
  on = ground (arith, failed_with, gone, h.on);
  half_open = ground (arith, failed_with, gone, h.on);
  all_out = ground (arith, failed_with, gone, h.on);
}

-- With one probe (the default): once the caller of the probe cancels it, every later request is
-- refused without being sent, in whatever world and at whatever time, and the breaker stays as it
-- is. Nothing gives the probe back.
pub canceled_probe_blocks :
    (w : World) (start stop : ℕ) (req : Option Request) (cb : CircuitBreaker) (e : Err)
    → Inv cb
    → cb.state ≡ state_open
    → cb.half_open_probes ≡ 1
    → cb.opened_at + cb.cooldown ≤ start
    → (do_request_with_retry_inner w req).result ≡ err e
    → is_caller_canceled e ≡ true
    → (jobs : List Job)
    → let after = (do_request_with_retry w start stop req cb).0 in
      (serve jobs after ≡ after) × All (λ r. r ≡ ended (err circuit_open)) (outcomes jobs after)
canceled_probe_blocks w start stop req cb e h st one cooled failed_with gone jobs =
    exhausted_refuses jobs (do_request_with_retry w start stop req cb).0
      (canceled_probe_exhausts w start stop req cb e h st one cooled failed_with gone)

-- The reply of a request that may not be repeated, with no end of its context, is its result.
pub single_reply :
    (w : World) (req : Option Request) (a : Attempt) (kept : Request) (status : ℕ)
    → retryable_request req ≡ false
    → w.ctx_err 1 ≡ none
    → request_for_attempt req ≡ ok (a, kept)
    → w.reply 1 a ≡ response status
    → (do_request_with_retry_inner w req).result ≡ ok status
unfolding do_request_with_retry_inner max_attempts attempts send receive
single_reply w req a kept status once calm prepared answer =
    ground (arith, once, calm, prepared, answer)

-- A request that may not be repeated, such as a plain POST, keeps a closed breaker closed whatever
-- the status of its response: a server error counts as a success.
pub server_error_counts_as_success :
    (w : World) (start stop status : ℕ) (req : Option Request) (a : Attempt) (kept : Request)
    (cb : CircuitBreaker)
    → cb.enabled ≡ true
    → cb.state ≡ state_closed
    → retryable_request req ≡ false
    → w.ctx_err 1 ≡ none
    → request_for_attempt req ≡ ok (a, kept)
    → w.reply 1 a ≡ response status
    → ((do_request_with_retry w start stop req cb).1.result ≡ ok status)
      × ((do_request_with_retry w start stop req cb).0 ≡ record cb { consecutive_failures = 0 })
unfolding do_request_with_retry do_request_with_retry_amid Breaker.allow record_success
server_error_counts_as_success w start stop status req a kept cb on st once calm prepared answer =
    let r = single_reply w req a kept status once calm prepared answer in
    (ground (arith, r), ground (arith, r))
