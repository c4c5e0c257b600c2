-- ===== src/Client/Retry.antt =====
-- internal/client/client.go: requests with retries, behind the circuit breaker. What the context,
-- the network and the random numbers do is a `World`; metrics and logs are left out.

pub mod Attempts
pub mod Settles
pub mod Guarded
pub mod Outage
use xktmcp.Prelude.{
  ℕ, zero, suc, ◌+◌, ◌*◌, ◌%◌, Bool, true, false, not, ◌&&◌, ◌||◌, Option, none, some, List, [],
  ◌∷◌, ltb, leb, ◌==◌, nat_eq, list_eq, if◌then◌else◌,
}
use xktmcp.Prelude.Text.{Text, codes, trim_space}
use xktmcp.Client.Breaker.{CircuitBreaker, allow, record_success, record_failure}

-- The errors that a request ends with; `canceled` and `deadline_exceeded` are the context's, and
-- `no_error` is nil, the loop's `err` before its first attempt.
pub data Err : Type 0 where
  canceled deadline_exceeded network nil_request buffer_failed replay_failed circuit_open no_error :
      Err
  server_error : ℕ → Err
  after_attempts : ℕ → Err → Err

pub data Result {ℓ} (A : Type ℓ) : Type ℓ where
  ok : A → Result A
  err : Err → Result A

-- A body that is read to its end, or fails to be.
abbrev pub Body : Type 0
Body = Result Text

-- `GetBody` is nil, or opens a body each time that it is called.
pub record Request : Type 0 where
  pub method : Text
  pub idempotency_key : Text
  pub body : Option Body
  pub get_body : Option Body

-- What `http.Client.Do` is called with.
pub record Attempt : Type 0 where
  pub method : Text
  pub body : Option Text

pub data Reply : Type 0 where
  response : ℕ → Reply
  failed : Err → Reply

-- `ctx_err n` and `wait_err n` are what the context says before attempt n and during its wait.
pub record World : Type 0 where
  pub ctx_err : ℕ → Option Err
  pub wait_err : ℕ → Option Err
  pub random : ℕ → ℕ
  pub reply : ℕ → Attempt → Reply

unfoldable pub retryable_request : Option Request → Bool
unfolding trim_space
retryable_request none = false
retryable_request (some req) =
    if not (trim_space req.idempotency_key == [])
    then true
    else req.method == codes "GET"
      || req.method == codes "HEAD"
      || req.method == codes "OPTIONS"
      || req.method == codes "TRACE"

-- rand.Int63n(backoff) is some number below `backoff`.
unfoldable pub full_jitter : ℕ → ℕ → ℕ
full_jitter zero random = 0
full_jitter (suc n) random = random % suc n

attempt_of : Request → Option Text → Attempt
attempt_of req body = record { method = req.method; body = body }

-- Opens the body; the request that is kept has `GetBody` set.
replay : Request → Body → Result (Attempt × Request)
unfolding attempt_of
replay req (ok payload) =
    ok (attempt_of req (some payload), record req { get_body = some (ok payload) })
replay req (err e) = err replay_failed

-- The body is read where `GetBody` is nil, and replayed from its copy.
buffered : Request → Body → Option Body → Result (Attempt × Request)
unfolding replay
buffered req body (some again) = replay req again
buffered req (ok payload) none = replay req (ok payload)
buffered req (err e) none = err buffer_failed

-- The attempt, and the request with what was assigned to it.
unfoldable pub request_for_attempt : Option Request → Result (Attempt × Request)
unfolding buffered attempt_of
request_for_attempt none = err nil_request
request_for_attempt (some req) = elim req.body [
  | none ↦ ok (attempt_of req none, req)
  | some body ↦ buffered req body req.get_body
]

-- 500 <= status <= 599
abbrev pub is_server_error : ℕ → Bool
is_server_error status = leb 500 status && leb status 599

-- What a request did: the attempts that were sent, the nanoseconds waited, and its result, the
-- status of the response or an error.
pub record Run : Type 0 where
  pub sent : List Attempt
  pub waited : ℕ
  pub result : Result ℕ

abbrev pub ended : Result ℕ → Run
ended r = record { sent = []; waited = 0; result = r }

abbrev pub after_wait : ℕ → Run → Run
after_wait n r = record r { waited = n + r.waited }

abbrev pub after_sending : Attempt → Run → Run
after_sending a r = record r { sent = a ∷ r.sent }

-- 100 * time.Millisecond
abbrev pub first_backoff : ℕ
first_backoff = 100_000_000

unfoldable pub max_attempts : Option Request → ℕ
unfolding retryable_request
max_attempts req = if retryable_request req then 3 else 1

module _ (w : World) (again : Bool) (total : ℕ) where
  -- The reply to an attempt: `retry` is the rest of the loop, from the error of this attempt.
  receive : Reply → ℕ → (Err → Run) → Run
  receive (response status) n retry =
      if again && is_server_error status then retry (server_error status) else ended (ok status)
  receive (failed e) n retry = if again then retry e else ended (err (after_attempts n e))

  -- One attempt: the request is prepared, sent, and its reply read.
  send : Result (Attempt × Request) → ℕ → (Request → Err → Run) → Run
  unfolding receive
  send (err e) n retry = ended (err e)
  send (ok (a, req)) n retry = after_sending a (receive (w.reply n a) n (retry req))

  -- The wait before attempt n, from the second on; its end, or the context's.
  pause : ℕ → ℕ → Run → Run
  unfolding full_jitter
  pause n backoff rest = elim (w.wait_err n) [
    | some e ↦ ended (err e)
    | none ↦ after_wait (full_jitter backoff (w.random n)) rest
  ]

  -- The loop from attempt n on, with `left` attempts left. The request is nil or not throughout.
  unfoldable pub attempts : ℕ → ℕ → ℕ → Option Request → Err → Run
  unfolding send pause
  attempts zero n backoff req last = ended (err (after_attempts total last))
  attempts (suc left) n backoff req last =
      let doubled : ℕ = if ltb 1 n then backoff * 2 else backoff in
      let go : Run =
        send (request_for_attempt req) n (λ req' e. attempts left (n + 1) doubled (some req') e) in
      elim (w.ctx_err n) [
        | some e ↦ ended (err e)
        | none ↦ if ltb 1 n then pause n backoff go else go
      ]

unfoldable pub do_request_with_retry_inner : World → Option Request → Run
unfolding attempts max_attempts
do_request_with_retry_inner w req =
    let total : ℕ = max_attempts req in
    attempts w (retryable_request req) total total 1 first_backoff req no_error

-- errors.Is(err, context.Canceled)
unfoldable pub is_caller_canceled : Err → Bool
is_caller_canceled canceled = true
is_caller_canceled (after_attempts n e) = is_caller_canceled e
is_caller_canceled _ = false

-- What the breaker is told of a result, at the time `now`.
account : ℕ → Result ℕ → CircuitBreaker → CircuitBreaker
unfolding is_caller_canceled
account now (ok status) cb = record_success cb
account now (err e) cb = if is_caller_canceled e then cb else record_failure now cb

-- `start` is the time of `Allow`, `stop` that of a failure's report, and `others` what the calls of
-- other requests do to the breaker between the two, while the loop runs.
unfoldable pub do_request_with_retry_amid :
    World
    → ℕ
    → ℕ
    → (CircuitBreaker → CircuitBreaker)
    → Option Request
    → CircuitBreaker
    → CircuitBreaker × Run
unfolding do_request_with_retry_inner account
do_request_with_retry_amid w start stop others req cb =
    let (cb', refused) = allow start cb in
    elim refused [
      | some _ ↦ (cb', ended (err circuit_open))
      | none ↦
          let run : Run = do_request_with_retry_inner w req in
          (account stop run.result (others cb'), run)
    ]

-- The same where no other call on the breaker comes between.
unfoldable pub do_request_with_retry :
    World → ℕ → ℕ → Option Request → CircuitBreaker → CircuitBreaker × Run
unfolding do_request_with_retry_amid
do_request_with_retry w start stop req cb = do_request_with_retry_amid w start stop (λ b. b) req cb
