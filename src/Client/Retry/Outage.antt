-- ===== src/Client/Retry/Outage.antt =====
-- An upstream that fails: the breaker opens in front of it, and requests are no longer sent.
use xktmcp.Prelude.{ℕ, ◌≡◌, false, List, [], ◌∷◌}
use xktmcp.Client.Breaker
use xktmcp.Client.Breaker.{CircuitBreaker, err_circuit_open}
use xktmcp.Client.Breaker.Calls.{run, allows}
use xktmcp.Client.Retry.{
  Err, Run, err, is_caller_canceled, do_request_with_retry_amid, do_request_with_retry_inner,
}
use xktmcp.Client.Retry.Guarded.{Job}

-- A request, and the times at which others ask the breaker while it runs.
abbrev pub Overlap : Type 0
Overlap = Job × List ℕ

pub serve_amid_one : Overlap → CircuitBreaker → CircuitBreaker × Run
serve_amid_one (j, times) =
    do_request_with_retry_amid j.world j.start j.stop (run (allows times)) j.request

pub serve_amid : List Overlap → CircuitBreaker → CircuitBreaker
serve_amid [] cb = cb
serve_amid (o ∷ os) cb = serve_amid os (serve_amid_one o cb).0

-- The loop of attempts ends with an error, and it was not the caller who canceled.
pub record IsFailing (o : Overlap) : Type 0 where
  pub error : Err
  pub fails : (do_request_with_retry_inner o.0.world o.0.request).result ≡ err error
  pub not_canceled : is_caller_canceled error ≡ false
