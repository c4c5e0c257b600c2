-- ===== src/Client/Retry/Settles.antt =====
-- When the loop of attempts succeeds.
use xktmcp.Prelude.{
  refl, some, ◌∙◌, ◌*◌, ap, ltb, arith, if◌then◌else◌, length, true, false, Option, none, ℕ, zero,
  suc, ◌+◌, ◌<◌, ◌≡◌,
}
use xktmcp.Client.Retry.{
  no_error, after_sending, first_backoff, some, retryable_request, max_attempts, ltb,
  do_request_with_retry_inner, ended, server_error, true, ok, request_for_attempt, false, Option,
  is_server_error, none, World, Request, Attempt, Reply, response, failed, Err, Run, attempts, send,
  pause, receive,
}
use xktmcp.Client.Retry.Attempts.{is_transient, request_for_attempt-stable}

-- The context never ends.
pub record IsCalm (w : World) : Type 0 where
  pub no_ctx_err : (n : ℕ) → w.ctx_err n ≡ none
  pub no_wait_err : (n : ℕ) → w.wait_err n ≡ none

-- A response that ends the loop.
abbrev pub Settles : World → Attempt → ℕ → ℕ → Type 0
Settles w a n status = (w.reply n a ≡ response status) × (is_server_error status ≡ false)

module _ (w : World) (calm : IsCalm w) (total : ℕ) (a : Attempt) where
  -- One attempt of the loop in a calm world, up to the time waited.
  calm_attempt :
      (left n backoff : ℕ) (req : Option Request) (last : Err) (kept : Request)
      → request_for_attempt req ≡ ok (a, kept)
      → let r = attempts w true total (suc left) n backoff req last in
        let more = λ (e : Err).
          attempts w true total left
            (n + 1)
            (if ltb 1 n then backoff * 2 else backoff)
            (some kept)
            e in
        let s = after_sending a (receive w true total (w.reply n a) n more) in
        (r.result ≡ s.result) × (r.sent ≡ s.sent)
  unfolding attempts send pause
  calm_attempt left n backoff req last kept h = (
    ground (arith, calm.no_ctx_err n, calm.no_wait_err n, h),
    ground (arith, calm.no_ctx_err n, calm.no_wait_err n, h),
  )

  receive_transient :
      (rep : Reply) (n : ℕ) (more : Err → Run)
      → is_transient rep ≡ true
      → (e : Err) × (receive w true total rep n more ≡ more e)
  unfolding receive
  receive_transient (response status) n more h = (server_error status, ground arith)
  receive_transient (failed e) n more h = (e, refl)

  receive_settled :
      (rep : Reply) (n status : ℕ) (more : Err → Run)
      → rep ≡ response status
      → is_server_error status ≡ false
      → receive w true total rep n more ≡ ended (ok status)
  unfolding receive
  receive_settled rep n status more p h = ground (arith, p)

  Settles-from :
      (k left n backoff : ℕ) (req : Option Request) (last : Err) (kept : Request) (status : ℕ)
      → request_for_attempt req ≡ ok (a, kept)
      → k < left
      → Settles w a (n + k) status
      → ((j : ℕ) → j < k → is_transient (w.reply (n + j) a) ≡ true)
      → let r = attempts w true total left n backoff req last in
        (r.result ≡ ok status) × (length r.sent ≡ suc k)
  Settles-from k zero n backoff req last kept status h lt done early = absurd (omega arith)
  Settles-from zero (suc left) n backoff req last kept status h lt done early =
      let (same, sent) = calm_attempt left n backoff req last kept h in
      let at : w.reply n a ≡ response status = ap (λ (m : ℕ). w.reply m a) (omega arith) ∙ done.0 in
      let stop = receive_settled (w.reply n a) n status _ at done.1 in
      (
        same ∙ ap (λ (r : Run). r.result) stop,
        ap length sent ∙ ap (λ (r : Run). suc (length r.sent)) stop,
      )
  Settles-from (suc k) (suc left) n backoff req last kept status h lt done early =
      let (same, sent) = calm_attempt left n backoff req last kept h in
      let bad : is_transient (w.reply n a) ≡ true =
        ap (λ (m : ℕ). is_transient (w.reply m a)) (omega arith) ∙ early 0 (omega arith) in
      let (e, go) = receive_transient (w.reply n a) n _ bad in
      let (result, count) =
        Settles-from k left (n + 1) (if ltb 1 n then backoff * 2 else backoff) (some kept) e kept
          status (request_for_attempt-stable req a kept h) (omega arith)
          (ap (λ (m : ℕ). w.reply m a) (omega arith) ∙ done.0, done.1)
          (λ j jk.
            ap (λ (m : ℕ). is_transient (w.reply m a)) (omega arith)
            ∙ early (suc j) (omega arith)) in
      (
        same ∙ ap (λ (r : Run). r.result) go ∙ result,
        ap length sent ∙ ap (λ (r : Run). suc (length r.sent)) go ∙ ap suc count,
      )

-- In a calm world a request that may be repeated succeeds with the first response that is no
-- server error, if one of its three attempts has one, and sends no attempt after it.
pub retry-Settles :
    (w : World) (req : Option Request) (a : Attempt) (kept : Request) (k status : ℕ)
    → IsCalm w
    → retryable_request req ≡ true
    → request_for_attempt req ≡ ok (a, kept)
    → k < 3
    → Settles w a (1 + k) status
    → ((j : ℕ) → j < k → is_transient (w.reply (1 + j) a) ≡ true)
    → ((do_request_with_retry_inner w req).result ≡ ok status)
      × (length (do_request_with_retry_inner w req).sent ≡ suc k)
unfolding do_request_with_retry_inner max_attempts
retry-Settles w req a kept k status calm again h lt done early =
    rw again (Settles-from w calm 3 a k 3 1 first_backoff req no_error kept status h lt done early)
