-- ===== src/Client/Retry/Attempts.antt =====
-- The loop of attempts: how many are sent, what each one sends, how long it waits, and which
-- reply it returns.
use mathlib.Core.Path.{subst}
use xktmcp.Prelude.{
  ◌&&◌, ℕ, zero, suc, ◌+◌, ◌*◌, ◌≤◌, ◌<◌, ◌≡◌, ◌∙◌, sym, ap, refl, inl, inr, Bool, true, false,
  Option, none, some, arith, All, length, ltb, if◌then◌else◌, Option-cases, Bool-cases,
}
use xktmcp.Client.Retry.{
  Err, server_error, no_error, after_attempts, Result, ok, err, Request, Attempt, Reply, response,
  failed, World, Run, ended, after_sending, is_server_error, first_backoff, retryable_request,
  full_jitter, request_for_attempt, max_attempts, receive, send, pause, attempts,
  do_request_with_retry_inner,
}

-- A prepared request is prepared the same way again: the body was kept.
pub request_for_attempt-stable :
    (req : Option Request) (a : Attempt) (kept : Request)
    → request_for_attempt req ≡ ok (a, kept)
    → request_for_attempt (some kept) ≡ ok (a, kept)
unfolding request_for_attempt
request_for_attempt-stable none a kept h = ground arith
request_for_attempt-stable (some req) a kept h = ground arith

-- A reply after which a retryable request is tried again.
abbrev pub is_transient : Reply → Bool
is_transient (response status) = is_server_error status
is_transient (failed e) = true

jitter-le : (backoff random : ℕ) → full_jitter backoff random ≤ backoff
unfolding full_jitter
jitter-le zero random = omega arith
jitter-le (suc n) random = grind arith

-- The most that the loop can wait from attempt n on.
wait_bound : ℕ → ℕ → ℕ → ℕ
wait_bound zero n backoff = 0
wait_bound (suc left) n backoff =
    (if ltb 1 n then backoff else 0)
    + wait_bound left (n + 1) (if ltb 1 n then backoff * 2 else backoff)

-- The response that a run returns, `k` attempts after attempt n.
pub record Answers (w : World) (again : Bool) (a : Attempt) (n status k : ℕ) : Type 0 where
  pub reply : w.reply (n + k) a ≡ response status
  pub final : again ≡ true → is_server_error status ≡ false
  pub earlier : (j : ℕ) → j < k → is_transient (w.reply (n + j) a) ≡ true

pub record Tries (w : World) (again : Bool) (a : Attempt) (left n bound : ℕ) (r : Run)
    : Type 0 where
  pub count : length r.sent ≤ left
  pub same : All (λ b. b ≡ a) r.sent
  pub patience : r.waited ≤ bound
  pub sound :
      (status : ℕ)
      → r.result ≡ ok status
      → (k : ℕ) × (length r.sent ≡ suc k) × Answers w again a n status k

module _ (w : World) (again : Bool) (total : ℕ) (a : Attempt) where
  Tries-ended : (e : Err) (left n bound : ℕ) → Tries w again a left n bound (ended (err e))
  Tries-ended e left n bound = record {
    count = omega arith;
    same = tt;
    patience = omega arith;
    sound = λ status p. cc;
  }

  Tries-answer :
      (left n bound status : ℕ)
      → w.reply n a ≡ response status
      → (again ≡ true → is_server_error status ≡ false)
      → Tries w again a (suc left) n bound (after_sending a (ended (ok status)))
  Tries-answer left n bound status p final = record {
    count = omega arith;
    same = (refl, tt);
    patience = omega arith;
    sound = λ other q.
        let s : status ≡ other = ground arith in
        (
          0,
          refl,
          record {
            reply = ap (λ (m : ℕ). w.reply m a) (omega arith) ∙ p ∙ ap response s;
            final = λ g. ap is_server_error (sym s) ∙ final g;
            earlier = λ j lt. elim lt [ ];
          },
        );
  }

  earlier_shift :
      (n k : ℕ)
      → is_transient (w.reply n a) ≡ true
      → ((j : ℕ) → j < k → is_transient (w.reply (n + 1 + j) a) ≡ true)
      → (j : ℕ) → j < suc k
      → is_transient (w.reply (n + j) a) ≡ true
  earlier_shift n k p h zero lt = ap (λ (m : ℕ). is_transient (w.reply m a)) (omega arith) ∙ p
  earlier_shift n k p h (suc j) lt =
      ap (λ (m : ℕ). is_transient (w.reply m a)) (omega arith) ∙ h j (omega arith)

  Tries-again :
      (left n bound : ℕ) (r : Run)
      → is_transient (w.reply n a) ≡ true
      → Tries w again a left (n + 1) bound r
      → Tries w again a (suc left) n bound (after_sending a r)
  Tries-again left n bound r p t = record {
    count = omega (arith, t.count);
    same = (refl, t.same);
    patience = t.patience;
    sound = λ status q.
        let (k, len, answer) = t.sound status q in
        (
          suc k,
          ap suc len,
          record {
            reply = ap (λ (m : ℕ). w.reply m a) (omega arith) ∙ answer.reply;
            final = answer.final;
            earlier = earlier_shift n k p answer.earlier;
          },
        );
  }

  Tries-receive :
      (left n bound : ℕ) (retry : Err → Run)
      → ((e : Err) → Tries w again a left (n + 1) bound (retry e))
      → (rep : Reply) → w.reply n a ≡ rep
      → Tries w again a (suc left) n bound (after_sending a (receive w again total rep n retry))
  unfolding receive
  Tries-receive left n bound retry h (response status) p =
      elim (Bool-cases (again && is_server_error status)) [
        | inl bad ↦ rw (bad) (
            Tries-again left n bound (retry (server_error status)) (ground (arith, p))
              (h (server_error status)))
        | inr good ↦ rw (good) (Tries-answer left n bound status p (λ g. ground arith))
      ]
  Tries-receive left n bound retry h (failed e) p = elim (Bool-cases again) [
    | inl g ↦
        let go : receive w again total (failed e) n retry ≡ retry e = ground (arith, g) in
        subst (λ (r : Run). Tries w again a (suc left) n bound (after_sending a r)) (sym go)
          (Tries-again left n bound (retry e) (ground (arith, p)) (h e))
    | inr g ↦
        let go : receive w again total (failed e) n retry ≡ ended (err (after_attempts n e)) =
          ground (arith, g) in
        subst (λ (r : Run). Tries w again a (suc left) n bound (after_sending a r)) (sym go)
          (record {
            count = omega arith;
            same = (refl, tt);
            patience = omega arith;
            sound = λ status q. cc;
          })
  ]

  Tries-wider :
      (left n b c : ℕ) (r : Run) → b ≤ c → Tries w again a left n b r → Tries w again a left n c r
  Tries-wider left n b c r p t = record {
    count = t.count;
    same = t.same;
    patience = omega (arith, t.patience);
    sound = t.sound;
  }

  Tries-pause :
      (left n backoff bound : ℕ) (r : Run)
      → Tries w again a left n bound r
      → Tries w again a left n (backoff + bound) (pause w again total n backoff r)
  unfolding pause
  Tries-pause left n backoff bound r t = elim (Option-cases (w.wait_err n)) [
    | inl calm ↦
        rw (calm, pause)
          (record {
            count = t.count;
            same = t.same;
            patience = omega (arith, t.patience, jitter-le backoff (w.random n));
            sound = t.sound;
          })
    | inr (e, over) ↦ rw (over, pause) (Tries-ended e left n (backoff + bound))
  ]

  guard : ℕ → ℕ → Run → Bool → Run
  guard n backoff go later = elim (w.ctx_err n) [
    | some e ↦ ended (err e)
    | none ↦ if later then pause w again total n backoff go else go
  ]

  Tries-guard :
      (left n backoff bound : ℕ) (go : Run) (later : Bool)
      → Tries w again a (suc left) n bound go
      → Tries w again a
          (suc left)
          n
          ((if later then backoff else 0) + bound)
          (guard n backoff go later)
  unfolding guard
  Tries-guard left n backoff bound go later t = elim (Option-cases (w.ctx_err n)) [
    | inr (e, stop) ↦
        rw (stop, guard) (Tries-ended e (suc left) n ((if later then backoff else 0) + bound))
    | inl calm ↦ rw (calm, guard) (when later)
  ]
    where
      when :
          (b : Bool)
          → Tries w again a
              (suc left)
              n
              ((if b then backoff else 0) + bound)
              (if b then pause w again total n backoff go else go)
      when true = Tries-pause (suc left) n backoff bound go t
      when false = Tries-wider (suc left) n bound (0 + bound) go (omega arith) t

  Tries-attempts :
      (left n backoff : ℕ) (req : Option Request) (last : Err) (kept : Request)
      → request_for_attempt req ≡ ok (a, kept)
      → Tries w again a left n
          (wait_bound left n backoff)
          (attempts w again total left n backoff req last)
  unfolding attempts wait_bound guard
  Tries-attempts zero n backoff req last kept h = Tries-ended (after_attempts total last) 0 n 0
  Tries-attempts (suc left) n backoff req last kept h =
      let doubled : ℕ = if ltb 1 n then backoff * 2 else backoff in
      let more : Request → Err → Run =
        λ req' e. attempts w again total left (n + 1) doubled (some req') e in
      let bound = wait_bound left (n + 1) doubled in
      let go : Run = send w again total (request_for_attempt req) n more in
      let sent : Tries w again a (suc left) n bound go =
        subst
          (λ (p : Result (Attempt × Request)).
            Tries w again a (suc left) n bound (send w again total p n more))
          (sym h)
          (unfold send in
            Tries-receive left n bound (more kept)
              (λ e.
                Tries-attempts left (n + 1) doubled (some kept) e kept
                  (request_for_attempt-stable req a kept h))
              (w.reply n a) refl) in
      Tries-guard left n backoff bound go (ltb 1 n) sent

wait_bound_total :
    (req : Option Request) → wait_bound (max_attempts req) 1 first_backoff ≤ 300_000_000
unfolding wait_bound max_attempts
wait_bound_total req = elim (Bool-cases (retryable_request req)) [
  | inl p ↦ rw p (omega arith)
  | inr p ↦ rw p (omega arith)
]

-- The totals of the loop as it is started: three attempts at most, one where the request may not
-- be repeated; all attempts are the same request; at most 300 ms of waiting in all; and a response
-- that is returned is the reply to the last attempt, no server error if the request may be
-- repeated, and every attempt before it failed or met a server error.
pub do_request_with_retry_inner-Tries :
    (w : World) (req : Option Request) (a : Attempt) (kept : Request)
    → request_for_attempt req ≡ ok (a, kept)
    → Tries w
        (retryable_request req)
        a
        (max_attempts req)
        1
        300_000_000
        (do_request_with_retry_inner w req)
unfolding do_request_with_retry_inner
do_request_with_retry_inner-Tries w req a kept h =
    let total = max_attempts req in
    let again = retryable_request req in
    Tries-wider w again total a total 1 (wait_bound total 1 first_backoff) 300_000_000 _
      (wait_bound_total req)
      (Tries-attempts w again total a total 1 first_backoff req no_error kept h)
