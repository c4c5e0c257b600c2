-- ===== src/Auth/Remote.antt =====
-- internal/auth/auth.go: the remote verification of a token, behind the cache, the limiter of the client's
-- address and the limiter of all calls. The HTTP call and the JSON of its answer are parameters.
pub mod Reuse
use xktmcp.Prelude.{
  ℕ, zero, ◌+◌, Bool, true, false, not, ◌&&◌, Option, none, some, List, [], ◌∷◌, ◌==◌, nat_eq,
  list_eq, if◌then◌else◌,
}
use xktmcp.Prelude.Text.{Text}
use xktmcp.Auth.Cache
use xktmcp.Auth.Cache.{CacheEntry, VerificationCache}
use xktmcp.Auth.Limiter.{Float, Bucket, IpPool, allow, allow_ip}

-- What the endpoint answers to a token: nothing where the request fails or its body cannot be read,
-- else its status and the two user ids of its JSON, `data.userid` and `userid`.
pub record Answer : Type 0 where
  pub status : ℕ
  pub data_user_id : Text
  pub user_id : Text

-- doRemoteCall
unfoldable pub do_remote_call : (Text → Option Answer) → Text → Bool × Text
do_remote_call endpoint token = elim (endpoint token) [
  | none ↦ (false, [])
  | some a ↦ (a.status == 200, if a.data_user_id == [] then a.user_id else a.data_user_id)
]

-- The parts of the Config that the verification reads.
pub record Limits (f : Float) : Type 0 where
  pub positive_ttl : ℕ
  pub negative_ttl : ℕ
  pub rate_rps : f.Amount
  pub rate_burst : ℕ

-- The parts of the Authenticator that it changes.
pub record Verifier (f : Float) : Type 0 where
  pub cache : VerificationCache
  pub pool : IpPool f
  pub bucket : Bucket f

-- What it returns: the answer, and whether the endpoint was called.
pub record Verdict : Type 0 where
  pub ok : Bool
  pub user_id : Text
  pub called : Bool

abbrev pub turned_away : Verdict
turned_away = record { ok = false; user_id = []; called = false }

module _ (f : Float) (limits : Limits f) (hash_token : Text → Text)
    (endpoint : Text → Option Answer) where
  -- The call, and the cache entry that it leaves; `later` is the time after it.
  unfoldable pub call_and_store : ℕ → Text → Verifier f → Verifier f × Verdict
  unfolding do_remote_call
  call_and_store later token v =
      let ok = (do_remote_call endpoint token).0 in
      let user_id = (do_remote_call endpoint token).1 in
      let ttl = (if ok then limits.positive_ttl else limits.negative_ttl) in
      (
        record v {
          cache =
              Cache.set later (hash_token token)
                (record { ok = ok; exp = later + ttl; user_id = user_id }) v.cache;
        },
        record { ok = ok; user_id = user_id; called = true },
      )

  -- The global limiter, then the call.
  unfoldable pub limited_call : ℕ → ℕ → Text → Verifier f → Verifier f × Verdict
  unfolding call_and_store
  limited_call now later token v =
      let drawn = allow f now limits.rate_rps limits.rate_burst v.bucket in
      let w : Verifier f = record v { bucket = drawn.0 } in
      if drawn.1 then call_and_store later token w else (w, turned_away)

  -- A token that the cache does not have.
  unfoldable pub verify_uncached : ℕ → ℕ → Text → Text → Verifier f → Verifier f × Verdict
  unfolding limited_call
  verify_uncached now later token client_ip v =
      let asked = allow_ip f now client_ip v.pool in
      let w : Verifier f = record v { pool = asked.0 } in
      if not (client_ip == [])
      then (if asked.1 then limited_call now later token w else (w, turned_away))
      else limited_call now later token v

  unfoldable pub verify_remote : ℕ → ℕ → Text → Text → Verifier f → Verifier f × Verdict
  unfolding verify_uncached
  verify_remote now later token client_ip v =
      let looked = Cache.get now (hash_token token) v.cache in
      let w : Verifier f = record v { cache = looked.0 } in
      elim looked.1 [
        | some e ↦ (w, record { ok = e.ok; user_id = e.user_id; called = false })
        | none ↦ verify_uncached now later token client_ip w
      ]
