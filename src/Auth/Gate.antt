-- ===== src/Auth/Gate.antt =====
-- internal/auth/auth.go: Authenticator.Middleware. Each way to authenticate is tried in turn; the state is
-- that of the limiters and of the cache. What the handler does is not part of the model.
pub mod Evidence
use xktmcp.Prelude.{
  ℕ, zero, suc, Bool, true, false, not, ◌&&◌, ◌||◌, ◌⊎◌, inl, inr, Option, none, some, List, [],
  ◌∷◌, ltb, ◌==◌, nat_eq, list_eq, if◌then◌else◌, length, take, drop,
}
use xktmcp.Prelude.Int.{ℤ, pos, negsuc, positive_or}
use xktmcp.Prelude.Text.{Text, codes, trim_space}
use xktmcp.Prelude.Split.{equal_fold}
use xktmcp.Lru.Assoc.{lookup, without}
use xktmcp.Trace
use xktmcp.Trace.{with_request_origin, with_authenticated_user_id, origin_network}
use xktmcp.Auth.Address.{Net, Origin, security_client_ip, in_any}
use xktmcp.Auth.Limiter.{Float, Bucket, allow}
use xktmcp.Auth.Rpc.{Json}
use xktmcp.Auth.Serve.{
  Context, Decision, Reply, refused, served, Passed, read_request_body, serve_authenticated,
  new_session_identity,
}
use xktmcp.Auth.Remote.{Answer, Limits, Verifier, Verdict, verify_remote}

abbrev bearer_prefix : Text
bearer_prefix = codes "Bearer "

-- bearerFromHeader, on the value of the header, empty where there is none
unfoldable pub bearer : Text → Text
unfolding trim_space equal_fold
bearer h =
    if ltb 7 (length h) && equal_fold (take 7 h) bearer_prefix then trim_space (drop 7 h) else []

-- Tenant, with the parts of its TenantConfig that are read after the start.
pub record Tenant (f : Float) : Type 0 where
  pub name : Text
  pub user_id : Text
  pub allowed_tools : List Text
  pub rate_rps : f.Amount
  pub rate_burst : ℤ
  pub limiter : Option (Bucket f)

pub record Request : Type 0 where
  pub method : Text
  pub body : Option (Option Text)
  pub authorization : Text
  pub origin : Origin
  pub context : Context

-- The parts of the Config and of the Authenticator that do not change. `show_ip` is net.IP.String.
pub record Setup (net : Net) (f : Float) : Type 0 where
  pub local_token : Text
  pub allowed_cidrs : List (Option net.Cidr)
  pub trust_forwarded_header : Bool
  pub trusted_proxy_cidrs : List (Option net.Cidr)
  pub limits : Limits f
  pub remote_ok : Bool
  pub show_ip : net.Ip → Text
  pub json : Json
  pub sha256 : Text → Text
  pub hash_token : Text → Text
  pub endpoint : Text → Option Answer

pub record State (f : Float) : Type 0 where
  pub tenants : List (Text × Tenant f)
  pub verifier : Verifier f

module _ {f : Float} where
  -- The limiter of a tenant: the tenant after the request, and whether it may go on.
  unfoldable pub allow_tenant : ℕ → Tenant f → Tenant f × Bool
  allow_tenant now t = elim t.limiter [
    | none ↦ (t, true)
    | some b ↦
        let drawn = allow f now t.rate_rps (positive_or t.rate_burst 10) b in
        if f.exceeds t.rate_rps (f.of_int 0)
        then (record t { limiter = some drawn.0 }, drawn.1)
        else (t, true)
  ]

module _ {net : Net} {f : Float} (setup : Setup net f) where
  abbrev pub source : Request → Option net.Ip
  source r = security_client_ip net setup.trust_forwarded_header setup.trusted_proxy_cidrs r.origin

  -- The address in a trusted network that lets a request in without a token.
  unfoldable pub trusted_source : Request → Option net.Ip
  trusted_source r =
      if ltb 0 (length setup.allowed_cidrs)
      then elim (source r) [
        | none ↦ none
        | some ip ↦ if in_any net setup.allowed_cidrs ip then some ip else none
      ]
      else none

  abbrev pub bearer_decision : Text → Text → Option (List Text) → Decision
  bearer_decision token principal tenant = record {
    principal = principal;
    tenant = tenant;
    session_identity = some (new_session_identity setup.sha256 (codes "bearer") token);
  }

  -- The context, with the user that the endpoint named.
  unfoldable pub with_remote_user : Text → Context → Context
  unfolding with_authenticated_user_id
  with_remote_user user_id ctx = if user_id == [] then ctx else record ctx {
    user_id = some user_id;
    traced = with_authenticated_user_id ctx.traced user_id;
  }

  abbrev pub client_name : Request → Text
  client_name r = elim (source r) [ none ↦ codes "unknown" | some ip ↦ setup.show_ip ip ]

  -- The fourth way: remote verification.
  unfoldable pub try_remote :
      ℕ → ℕ → Request → Context → Text → Text → Passed → State f → State f × Reply
  unfolding verify_remote with_remote_user serve_authenticated
  try_remote now later r ctx token body passed s =
      if setup.remote_ok
      then (let asked =
            verify_remote f setup.limits setup.hash_token setup.endpoint now later token
              (client_name r) s.verifier in
          (
            record s { verifier = asked.0 },
            if asked.1.ok
                then serve_authenticated setup.json (bearer_decision token asked.1.user_id none)
                    r.method body passed (with_remote_user asked.1.user_id ctx)
                else refused 401,
          ))
      else (s, refused 401)

  -- The third way: the static token. `subtle.ConstantTimeCompare` is equality.
  unfoldable pub try_local :
      ℕ → ℕ → Request → Context → Text → Text → Passed → State f → State f × Reply
  unfolding try_remote serve_authenticated
  try_local now later r ctx token body passed s =
      if not (setup.local_token == []) && token == setup.local_token
      then (
        s,
        serve_authenticated setup.json (bearer_decision token [] none) r.method body passed ctx,
      )
      else try_remote now later r ctx token body passed s

  -- The second way, for a token of the tenant `t`, which stands under `key`.
  unfoldable pub as_tenant :
      ℕ → Request → Context → Text → Text → Passed → Text → Tenant f → State f → State f × Reply
  unfolding allow_tenant serve_authenticated
  as_tenant now r ctx token body passed key t s = (
    record s { tenants = (key, (allow_tenant now t).0) ∷ without key s.tenants },
    if (allow_tenant now t).1
        then serve_authenticated setup.json (bearer_decision token t.user_id (some t.allowed_tools))
            r.method body passed ctx
        else refused 401,
  )

  -- The ways that need a token.
  unfoldable pub with_token :
      ℕ → ℕ → Request → Context → Text → Text → Passed → State f → State f × Reply
  unfolding as_tenant try_local
  with_token now later r ctx token body passed s =
      if token == [] then (s, refused 401) else elim (lookup (setup.hash_token token) s.tenants) [
        | some t ↦ as_tenant now r ctx token body passed (setup.hash_token token) t s
        | none ↦ try_local now later r ctx token body passed s
      ]

  abbrev pub network_context : Context → Context
  network_context ctx = record ctx { traced = with_request_origin ctx.traced origin_network }

  -- `now` is the time of the request, and `later` that after a remote call.
  unfoldable pub middleware : ℕ → ℕ → Request → State f → State f × Reply
  unfolding read_request_body bearer trusted_source with_token serve_authenticated
  middleware now later r s = elim (read_request_body r.method r.body) [
    | inl reply ↦ (s, reply)
    | inr read ↦ elim (trusted_source r) [
      | some ip ↦ (
        s,
        serve_authenticated setup.json
            (record {
              principal = [];
              tenant = none;
              session_identity =
                  some (new_session_identity setup.sha256 (codes "ip") (setup.show_ip ip));
            })
            r.method read.0 read.1 (network_context r.context),
      )
      | none ↦
          with_token now later r (network_context r.context) (bearer r.authorization) read.0 read.1
            s
    ]
  ]
