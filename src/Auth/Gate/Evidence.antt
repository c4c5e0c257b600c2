-- ===== src/Auth/Gate/Evidence.antt =====
-- Who gets through.
use xktmcp.Prelude.{
  ℕ, ◌≡◌, ◌≢◌, ◌⊎◌, refl, inl, inr, true, not, ◌&&◌, Option, none, some, [], arith, ◌==◌, nat_eq,
  list_eq, list_beq_iff, Bool-cases, Option-cases,
}
use xktmcp.Prelude.Text.{Text}
use xktmcp.Lru.Assoc.{lookup}
use xktmcp.Auth.Address.{Net, in_any}
use xktmcp.Auth.Limiter.{Float}
use xktmcp.Auth.Remote.{verify_remote}
use xktmcp.Auth.Serve.{Context, Passed, Reply, refused, served, read_request_body}
use xktmcp.Auth.Gate
use xktmcp.Auth.Gate.{Request, Setup, State, Tenant, bearer}

-- What lets a request in: its address in an allowed network, or a bearer token that is a tenant's, the
-- static one, or one that the remote verification accepts now.
pub data IsAuthenticated {net : Net} {f : Float} (setup : Setup net f) (now later : ℕ) (r : Request)
    (s : State f) : Type 0 where
  trusted :
      (ip : net.Ip)
      → Gate.source setup r ≡ some ip
      → in_any net setup.allowed_cidrs ip ≡ true
      → IsAuthenticated setup now later r s
  tenant :
      (t : Tenant f)
      → bearer r.authorization ≢ []
      → lookup (setup.hash_token (bearer r.authorization)) s.tenants ≡ some t
      → (Gate.allow_tenant now t).1 ≡ true
      → IsAuthenticated setup now later r s
  static :
      setup.local_token ≢ []
      → bearer r.authorization ≡ setup.local_token
      → IsAuthenticated setup now later r s
  remote :
      setup.remote_ok ≡ true
      → bearer r.authorization ≢ []
      → (verify_remote f setup.limits setup.hash_token setup.endpoint now later
          (bearer r.authorization)
          (Gate.client_name setup r)
          s.verifier).1.ok
        ≡ true
      → IsAuthenticated setup now later r s

body_refused :
    (method : Text) (body : Option (Option Text)) (reply : Reply)
    → read_request_body method body ≡ inl reply
    → (n : ℕ) × (reply ≡ refused n)
unfolding read_request_body
body_refused method none reply e = absurd (ground (arith, e))
body_refused method (some none) reply e = (400, ground (arith, e))
body_refused method (some (some bytes)) reply e = (413, ground (arith, e))

module _ {net : Net} {f : Float} (setup : Setup net f) (now later : ℕ) (r : Request)
    (s : State f) where
  token_evidence :
      (ctx c : Context) (body : Text) (passed p : Passed)
      → (Gate.with_token setup now later r ctx (bearer r.authorization) body passed s).1
        ≡ served c p
      → IsAuthenticated setup now later r s
  unfolding Gate.with_token Gate.as_tenant Gate.try_local Gate.try_remote
  token_evidence ctx c body passed p h =
      let token = bearer r.authorization in
      elim (Bool-cases (token == [])) [
        | inl blank ↦ absurd (ground (arith, h, blank))
        | inr named ↦ elim (Option-cases (lookup (setup.hash_token token) s.tenants)) [
          | inr (t, q) ↦
              tenant t (ground (arith, named, list_beq_iff token [])) q
                (ground (arith, h, named, q))
          | inl q ↦
              elim (Bool-cases (not (setup.local_token == []) && token == setup.local_token)) [
                | inl same ↦
                    static (ground (arith, same, list_beq_iff setup.local_token []))
                      (ground (arith, same, list_beq_iff token setup.local_token))
                | inr other ↦
                    remote (ground (arith, h, named, q, other))
                      (ground (arith, named, list_beq_iff token []))
                      (ground (arith, h, named, q, other))
              ]
        ]
      ]

  -- A request that the middleware passes on is authenticated: it comes from an allowed network by the
  -- address that decides, or it carries the token of a tenant that is within its rate, the static token,
  -- or a token that the remote verification accepts, by its cache or by a call.
  pub middleware-IsAuthenticated :
      (c : Context) (p : Passed)
      → (Gate.middleware setup now later r s).1 ≡ served c p
      → IsAuthenticated setup now later r s
  unfolding Gate.middleware Gate.trusted_source
  middleware-IsAuthenticated c p h = go (read_request_body r.method r.body) refl
    where
      go :
          (o : Reply ⊎ (Text × Passed))
          → read_request_body r.method r.body ≡ o
          → IsAuthenticated setup now later r s
      go (inl reply) e =
          let (n, q) = body_refused r.method r.body reply e in absurd (ground (arith, h, e, q))
      go (inr (body, passed)) e = elim (Option-cases (Gate.trusted_source setup r)) [
        | inl out ↦
            token_evidence (Gate.network_context setup r.context) c body passed p
              (ground (arith, h, e, out))
        | inr (ip, q) ↦ elim (Option-cases (Gate.source setup r)) [
          | inl lost ↦ absurd (ground (arith, q, lost))
          | inr (ip', found) ↦ trusted ip (ground (arith, q, found)) (ground (arith, q, found))
        ]
      ]
