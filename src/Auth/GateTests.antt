-- ===== src/Auth/GateTests.antt =====
-- The authenticator on a small example: a tenant, a static token and an endpoint.
use xktmcp.Auth.Start.Registered.{new-registers, IsOf, Has}
use xktmcp.Auth.Cache.{new_verification_cache}
use xktmcp.Auth.Start.{Authenticator, Config, TenantConfig}
use xktmcp.Auth.Remote.Reuse.{verify_remote-again}
use xktmcp.Lru.Assoc.{lookup}
use xktmcp.Trace.Users.{NamesAtMost}
use xktmcp.Auth.Address.Forged.{forged_hops_ignored}
use xktmcp.Auth.Gate.Evidence.{middleware-IsAuthenticated, IsAuthenticated}
use xktmcp.Trace.{authenticated_user_id_from_context}
use xktmcp.Auth.Serve.Governed.{
  serve_authenticated-principal, serve_authenticated-IsGoverned, IsGoverned,
}
use xktmcp.Auth.Rpc.Bound.{bind_principal-inspect}
use xktmcp.Auth.Limiter.{Bucket}
use xktmcp.Prelude.Int.{pos}
use xktmcp.Lru.Table.{empty-Linked, empty}
use xktmcp.Auth.Address.{Origin}
use xktmcp.Prelude.Text.{codes, Text}
use xktmcp.Auth.Serve.{new_session_identity, replaced, served, untouched, Decision, Context}
use xktmcp.Auth.Rpc.{tools_call, Rpc, Object}
use xktmcp.Auth.Gate.{Request, State, Tenant, Setup}
use xktmcp.Auth.Remote.{Answer, Verifier, Limits}
use xktmcp.Prelude.{
  arith, false, ◌==◌, if◌then◌else◌, refl, true, none, [], ◌∷◌, some, Option, ◌++◌, ◌≡◌, List,
  nat_eq, list_eq,
}
use xktmcp.Auth.Samples.{exact_net, exact_float, exact_json, encode}
use xktmcp.Auth.Gate
use mathlib.Core.List.{Memᴰ}
use xktmcp.Auth.Start
use xktmcp.Trace
use xktmcp.Auth.Cache as Lookup
use xktmcp.Lru.Table.{find}
use xktmcp.Auth.Limiter
use xktmcp.Auth.Address
use xktmcp.Auth.Remote
use xktmcp.Auth.Cache.Laws as Cache
use xktmcp.Auth.Limiter.Pool.{IsValid, view, allow_ip-keeps}
use xktmcp.Auth.Limiter.Bursts.{passed-new_limiter, passed}
use xktmcp.Auth.Samples.{exact-IsJson, exact-IsFloat}
use xktmcp.Auth.Serve
use xktmcp.Auth.Rpc

abbrev salted : Text → Text
salted token = codes "#" ++ token

abbrev endpoint : Text → Option Answer
endpoint token =
    if token == codes "good"
    then some (record { status = 200; data_user_id = []; user_id = codes "zoe" })
    else some (record { status = 401; data_user_id = []; user_id = [] })

abbrev limits : Limits exact_float
limits = record { positive_ttl = 300; negative_ttl = 30; rate_rps = 5; rate_burst = 10 }

abbrev proxies : List (Option Text)
proxies = some (codes "10.0.0.1") ∷ []

abbrev setup : Setup exact_net exact_float
setup = record {
  local_token = codes "static";
  allowed_cidrs = some (codes "10.0.0.9") ∷ [];
  trust_forwarded_header = true;
  trusted_proxy_cidrs = proxies;
  limits = limits;
  remote_ok = true;
  show_ip = λ ip. ip;
  json = exact_json;
  sha256 = salted;
  hash_token = salted;
  endpoint = endpoint;
}

abbrev acme : Tenant exact_float
acme = record {
  name = codes "acme";
  user_id = codes "ann";
  allowed_tools = codes "search" ∷ [];
  rate_rps = 1;
  rate_burst = pos 3;
  limiter = some (record { amount = 3; last_ref = 0 });
}

abbrev verifier : Verifier exact_float
verifier = record {
  cache = record { table = empty; max_entries = 4 };
  pool = record { table = empty; max_entries = 4; rps = 2; burst = pos 3 };
  bucket = record { amount = 10; last_ref = 0 };
}

abbrev state : State exact_float
state = record { tenants = (codes "#tok", acme) ∷ []; verifier = verifier }

abbrev params : Text
params = encode ((codes "name", codes "search") ∷ [])

abbrev envelope : Object
envelope = (codes "method", codes "tools/call") ∷ (codes "params", params) ∷ []

abbrev call : Text
call = encode envelope

abbrev origin : Origin
origin = record { forwarded = []; real_ip = []; remote_addr = codes "192.0.2.7" }

abbrev ctx : Context
ctx = record {
  traced = record {
    id = none;
    user_id = none;
    authenticated_user_id = none;
    request_origin = none;
  };
  session_identity = none;
  allowed_tools = none;
  user_id = none;
}

abbrev request : Text → Request
request authorization = record {
  method = codes "POST";
  body = some (some call);
  authorization = authorization;
  origin = origin;
  context = ctx;
}

abbrev rpc : Rpc
rpc = record {
  method = tools_call;
  tool_name = codes "search";
  requested_user = [];
  envelope = envelope;
  params = (codes "name", codes "search") ∷ [];
  arguments = [];
}

abbrev bound_arguments : Text → Text
bound_arguments user = encode ((codes "userId", user) ∷ [])

abbrev bound : Text → Text
bound user = encode (
    (
      codes "params",
      encode ((codes "arguments", bound_arguments user) ∷ (codes "name", codes "search") ∷ []),
    )
    ∷ (codes "method", codes "tools/call")
    ∷ [])

abbrev decision : Decision
decision =
    Gate.bearer_decision {net = exact_net} {f = exact_float} setup (codes "tok") (codes "ann")
      (some (codes "search" ∷ []))

abbrev served_ctx : Context
served_ctx = record {
  traced = record {
    id = none;
    user_id = none;
    authenticated_user_id = some (codes "ann");
    request_origin = none;
  };
  session_identity = some (new_session_identity salted (codes "bearer") (codes "tok"));
  allowed_tools = some (codes "search" ∷ []);
  user_id = none;
}

abbrev static_ctx : Context
static_ctx = record ctx {
  traced = record {
    id = none;
    user_id = none;
    authenticated_user_id = none;
    request_origin = some (codes "network");
  };
  session_identity = some (new_session_identity salted (codes "bearer") (codes "static"));
}

abbrev zoe_ctx : Context
zoe_ctx = record {
  traced = record {
    id = none;
    user_id = none;
    authenticated_user_id = some (codes "zoe");
    request_origin = some (codes "network");
  };
  session_identity = some (new_session_identity salted (codes "bearer") (codes "good"));
  allowed_tools = none;
  user_id = some (codes "zoe");
}

bind_principal-inspect_example :
    (again : Rpc) × (Rpc.inspect_rpc exact_json (bound (codes "ann")) ≡ some again)
    × (again.method ≡ tools_call)
    × (again.tool_name ≡ codes "search")
    × (again.requested_user ≡ codes "ann")
unfolding Rpc.inspect_rpc Rpc.bind_principal
bind_principal-inspect_example =
    bind_principal-inspect exact_json exact-IsJson (codes "ann") call (bound (codes "ann")) rpc refl
      refl refl

serve_authenticated-IsGoverned_example :
    (bytes : Text) × (replaced (bound (codes "ann")) ≡ replaced bytes)
    × IsGoverned exact_json (codes "ann") (codes "search" ∷ []) bytes
unfolding Serve.serve_authenticated
serve_authenticated-IsGoverned_example =
    serve_authenticated-IsGoverned exact_json exact-IsJson decision (codes "search" ∷ []) refl ctx
      served_ctx call untouched (replaced (bound (codes "ann"))) (ground arith) refl

serve_authenticated-principal_example :
    (authenticated_user_id_from_context (some served_ctx.traced) ≡ codes "ann")
    × NamesAtMost (codes "ann") []
unfolding Serve.serve_authenticated
serve_authenticated-principal_example =
    serve_authenticated-principal exact_json decision (codes "POST") call untouched
      (replaced (bound (codes "ann"))) ctx served_ctx (ground arith) refl

middleware_static :
    (Gate.middleware setup 20 25 (request (codes "Bearer static")) state).1
    ≡ served static_ctx (replaced call)
unfolding Gate.middleware Address.security_client_ip Trace.with_request_origin
middleware_static = refl

middleware-IsAuthenticated_example :
    IsAuthenticated setup 20 25 (request (codes "Bearer good")) state
unfolding Gate.middleware Address.security_client_ip Lookup.get find Limiter.allow_ip
    Trace.with_request_origin
middleware-IsAuthenticated_example =
    middleware-IsAuthenticated setup 20 25 (request (codes "Bearer good")) state zoe_ctx
      (replaced (bound (codes "zoe"))) refl

forged_hops_ignored_example :
    Address.security_client_ip exact_net true proxies (record {
      forwarded = codes "10.0.0.9" ∷ codes "198.51.100.4" ∷ [];
      real_ip = [];
      remote_addr = codes "10.0.0.1";
    })
    ≡ some (codes "198.51.100.4")
unfolding Address.security_client_ip
forged_hops_ignored_example =
    forged_hops_ignored exact_net true proxies
      (record {
        forwarded = codes "198.51.100.4" ∷ [];
        real_ip = [];
        remote_addr = codes "10.0.0.1";
      })
      (codes "10.0.0.9") [] (codes "198.51.100.4") [] (codes "198.51.100.4") refl refl refl

passed-new_limiter_example : passed exact_float 5 20 1 3 (Limiter.new_limiter exact_float 20 3) ≡ 3
passed-new_limiter_example =
    passed-new_limiter exact_float exact-IsFloat 5 20 1 3 (omega arith) refl

pool-IsValid : IsValid exact_float verifier.pool
pool-IsValid = record { linked = empty-Linked; bounded = omega arith }

allow_ip-keeps_example :
    IsValid exact_float (Limiter.allow_ip exact_float 20 (codes "192.0.2.7") verifier.pool).0
    × ((b : Bucket exact_float)
        → lookup
            (codes "192.0.2.8")
            (view exact_float (Limiter.allow_ip exact_float 20 (codes "192.0.2.7") verifier.pool).0)
          ≡ some b
        → lookup (codes "192.0.2.8") (view exact_float verifier.pool) ≡ some b)
allow_ip-keeps_example =
    allow_ip-keeps exact_float 20 (codes "192.0.2.7") (codes "192.0.2.8") verifier.pool pool-IsValid
      (ground arith)

cache-IsValid : Cache.IsValid verifier.cache
cache-IsValid = record { linked = empty-Linked; bounded = omega arith; positive = omega arith }

verify_remote-again_example :
    (Remote.verify_remote exact_float limits salted endpoint 100 101
      (codes "good")
      (codes "192.0.2.8")
      (Remote.verify_remote exact_float limits salted endpoint 20 25
        (codes "good")
        (codes "192.0.2.7")
        verifier).0).1
    ≡ record { ok = true; user_id = codes "zoe"; called = false }
unfolding Remote.verify_remote Lookup.get find Limiter.allow_ip
verify_remote-again_example =
    verify_remote-again exact_float limits salted endpoint 20 25 100 101 (codes "good")
      (codes "192.0.2.7") (codes "192.0.2.8") verifier cache-IsValid refl (ground arith)

abbrev digest : Text
digest = codes "0123456789abcdef0123456789abcdef0123456789abcdef0123456789abcdef"

abbrev hashed : TenantConfig exact_float
hashed = record {
  name = codes "acme";
  token = [];
  token_hash = codes " 0123456789ABCDEF0123456789ABCDEF0123456789ABCDEF0123456789ABCDEF";
  user_id = codes "ann ";
  allowed_tools = codes "search" ∷ [];
  rate_rps = 1;
  rate_burst = pos 0;
}

abbrev plain : TenantConfig exact_float
plain = record hashed { name = codes "zeta"; token = codes "tok"; token_hash = [] }

abbrev config : Config exact_net exact_float
config = record {
  local_token = [];
  tenants = hashed ∷ plain ∷ [];
  tenants_configured = true;
  remote_verify_url = codes "verify";
  allowed_hosts = codes "HOST" ∷ [];
  allowed_cidrs = [];
  trust_forwarded_header = false;
  trusted_proxy_cidrs = [];
  positive_ttl = pos 0;
  negative_ttl = pos 0;
  remote_rate_rps = 1;
  remote_rate_burst = pos 0;
  remote_ip_rate_rps = 0;
  remote_ip_rate_burst = pos 0;
  remote_cache_max_entries = pos 0;
}

abbrev parse_url : Text → Option (Text × Text)
parse_url raw = some (codes "https", codes "host")

abbrev started : Authenticator exact_net exact_float
started =
    Start.authenticator 20 config
      ((codes "#tok", Start.tenant_of 20 plain) ∷ (digest, Start.tenant_of 20 hashed) ∷ [])
      (record { table = empty; max_entries = 4096 })

new-registers_example :
    ((tc : TenantConfig exact_float)
      → Memᴰ tc config.tenants
      → Has salted 20 started.state.tenants tc)
    × ((key : Text) (t : Tenant exact_float)
        → lookup key started.state.tenants ≡ some t
        → IsOf salted 20 config.tenants key t)
unfolding Start.new new_verification_cache
new-registers_example = new-registers parse_url salted 20 config started refl
