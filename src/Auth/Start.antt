-- ===== src/Auth/Start.antt =====
-- internal/auth/auth.go: the start of the authenticator (New): its defaults, the host of the remote
-- verification and the table of the tenants. `parse_url` stands for url.Parse: the scheme and the host.
pub mod Registered
use xktmcp.Prelude.Split.{equal_fold, to_lower}
use xktmcp.Lru.Assoc.{has}
use xktmcp.Auth.Gate.{State, Tenant}
use xktmcp.Auth.Cache.{new_verification_cache, VerificationCache}
use xktmcp.Prelude.Int.{negsuc, pos, positive_or, ℤ}
use xktmcp.Auth.Remote.{Limits}
use xktmcp.Prelude.Text.{codes, trim_space, Text}
use xktmcp.Auth.Address.{Net}
use xktmcp.Auth.Limiter.{new_ip_pool, new_limiter, Float}
use xktmcp.Prelude.{
  nat_eq, list_eq, false, none, inl, ltb, inr, some, [], ◌⊎◌, length, ◌∷◌, ◌||◌, ◌==◌,
  if◌then◌else◌, Option, ◌&&◌, true, leb, not, List, Bool, ℕ,
}

-- TenantConfig
pub record TenantConfig (f : Float) : Type 0 where
  pub name : Text
  pub token : Text
  pub token_hash : Text
  pub user_id : Text
  pub allowed_tools : List Text
  pub rate_rps : f.Amount
  pub rate_burst : ℤ

-- Config, less the timeout of the remote call
pub record Config (net : Net) (f : Float) : Type 0 where
  pub local_token : Text
  pub tenants : List (TenantConfig f)
  pub tenants_configured : Bool
  pub remote_verify_url : Text
  pub allowed_hosts : List Text
  pub allowed_cidrs : List (Option net.Cidr)
  pub trust_forwarded_header : Bool
  pub trusted_proxy_cidrs : List (Option net.Cidr)
  pub positive_ttl : ℤ
  pub negative_ttl : ℤ
  pub remote_rate_rps : f.Amount
  pub remote_rate_burst : ℤ
  pub remote_ip_rate_rps : f.Amount
  pub remote_ip_rate_burst : ℤ
  pub remote_cache_max_entries : ℤ

-- Config.Enabled
unfoldable pub is_configured : {net : Net} {f : Float} → Config net f → Bool
is_configured cfg =
    not (cfg.local_token == [])
    || ltb 0 (length cfg.tenants)
    || not (cfg.remote_verify_url == [])
    || ltb 0 (length cfg.allowed_cidrs)

-- The errors of New.
pub data StartError : Type 0 where
  proxies_required : StartError
  bad_capacity : StartError
  host_refused : StartError
  unnamed_tenant : StartError
  bad_token_hash : Text → StartError
  duplicate_tenant : Text → StartError
  no_usable_token : StartError

-- A hexadecimal digit, after strings.ToLower.
abbrev pub is_hex : ℕ → Bool
is_hex c = leb 48 c && leb c 57 || leb 97 c && leb c 102

unfoldable pub all_hex : Text → Bool
all_hex [] = true
all_hex (c ∷ s) = let rest = all_hex s in is_hex c && rest

-- hex.DecodeString succeeds, and the bytes are sha256.Size many.
unfoldable pub is_digest : Text → Bool
unfolding all_hex
is_digest s = all_hex s && length s == 64

-- hostAllowed, from the loop on
unfoldable pub host_listed : List Text → Text → Bool
unfolding trim_space equal_fold
host_listed [] host = false
host_listed (h ∷ hosts) host =
    let rest = host_listed hosts host in if equal_fold (trim_space h) host then true else rest

-- hostAllowed
unfoldable pub host_allowed : (Text → Option (Text × Text)) → Text → List Text → Bool
unfolding host_listed
host_allowed parse_url raw_url hosts = elim (parse_url raw_url) [
  | none ↦ false
  | some u ↦
      if not (u.0 == codes "http") && not (u.0 == codes "https") || u.1 == []
      then false
      else host_listed hosts u.1
]

module _ {f : Float} where
  -- The key of a tenant in the table: of the hash, else of the token; `inr none` skips the tenant.
  unfoldable pub hash_key : (Text → Text) → TenantConfig f → StartError ⊎ Option Text
  unfolding trim_space to_lower is_digest
  hash_key hash_token tc =
      let hash : Text = to_lower (trim_space tc.token_hash) in
      if not (trim_space tc.token_hash == [])
      then (if is_digest hash then inr (some hash) else inl (bad_token_hash (trim_space tc.name)))
      else if not (trim_space tc.token == [])
      then inr (some (hash_token (trim_space tc.token)))
      else inr none

  -- The tenant that is stored.
  unfoldable pub tenant_of : ℕ → TenantConfig f → Tenant f
  unfolding trim_space new_limiter
  tenant_of now tc = record {
    name = trim_space tc.name;
    user_id = trim_space tc.user_id;
    allowed_tools = tc.allowed_tools;
    rate_rps = tc.rate_rps;
    rate_burst = tc.rate_burst;
    limiter =
        (if f.exceeds tc.rate_rps (f.of_int 0)
          then some (new_limiter f now (positive_or tc.rate_burst 10))
          else none);
  }

  -- A turn of the loop over the tenants.
  unfoldable pub register :
      (Text → Text)
      → ℕ
      → TenantConfig f
      → List (Text × Tenant f)
      → StartError ⊎ List (Text × Tenant f)
  unfolding trim_space hash_key tenant_of
  register hash_token now tc table =
      if trim_space tc.name == [] then inl unnamed_tenant else elim (hash_key hash_token tc) [
        | inl e ↦ inl e
        | inr found ↦ elim found [
          | none ↦ inr table
          | some key ↦
              if key == []
              then inr table
              else if has key table
              then inl (duplicate_tenant (trim_space tc.name))
              else inr ((key, tenant_of now tc) ∷ table)
        ]
      ]

  unfoldable pub register_all :
      (Text → Text)
      → ℕ
      → List (TenantConfig f)
      → List (Text × Tenant f)
      → StartError ⊎ List (Text × Tenant f)
  unfolding register
  register_all hash_token now [] table = inr table
  register_all hash_token now (tc ∷ tcs) table = elim (register hash_token now tc table) [
    | inl e ↦ inl e
    | inr more ↦ register_all hash_token now tcs more
  ]

-- The Authenticator after the start: the Config with its defaults, and the state.
pub record Authenticator (net : Net) (f : Float) : Type 0 where
  pub cfg : Config net f
  pub limits : Limits f
  pub remote_ok : Bool
  pub state : State f

-- Authenticator.Enabled
unfoldable pub is_enabled : {net : Net} {f : Float} → Authenticator net f → Bool
is_enabled a =
    not (a.cfg.local_token == [])
    || ltb 0 (length a.state.tenants)
    || a.remote_ok
    || ltb 0 (length a.cfg.allowed_cidrs)

module _ {net : Net} {f : Float} where
  -- The numbers of the Config with their defaults; times are in nanoseconds.
  abbrev pub limits_of : Config net f → Limits f
  limits_of cfg = record {
    positive_ttl = positive_or cfg.positive_ttl 300_000_000_000;
    negative_ttl = positive_or cfg.negative_ttl 30_000_000_000;
    rate_rps = (if f.at_most_zero cfg.remote_rate_rps then f.of_int 5 else cfg.remote_rate_rps);
    rate_burst = positive_or cfg.remote_rate_burst 10;
  }

  -- if cfg.RemoteIPRateRPS <= 0 { ... }
  unfoldable pub ip_rate_rps : Config net f → f.Amount
  ip_rate_rps cfg =
      if f.at_most_zero cfg.remote_ip_rate_rps
      then (if f.exceeds (f.of_int 2) (limits_of cfg).rate_rps
          then (limits_of cfg).rate_rps
          else f.of_int 2)
      else cfg.remote_ip_rate_rps

  -- if cfg.RemoteIPRateBurst <= 0 { ... }
  unfoldable pub ip_rate_burst : Config net f → ℕ
  ip_rate_burst cfg =
      positive_or cfg.remote_ip_rate_burst
        (if ltb (limits_of cfg).rate_burst 3 then (limits_of cfg).rate_burst else 3)

  abbrev pub cache_capacity : Config net f → ℤ
  cache_capacity cfg = elim cfg.remote_cache_max_entries [
    | pos n ↦ if n == 0 then pos 4096 else pos n
    | negsuc n ↦ negsuc n
  ]

  -- The Authenticator that New builds, with the cache, before the tenants.
  unfoldable pub authenticator :
      ℕ → Config net f → List (Text × Tenant f) → VerificationCache → Authenticator net f
  unfolding ip_rate_rps ip_rate_burst new_limiter new_ip_pool
  authenticator now cfg tenants cache = record {
    cfg = cfg;
    limits = limits_of cfg;
    remote_ok = not (cfg.remote_verify_url == []);
    state = record {
      tenants = tenants;
      verifier = record {
        cache = cache;
        pool = new_ip_pool f (cache_capacity cfg) (ip_rate_rps cfg) (pos (ip_rate_burst cfg));
        bucket = new_limiter f now (limits_of cfg).rate_burst;
      };
    };
  }

  -- From the table of the tenants on.
  unfoldable pub new_with_cache :
      (Text → Text) → ℕ → Config net f → VerificationCache → StartError ⊎ Authenticator net f
  unfolding register_all authenticator
  new_with_cache hash_token now cfg cache = elim (register_all hash_token now cfg.tenants []) [
    | inl e ↦ inl e
    | inr tenants ↦
        if cfg.tenants_configured && length tenants == 0
        then inl no_usable_token
        else inr (authenticator now cfg tenants cache)
  ]

  -- New. The panic of the cache's constructor is behind the test of the capacity.
  unfoldable pub new :
      (Text → Option (Text × Text))
      → (Text → Text)
      → ℕ
      → Config net f
      → StartError ⊎ Authenticator net f
  unfolding new_verification_cache host_allowed new_with_cache
  new parse_url hash_token now cfg =
      if cfg.trust_forwarded_header && length cfg.trusted_proxy_cidrs == 0
      then inl proxies_required
      else elim (new_verification_cache (cache_capacity cfg)) [
        | none ↦ inl bad_capacity
        | some cache ↦
            if not (cfg.remote_verify_url == [])
              && not (host_allowed parse_url cfg.remote_verify_url cfg.allowed_hosts)
            then inl host_refused
            else new_with_cache hash_token now cfg cache
      ]
