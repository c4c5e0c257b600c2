-- ===== src/Auth/Start/Registered.antt =====
-- The tenants that a start registers.
use xktmcp.Auth.Cache.{new_verification_cache, VerificationCache}
use xktmcp.Auth.Address.{Net}
use mathlib.Core.Path.{ap, sym, subst}
use xktmcp.Prelude.Text.{Text}
use xktmcp.Auth.Start
use mathlib.Core.Sum.{inr-injective}
use mathlib.Core.List.{Memᴰ}
use xktmcp.Auth.Start.{
  new_verification_cache, VerificationCache, Authenticator, Config, Net, inl, Option, [], some, inr,
  List, Text, TenantConfig, StartError,
}
use xktmcp.Auth.Gate.{Tenant}
use xktmcp.Auth.Limiter.{Float}
use xktmcp.Lru.Assoc.{lookup}
use xktmcp.Prelude.{
  ap, ◌∙◌, sym, ◌∷◌, Option-cases, list_beq_iff, ◌==◌, Bool-cases, refl, none, arith, Option, ◌⊎◌,
  [], some, inr, List, nat_eq, list_eq, ℕ, ◌≡◌, ◌≢◌,
}

module _ {f : Float} (hash_token : Text → Text) (now : ℕ) where
  -- The table has the tenant of each configuration, under its key.
  abbrev pub Has : List (Text × Tenant f) → TenantConfig f → Type 0
  Has table tc =
      (key : Text)
      → Start.hash_key hash_token tc ≡ inr (some key)
      → key ≢ []
      → lookup key table ≡ some (Start.tenant_of now tc)

  -- The keys that a table had before keep their tenants.
  Extends : List (Text × Tenant f) → List (Text × Tenant f) → Type 0
  Extends old new = (key : Text) (t : Tenant f) → lookup key old ≡ some t → lookup key new ≡ some t

  -- An entry of the new table that is not one of the old is the tenant's.
  Adds : List (Text × Tenant f) → List (Text × Tenant f) → TenantConfig f → Type 0
  Adds old new tc =
      (key : Text) (t : Tenant f)
      → lookup key new ≡ some t
      → (lookup key old ≡ some t)
        ⊎ ((Start.hash_key hash_token tc ≡ inr (some key)) × (t ≡ Start.tenant_of now tc))

  cons-cases :
      (tc : TenantConfig f) (table : List (Text × Tenant f)) (key : Text)
      → Start.hash_key hash_token tc ≡ inr (some key)
      → lookup key table ≡ none
      → Extends table ((key, Start.tenant_of now tc) ∷ table)
        × Has ((key, Start.tenant_of now tc) ∷ table) tc
        × Adds table ((key, Start.tenant_of now tc) ∷ table) tc
  unfolding Extends Adds
  cons-cases tc table key q free = (
    λ k t p. ground (arith, p, free, list_beq_iff key k),
    λ k e _. ground (arith, e, q, list_beq_iff key k),
    λ k t p. elim (Bool-cases (key == k)) [
      | inl same ↦ inr (ground (arith, q, same, list_beq_iff key k), ground (arith, p, same))
      | inr other ↦ inl (ground (arith, p, other))
    ],
  )

  register-cases :
      (tc : TenantConfig f) (table more : List (Text × Tenant f))
      → Start.register hash_token now tc table ≡ inr more
      → Extends table more × Has more tc × Adds table more tc
  unfolding Start.register Extends Adds
  register-cases tc table more h = go (Start.hash_key hash_token tc) refl
    where
      go :
          (o : StartError ⊎ Option Text)
          → Start.hash_key hash_token tc ≡ o
          → Extends table more × Has more tc × Adds table more tc
      go (inl e) q = absurd (ground (arith, h, q))
      go (inr none) q =
          let same : table ≡ more = ground (arith, h, q) in
          (
            λ k t p. ground (arith, p, same),
            λ k e _. absurd (ground (arith, e, q)),
            λ k t p. inl (ground (arith, p, same)),
          )
      go (inr (some key)) q = elim (Bool-cases (key == [])) [
        | inl blank ↦
            let same : table ≡ more = ground (arith, h, q, blank) in
            (
              λ k t p. ground (arith, p, same),
              λ k e full. absurd (ground (arith, e, q, full, blank, list_beq_iff key [])),
              λ k t p. inl (ground (arith, p, same)),
            )
        | inr full ↦ elim (Option-cases (lookup key table)) [
          | inr (t, taken) ↦ absurd (ground (arith, h, q, full, taken))
          | inl free ↦
              let same : (key, Start.tenant_of now tc) ∷ table ≡ more =
                ground (arith, h, q, full, free) in
              subst (λ m. Extends table m × Has m tc × Adds table m tc) same
                (cons-cases tc table key q free)
        ]
      ]

  -- The tenant `t` under `key` is that of one of the configurations.
  abbrev pub IsOf : List (TenantConfig f) → Text → Tenant f → Type 0
  IsOf tcs key t =
      (tc : TenantConfig f) × Memᴰ tc tcs
      × (Start.hash_key hash_token tc ≡ inr (some key))
      × (t ≡ Start.tenant_of now tc)

  register_all_step :
      (tc : TenantConfig f) (tcs : List (TenantConfig f)) (table more : List (Text × Tenant f))
      → Start.register_all hash_token now (tc ∷ tcs) table ≡ inr more
      → (next : List (Text × Tenant f)) × (Start.register hash_token now tc table ≡ inr next)
        × (Start.register_all hash_token now tcs next ≡ inr more)
  unfolding Start.register_all
  register_all_step tc tcs table more h = go (Start.register hash_token now tc table) refl
    where
      go :
          (o : StartError ⊎ List (Text × Tenant f))
          → Start.register hash_token now tc table ≡ o
          → (next : List (Text × Tenant f)) × (Start.register hash_token now tc table ≡ inr next)
            × (Start.register_all hash_token now tcs next ≡ inr more)
      go (inl e) q = absurd (ground (arith, h, q))
      go (inr next) q = (next, q, ground (arith, h, q))

  register_all-Extends :
      (tcs : List (TenantConfig f)) (table more : List (Text × Tenant f))
      → Start.register_all hash_token now tcs table ≡ inr more
      → Extends table more
  unfolding Start.register_all Extends
  register_all-Extends [] table more h = λ k t p. ground (arith, h, p)
  register_all-Extends (tc ∷ tcs) table more h =
      let (next, q, r) = register_all_step tc tcs table more h in
      λ k t p. register_all-Extends tcs next more r k t ((register-cases tc table next q).0 k t p)

  register_all-Has :
      (tcs : List (TenantConfig f)) (table more : List (Text × Tenant f))
      → Start.register_all hash_token now tcs table ≡ inr more
      → (c : TenantConfig f) → Memᴰ c tcs
      → Has more c
  unfolding Extends
  register_all-Has [] table more h c m = elim m [ ]
  register_all-Has (tc ∷ tcs) table more h c (Memᴰ.head e) =
      let (next, q, r) = register_all_step tc tcs table more h in
      subst (λ d. Has more d) (sym e)
        (λ k p full.
          register_all-Extends tcs next more r k (Start.tenant_of now tc)
            ((register-cases tc table next q).1 k p full))
  register_all-Has (tc ∷ tcs) table more h c (Memᴰ.tail m) =
      let (next, q, r) = register_all_step tc tcs table more h in
      register_all-Has tcs next more r c m

  register_all-IsOf :
      (tcs : List (TenantConfig f)) (table more : List (Text × Tenant f))
      → Start.register_all hash_token now tcs table ≡ inr more
      → (key : Text) (t : Tenant f) → lookup key more ≡ some t
      → (lookup key table ≡ some t) ⊎ IsOf tcs key t
  unfolding Start.register_all Adds
  register_all-IsOf [] table more h key t p = inl (ground (arith, h, p))
  register_all-IsOf (tc ∷ tcs) table more h key t p =
      let (next, q, r) = register_all_step tc tcs table more h in
      elim (register_all-IsOf tcs next more r key t p) [
        | inr (c, m, k, e) ↦ inr (c, Memᴰ.tail m, k, e)
        | inl old ↦ elim ((register-cases tc table next q).2 key t old) [
          | inl older ↦ inl older
          | inr (k, e) ↦ inr (tc, Memᴰ.head refl, k, e)
        ]
      ]

module _ {net : Net} {f : Float} (parse_url : Text → Option (Text × Text))
    (hash_token : Text → Text) (now : ℕ) (cfg : Config net f) (a : Authenticator net f)
    (started : Start.new parse_url hash_token now cfg ≡ inr a) where
  new_with_cache-register_all :
      (cache : VerificationCache)
      → Start.new_with_cache hash_token now cfg cache ≡ inr a
      → Start.register_all hash_token now cfg.tenants [] ≡ inr a.state.tenants
  unfolding Start.new_with_cache Start.authenticator
  new_with_cache-register_all cache h = go (Start.register_all hash_token now cfg.tenants []) refl
    where
      go :
          (o : StartError ⊎ List (Text × Tenant f))
          → Start.register_all hash_token now cfg.tenants [] ≡ o
          → Start.register_all hash_token now cfg.tenants [] ≡ inr a.state.tenants
      go (inl e) q = absurd (ground (arith, h, q))
      go (inr tenants) q =
          let e : Path (StartError ⊎ Authenticator net f)
              (inr (Start.authenticator now cfg tenants cache)) (inr a) =
            ground (arith, h, q) in
          q ∙ ap (λ (b : Authenticator net f). inr b.state.tenants) (inr-injective _ _ e)

  new-register_all : Start.register_all hash_token now cfg.tenants [] ≡ inr a.state.tenants
  unfolding Start.new
  new-register_all = elim (Option-cases (new_verification_cache (Start.cache_capacity cfg))) [
    | inl panic ↦ absurd (ground (arith, started, panic))
    | inr (cache, q) ↦ new_with_cache-register_all cache (ground (arith, started, q))
  ]

  -- A start that succeeds registers each tenant that has a hash or a token, under its key, and nothing
  -- else: two tenants never share a key, so that a token is that of one tenant only.
  pub new-registers :
      ((tc : TenantConfig f) → Memᴰ tc cfg.tenants → Has hash_token now a.state.tenants tc)
      × ((key : Text) (t : Tenant f)
          → lookup key a.state.tenants ≡ some t
          → IsOf hash_token now cfg.tenants key t)
  new-registers = (
    register_all-Has hash_token now cfg.tenants [] a.state.tenants new-register_all,
    λ key t p.
        elim (register_all-IsOf hash_token now cfg.tenants [] a.state.tenants new-register_all key t
          p) [ inl nothing ↦ absurd (ground (arith, nothing)) | inr here ↦ here ],
  )
