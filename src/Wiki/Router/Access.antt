-- ===== src/Wiki/Router/Access.antt =====
-- Who reaches whose searcher.
use xktmcp.Prelude.{
  ap, sym, ◌∙◌, ◌≡◌, ◌≢◌, ◌⊎◌, inl, inr, true, false, some, [], arith, ◌==◌, nat_eq, list_eq,
  list_beq_iff, Option-cases, not, ◌&&◌, if◌then◌else◌, Bool-cases,
}
use xktmcp.Prelude.Text.{Text, trim_space}
use xktmcp.Wiki.Router
use xktmcp.Trace.{
  Context, authenticated_user_id_from_context, request_origin_from_context, origin_network,
}
use xktmcp.Lru.Assoc.{lookup}
use mathlib.Core.Bool.{Bool}

module _ {Searcher : Type 0} where
  -- A searcher is that of the user `principal`, or it is the default one.
  abbrev pub IsOwn : Router.LocalRouter Searcher → Text → Searcher → Type 0
  IsOwn r principal s =
      ((principal ≢ []) × (lookup principal r.users ≡ some s))
      ⊎ ((s ≡ r.default_searcher) × (r.require_mapping ≡ false))

  route_as-IsOwn :
      (r : Router.LocalRouter Searcher) (p u : Text) {s : Searcher}
      → Router.route_as r true p u ≡ some s
      → IsOwn r p s
  unfolding Router.route_as Router.fallback Router.mapped_or
  route_as-IsOwn r p u h = ground (
    arith,
    list_beq_iff p [],
    list_beq_iff p u,
    Option-cases (lookup p r.users),
    Option-cases (lookup u r.users),
  )

  route-IsOwn :
      (r : Router.LocalRouter Searcher) (p q : Text) {s : Searcher}
      → Router.route r true p q ≡ some s
      → IsOwn r p s
  unfolding Router.route
  route-IsOwn r p q {s} h = elim (Bool-cases (not (p == []) && not (q == []) && not (p == q))) [
    | inl e ↦ absurd (ground (arith, e, (rw e at h)))
    | inr e ↦ route_as-IsOwn r p (if not (p == []) && q == [] then p else q) (rw e at h)
  ]

  -- A request from the network that is served is served from the directory of the authenticated user
  -- of its context, or from the default directory where no mapping is required, whatever user id the
  -- request names: no other user's directory is reached.
  pub searcher-IsOwn :
      (r : Router.LocalRouter Searcher) (ctx : Context) (user_id : Text) {s : Searcher}
      → request_origin_from_context (some ctx) ≡ origin_network
      → Router.searcher r (some ctx) user_id ≡ some s
      → IsOwn r (authenticated_user_id_from_context (some ctx)) s
  unfolding Router.searcher
  searcher-IsOwn r ctx user_id net h =
      let p = authenticated_user_id_from_context (some ctx) in
      let origin = request_origin_from_context (some ctx) in
      route-IsOwn r p (trim_space user_id) (
        ap (λ b. Router.route r b p (trim_space user_id))
          (sym ((list_beq_iff origin origin_network).1 net))
        ∙ h)

  route_as-own :
      (r : Router.LocalRouter Searcher) (network : Bool) (p : Text) {s : Searcher}
      → p ≢ []
      → lookup p r.users ≡ some s
      → Router.route_as r network p p ≡ some s
  unfolding Router.route_as Router.fallback Router.mapped_or
  route_as-own r network p named m = ground (arith, list_beq_iff p [], list_beq_iff p p)

  route-own :
      (r : Router.LocalRouter Searcher) (network : Bool) (p q : Text) {s : Searcher}
      → p ≢ []
      → lookup p r.users ≡ some s
      → (q ≡ []) ⊎ (q ≡ p)
      → Router.route r network p q ≡ some s
  unfolding Router.route
  route-own r network p q named m asked = ground (
    arith,
    list_beq_iff p [],
    list_beq_iff p q,
    list_beq_iff q [],
    route_as-own r network p named m,
  )

  -- An authenticated user with a directory is served from it, from the network or not, who names no
  -- user id or their own.
  pub searcher-own :
      (r : Router.LocalRouter Searcher) (ctx : Context) (user_id : Text) {s : Searcher}
      → authenticated_user_id_from_context (some ctx) ≢ []
      → lookup (authenticated_user_id_from_context (some ctx)) r.users ≡ some s
      → (trim_space user_id ≡ [])
        ⊎ (trim_space user_id ≡ authenticated_user_id_from_context (some ctx))
      → Router.searcher r (some ctx) user_id ≡ some s
  unfolding Router.searcher
  searcher-own r ctx user_id named m asked = route-own r _ _ _ named m asked
