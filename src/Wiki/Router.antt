-- ===== src/Wiki/Router.antt =====
-- internal/wiki/local_router.go: which searcher, hence which directory, serves a request. A searcher
-- is a parameter of the model, as the router only passes calls on to it.
pub mod Access
use xktmcp.Prelude.{
  ℕ, ◌+◌, Bool, true, false, not, ◌&&◌, ◌||◌, Option, none, some, List, [], ◌∷◌, ◌==◌, nat_eq,
  list_eq, if◌then◌else◌,
}
use xktmcp.Prelude.Text.{Text, trim_space}
use xktmcp.Lru.Assoc.{lookup, has}
use xktmcp.Trace.{
  Context, authenticated_user_id_from_context, request_origin_from_context, origin_network,
}

pub record LocalRouter (Searcher : Type 0) : Type 0 where
  pub default_searcher : Searcher
  pub users : List (Text × Searcher)
  pub require_mapping : Bool

module _ {Searcher : Type 0} where
  -- The lookup that ends `searcher`; `none` is ErrUserWikiNotConfigured.
  unfoldable pub fallback : LocalRouter Searcher → Option Searcher
  fallback r = if r.require_mapping then none else some r.default_searcher

  unfoldable pub mapped_or : Option Searcher → LocalRouter Searcher → Option Searcher
  mapped_or (some s) r = some s
  mapped_or none r = fallback r

  -- From the test of the request's origin on, which is read as `network`.
  unfoldable pub route_as : LocalRouter Searcher → Bool → Text → Text → Option Searcher
  unfolding fallback mapped_or
  route_as r network principal user_id =
      if network && has user_id r.users && (principal == [] || not (principal == user_id))
      then fallback r
      else mapped_or (lookup user_id r.users) r

  -- From the point where `userID` is trimmed and `principal` is read.
  unfoldable pub route : LocalRouter Searcher → Bool → Text → Text → Option Searcher
  unfolding route_as
  route r network principal requested =
      if not (principal == []) && not (requested == []) && not (principal == requested)
      then none
      else route_as r network principal
          (if not (principal == []) && requested == [] then principal else requested)

  unfoldable pub searcher : LocalRouter Searcher → Option Context → Text → Option Searcher
  unfolding route mapped_or
  searcher r none user_id = mapped_or (lookup (trim_space user_id) r.users) r
  searcher r (some ctx) user_id =
      route r (request_origin_from_context (some ctx) == origin_network)
        (authenticated_user_id_from_context (some ctx)) (trim_space user_id)

  -- SearchWiki, GetPage, ListTree, UpsertPage, GetBacklinks, ListResources and ReadPageResource:
  -- each takes the searcher and calls its method of the same name.
  unfoldable pub served :
      {A : Type 0} → LocalRouter Searcher → Option Context → Text → (Searcher → Option A) → Option A
  unfolding searcher
  served r ctx user_id method = elim (searcher r ctx user_id) [ none ↦ none | some s ↦ method s ]
