-- ===== src/Trace.antt =====
-- internal/trace/trace.go: what a request's context carries. A `Context` holds the latest value
-- given to each key of `context.WithValue`; the readers also take a nil context.
pub mod Users
mod Tests
use xktmcp.Prelude.{
  Bool, not, ◌&&◌, ◌||◌, Option, none, some, List, [], ◌∷◌, ◌==◌, nat_eq, list_eq, if◌then◌else◌,
}
use xktmcp.Prelude.Text.{Text, codes, trim_space}

pub record Context : Type 0 where
  pub id : Option Text
  pub user_id : Option Text
  pub authenticated_user_id : Option Text
  pub request_origin : Option Text

abbrev pub background : Context
background = record {
  id = none;
  user_id = none;
  authenticated_user_id = none;
  request_origin = none;
}

abbrev pub origin_network : Text
origin_network = codes "network"

-- v, _ := ctx.Value(key).(string)
abbrev pub or_blank : Option Text → Text
or_blank none = []
or_blank (some v) = v

unfoldable pub with_id : Context → Text → Context
with_id ctx v = record {
  id = some v;
  user_id = ctx.user_id;
  authenticated_user_id = ctx.authenticated_user_id;
  request_origin = ctx.request_origin;
}

unfoldable pub id_from_context : Option Context → Text
id_from_context none = []
id_from_context (some ctx) = or_blank ctx.id

-- The first of `preferred` that is not empty, else the new id.
unfoldable pub preferred_or : Text → List Text → Text
preferred_or new_id [] = new_id
preferred_or new_id (p ∷ preferred) =
    let rest = preferred_or new_id preferred in if not (p == []) then p else rest

-- `new_id` is what `NewID` returns.
unfoldable pub ensure_id : Text → Context → List Text → Context × Text
unfolding id_from_context preferred_or with_id
ensure_id new_id ctx preferred =
    if not (id_from_context (some ctx) == [])
    then (ctx, id_from_context (some ctx))
    else (with_id ctx (preferred_or new_id preferred), preferred_or new_id preferred)

unfoldable pub with_user_id : Context → Text → Context
with_user_id ctx uid = record {
  id = ctx.id;
  user_id = some uid;
  authenticated_user_id = ctx.authenticated_user_id;
  request_origin = ctx.request_origin;
}

unfoldable pub user_id_from_context : Option Context → Text
user_id_from_context none = []
user_id_from_context (some ctx) = or_blank ctx.user_id

unfoldable pub with_authenticated_user_id : Context → Text → Context
unfolding trim_space
with_authenticated_user_id ctx uid = record {
  id = ctx.id;
  user_id = ctx.user_id;
  authenticated_user_id = some (trim_space uid);
  request_origin = ctx.request_origin;
}

unfoldable pub authenticated_user_id_from_context : Option Context → Text
unfolding trim_space
authenticated_user_id_from_context none = []
authenticated_user_id_from_context (some ctx) = trim_space (or_blank ctx.authenticated_user_id)

-- ResolveUserID on its three trimmed sources; `none` is ErrUserIDConflict.
unfoldable pub resolve_among : Text → Text → Text → Option Text
resolve_among principal explicit routed =
    if not (principal == [])
    then if (not (explicit == []) && not (explicit == principal))
        || (not (routed == []) && not (routed == principal))
      then none
      else some principal
    else if not (explicit == [])
    then some explicit
    else some routed

unfoldable pub resolve_user_id : Option Context → Text → Option Text
unfolding resolve_among authenticated_user_id_from_context user_id_from_context trim_space
resolve_user_id ctx explicit =
    resolve_among (authenticated_user_id_from_context ctx) (trim_space explicit)
      (trim_space (user_id_from_context ctx))

unfoldable pub effective_among : Text → Text → Text → Text
effective_among principal explicit routed =
    if not (principal == []) then principal else if not (explicit == []) then explicit else routed

unfoldable pub effective_user_id : Option Context → Text → Text
unfolding effective_among authenticated_user_id_from_context user_id_from_context trim_space
effective_user_id ctx explicit =
    effective_among (authenticated_user_id_from_context ctx) (trim_space explicit)
      (trim_space (user_id_from_context ctx))

unfoldable pub with_request_origin : Context → Text → Context
with_request_origin ctx origin = record {
  id = ctx.id;
  user_id = ctx.user_id;
  authenticated_user_id = ctx.authenticated_user_id;
  request_origin = some origin;
}

unfoldable pub request_origin_from_context : Option Context → Text
request_origin_from_context none = []
request_origin_from_context (some ctx) = or_blank ctx.request_origin
