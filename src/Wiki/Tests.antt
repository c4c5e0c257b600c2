-- ===== src/Wiki/Tests.antt =====
-- The router on two users and numbered searchers.
use xktmcp.Prelude.{ℕ, refl, none, false, some, [], ◌∷◌, nat_eq, list_eq}
use xktmcp.Prelude.Text.{codes, trim_space}
use xktmcp.Trace.{Context, authenticated_user_id_from_context, request_origin_from_context}
use xktmcp.Wiki.Router
use xktmcp.Wiki.Router.{LocalRouter}
use xktmcp.Wiki.Router.Access.{IsOwn, searcher-IsOwn}

abbrev router : LocalRouter ℕ
router = record {
  default_searcher = 0;
  users = (codes "alice", 1) ∷ (codes "bob", 2) ∷ [];
  require_mapping = false;
}

abbrev request : Context
request = record {
  id = none;
  user_id = none;
  authenticated_user_id = some (codes "alice");
  request_origin = some (codes "network");
}

abbrev anonymous : Context
anonymous = record {
  id = none;
  user_id = none;
  authenticated_user_id = none;
  request_origin = some (codes "network");
}

searcher-IsOwn_example : IsOwn router [] 0
unfolding Router.searcher Router.route Router.route_as Router.mapped_or Router.fallback trim_space
    authenticated_user_id_from_context request_origin_from_context
searcher-IsOwn_example = searcher-IsOwn router anonymous (codes "bob") refl refl
