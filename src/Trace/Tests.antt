-- ===== src/Trace/Tests.antt =====
-- User ids and trace ids on small examples.
use xktmcp.Prelude.{◌≡◌, refl, none, some, [], nat_eq, list_eq}
use xktmcp.Prelude.Text.{codes, trim_space}
use xktmcp.Trace
use xktmcp.Trace.Users.{NamesAtMost, authenticated_prevails}

abbrev routed : Trace.Context
routed = record {
  id = none;
  user_id = some (codes " alice");
  authenticated_user_id = none;
  request_origin = none;
}

authenticated_prevails_example :
    (codes "alice" ≡ codes "alice")
    × NamesAtMost (codes "alice") []
    × NamesAtMost (codes "alice") (codes "alice")
unfolding trim_space Trace.resolve_user_id Trace.resolve_among Trace.with_authenticated_user_id
    Trace.user_id_from_context Trace.authenticated_user_id_from_context
authenticated_prevails_example = authenticated_prevails routed (codes "alice ") [] (λ p. cc) refl
